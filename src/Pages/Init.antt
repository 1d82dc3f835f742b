-- ===== src/Pages/Init.antt =====
-- page_init and the free list.
use tp_prom.Prelude.{
  ℕ, zero, suc, ◌+◌, ◌≤◌, ◌<◌, ◌≡◌, refl, sym, ap, ◌∙◌, subst, none, some, List, [], ◌∷◌, set,
  length, length-set, ◌⊎◌, inl, inr, get_or-set_self, get_or-set_ne, arith, Returns, Returns_bind,
}
use tp_prom.Pages.{PageInfo, Manager, store, page_init_loop, page_init}
use tp_prom.Pages.Chain.{
  no_page, page_at, Links, IsFreeList, Absent, Distinct, Links-set, store_lem,
}

-- n - 1, ..., 1, 0
abbrev pub countdown : ℕ → List ℕ
countdown zero = []
countdown (suc n) = n ∷ countdown n

countdown-Absent : (x n : ℕ) → n ≤ x → Absent x (countdown n)
countdown-Absent x zero le = tt
countdown-Absent x (suc n) le = ((λ e. omega (arith, e)), countdown-Absent x n (omega arith))

pub countdown-Distinct : (n : ℕ) → Distinct (countdown n)
countdown-Distinct zero = tt
countdown-Distinct (suc n) = (countdown-Absent n n (omega arith), countdown-Distinct n)

-- Of `total` pages, those below `n` are all on the free list, without references.
pub record IsInitialised (total n : ℕ) (m : Manager) : Type 0 where
  pub sized : length m.pages ≡ total
  pub same_npages : m.npages ≡ total
  pub free : IsFreeList m.pages m.page_free_list (countdown n)
  pub unreferenced : (x : ℕ) → x < n → (page_at m.pages x).pp_ref ≡ 0

module _ (total i : ℕ) (m : Manager) (lt : i < length m.pages) (h : IsInitialised total i m) where
  freed : PageInfo
  freed = record { pp_link = m.page_free_list; pp_ref = 0 }

  page_init_step :
      IsInitialised total
        (suc i)
        (record m { pages = set m.pages i freed; page_free_list = some i })
  unfolding freed
  page_init_step = record {
    sized = length-set m.pages i freed ∙ h.sized;
    same_npages = h.same_npages;
    free = (
      refl,
      rw (length-set m.pages i freed) lt,
      subst (λ z. Links (set m.pages i freed) z.pp_link (countdown i) none)
          (sym (get_or-set_self m.pages i freed no_page lt))
          (Links-set m.pages i freed m.page_free_list (countdown i) none
            (countdown-Absent i i (omega arith)) h.free),
    );
    unreferenced = λ x below. elim (last x below) [
      | inl e ↦
          subst (λ z. (page_at (set m.pages i freed) z).pp_ref ≡ 0) (sym e)
            (ap (λ z. z.pp_ref) (get_or-set_self m.pages i freed no_page lt))
      | inr front ↦
          ap (λ (z : PageInfo). z.pp_ref)
            (get_or-set_ne m.pages {i = i} {j = x} freed no_page (λ e. omega (arith, e, front)))
          ∙ h.unreferenced x front
    ];
  }
    where
      last : (x : ℕ) → x < suc i → (x ≡ i) ⊎ (x < i)
      last x below = ground arith

page_init_loop_lem :
    (total k i n : ℕ) (m : Manager)
    → i + k ≡ n
    → n ≤ length m.pages
    → IsInitialised total i m
    → Returns (page_init_loop k i m) (IsInitialised total n)
unfolding page_init_loop freed
page_init_loop_lem total zero i n m e fits h =
    subst (λ z. IsInitialised total z m) {x = i} {y = n} (omega arith) h
page_init_loop_lem total (suc k) i n m e fits h =
    let v : PageInfo = record { pp_link = m.page_free_list; pp_ref = 0 } in
    Returns_bind (λ ps. ps ≡ set m.pages i v) (IsInitialised total n) (store m.pages i v) _
      (λ ps e'. rw e' (
        let m' : Manager = record m { pages = set m.pages i v; page_free_list = some i } in
        let next : suc i ≡ i + 1 = omega arith in
        page_init_loop_lem total k (i + 1) n m' (omega arith) (rw (length-set m.pages i v) fits)
          (subst (λ z. IsInitialised total z m') next (page_init_step total i m (omega arith) h))))
      (store_lem m.pages i v (omega arith))

-- For an array of `npages` pages and an empty free list: page_init ends, and the free list is all
-- pages, the last one first, and none of them has a reference.
pub page_init_lem :
    (m : Manager)
    → length m.pages ≡ m.npages
    → m.page_free_list ≡ none
    → Returns (page_init m) (IsInitialised m.npages m.npages)
unfolding page_init
page_init_lem m size empty =
    page_init_loop_lem m.npages m.npages 0 m.npages m (omega arith) (omega arith) (record {
      sized = size;
      same_npages = refl;
      free = empty;
      unreferenced = λ x lt. absurd (omega arith);
    })
