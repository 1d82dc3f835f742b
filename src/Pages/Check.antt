-- ===== src/Pages/Check.antt =====
-- The loop of check_page_free_list that checks the pages.
use mathlib.Core.Bool.{true≢false}
use tp_prom.Prelude.{
  ℕ, zero, suc, ◌+◌, ◌^◌, ◌≤◌, ◌<◌, ◌≡◌, refl, sym, ◌∙◌, subst, Bool, true, false, not, Option,
  none, some, List, [], ◌∷◌, get_elem?, length, All, arith, Returns, Returns_bind, Returns_mono,
  ltb,
}
use tp_prom.Paging.Physical.{page2pa}
use tp_prom.Pages.{PageInfo, Manager, extphysmem, is_free_page, check_loop}
use tp_prom.Pages.Chain.{page_at, IsFreeList, get_elem?-page}
use tp_prom.Pages.Split.{filter}
use tp_prom.Pages.Fill.{IsFreePage, is_free_page-IsFreePage, IsFreePage-is_free_page}

abbrev pub is_base : ℕ → Bool
is_base x = ltb (page2pa x) extphysmem

-- Every page of the list may be free, and the counts are those of the pages in base memory and of
-- the others; or some page of the list may not be free.
pub data Counted (npages : ℕ) (xs : List ℕ) (base ext : ℕ) (o : Option (ℕ × ℕ)) : Type 0 where
  counted :
      All (IsFreePage npages) xs
      → o
        ≡ some (base + length (filter is_base xs), ext + length (filter (λ x. not (is_base x)) xs))
      → Counted npages xs base ext o
  refused : ¬ All (IsFreePage npages) xs → o ≡ none → Counted npages xs base ext o

same_counts :
    {a a' b b' : ℕ} → a ≡ a' → b ≡ b' → ◌≡◌ {A = Option (ℕ × ℕ)} (some (a, b)) (some (a', b'))
same_counts e e' = λ i. some (e i, e' i)

module _ (npages : ℕ) (small : npages ≤ 2 ^ 20) (x : ℕ) (xs : List ℕ) (base ext : ℕ) where
  Counted-base :
      is_free_page npages 0 x ≡ true
      → is_base x ≡ true
      → (o : Option (ℕ × ℕ)) → Counted npages xs (base + 1) ext o
      → Counted npages (x ∷ xs) base ext o
  Counted-base ok b o (counted all e) =
      counted (is_free_page-IsFreePage npages small x ok, all)
        (e ∙ rw b (same_counts (omega arith) refl))
  Counted-base ok b o (refused bad e) = refused (λ all. bad all.1) e

  Counted-ext :
      is_free_page npages 0 x ≡ true
      → is_base x ≡ false
      → (o : Option (ℕ × ℕ)) → Counted npages xs base (ext + 1) o
      → Counted npages (x ∷ xs) base ext o
  Counted-ext ok b o (counted all e) =
      counted (is_free_page-IsFreePage npages small x ok, all)
        (e ∙ rw b (same_counts refl (omega arith)))
  Counted-ext ok b o (refused bad e) = refused (λ all. bad all.1) e

  Counted-bad : is_free_page npages 0 x ≡ false → Counted npages (x ∷ xs) base ext none
  Counted-bad bad =
      refused (λ all. true≢false (sym (IsFreePage-is_free_page npages small x all.0) ∙ bad)) refl

pub check_loop_lem :
    (xs : List ℕ) (fuel : ℕ) (p : Option ℕ) (m : Manager) (base ext : ℕ)
    → m.npages ≤ 2 ^ 20
    → length xs < fuel
    → IsFreeList m.pages p xs
    → Returns (check_loop 0 fuel p m base ext) (Counted m.npages xs base ext)
unfolding check_loop
check_loop_lem xs zero p m base ext small lt h = absurd (omega arith)
check_loop_lem [] (suc fuel) p m base ext small lt h =
    rw h (counted tt (same_counts (omega arith) (omega arith)))
check_loop_lem (x ∷ xs) (suc fuel) p m base ext small lt h = rw h.0 (
    Returns_bind (λ q. q ≡ page_at m.pages x) (Counted m.npages (x ∷ xs) base ext)
      (get_elem? m.pages x) _
      (λ q e.
        let rest = subst (λ (z : PageInfo). IsFreeList m.pages z.pp_link xs) (sym e) h.2 in
        by_class q (is_free_page m.npages 0 x) refl (is_base x) refl
          (check_loop_lem xs fuel q.pp_link m (base + 1) ext small (omega arith) rest)
          (check_loop_lem xs fuel q.pp_link m base (ext + 1) small (omega arith) rest))
      (get_elem?-page m.pages x h.1))
  where
    by_class :
        (q : PageInfo) (ok : Bool)
        → is_free_page m.npages 0 x ≡ ok
        → (b : Bool) → is_base x ≡ b
        → Returns
            (check_loop 0 fuel q.pp_link m (base + 1) ext)
            (Counted m.npages xs (base + 1) ext)
        → Returns
            (check_loop 0 fuel q.pp_link m base (ext + 1))
            (Counted m.npages xs base (ext + 1))
        → Returns
            (elim ok as (λ z. Option (Option (ℕ × ℕ))) [
              | false ↦ some none
              | true ↦ elim b as (λ z. Option (Option (ℕ × ℕ))) [
                | true ↦ check_loop 0 fuel q.pp_link m (base + 1) ext
                | false ↦ check_loop 0 fuel q.pp_link m base (ext + 1)
              ]
            ])
            (Counted m.npages (x ∷ xs) base ext)
    by_class q false e b e' h k = Counted-bad m.npages small x xs base ext e
    by_class q true e true e' h k =
        Returns_mono (check_loop 0 fuel q.pp_link m (base + 1) ext)
          (Counted-base m.npages small x xs base ext e e') h
    by_class q true e false e' h k =
        Returns_mono (check_loop 0 fuel q.pp_link m base (ext + 1))
          (Counted-ext m.npages small x xs base ext e e') k
