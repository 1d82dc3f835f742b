-- ===== src/Pages/Order.antt =====
-- What check_page_free_list makes of the free list when it puts the low pages first.
use mathlib.Core.List.{append_assoc, append-nil}
use tp_prom.Prelude.{
  ℕ, zero, suc, ◌+◌, ◌<◌, ◌≡◌, refl, sym, ◌∙◌, subst, Bool, true, false, not, Option, none, some,
  List, [], ◌∷◌, ◌++◌, get_elem?, length, All, arith, Returns, Returns_bind, Returns_mono, ◌>>=◌,
}
use tp_prom.Pages.{Manager, pp1_slot, pp2_slot, Lists, put, is_high, move, split_loop, low_first}
use tp_prom.Pages.Chain.{page_at, IsFreeList, Distinct, Links-append, Links-below, get_elem?-page}
use tp_prom.Pages.Trail.{Trail, fresh, side, IsPut, put-IsPut, Disjoint}
use tp_prom.Pages.Count.{length-Distinct}
use tp_prom.Pages.Split.{filter, IsParted, Moved, move_lem, Disjoint-classes, Trail-IsPut}

abbrev pub is_low : ℕ → ℕ → Bool
is_low limit x = not (is_high limit x)

low_grows :
    (limit : ℕ) (b : Bool) (x : ℕ) (lo rest : List ℕ)
    → is_high limit x ≡ b
    → side b (lo ++ (x ∷ [])) lo ++ filter (is_low limit) rest
      ≡ lo ++ filter (is_low limit) (x ∷ rest)
low_grows limit true x lo rest e = rw e refl
low_grows limit false x lo rest e = rw e (append_assoc lo (x ∷ []) (filter (is_low limit) rest))

high_grows :
    (limit : ℕ) (b : Bool) (x : ℕ) (hi rest : List ℕ)
    → is_high limit x ≡ b
    → side b hi (hi ++ (x ∷ [])) ++ filter (is_high limit) rest
      ≡ hi ++ filter (is_high limit) (x ∷ rest)
high_grows limit true x hi rest e = rw e (append_assoc hi (x ∷ []) (filter (is_high limit) rest))
high_grows limit false x hi rest e = rw e refl

-- The loop has moved `lo` and `hi` at its end, and no page is left.
record IsSplit (limit : ℕ) (lo hi : List ℕ) (n : ℕ) (t : Lists) : Type 0 where
  parted : IsParted limit t none lo hi []
  size : length t.pages ≡ n

split_loop_lem :
    (limit : ℕ) (rest lo hi : List ℕ) (fuel : ℕ) (p : Option ℕ) (s : Lists)
    → length rest < fuel
    → IsParted limit s p lo hi rest
    → Returns (split_loop limit fuel p s) (
        IsSplit limit
          (lo ++ filter (is_low limit) rest)
          (hi ++ filter (is_high limit) rest)
          (length s.pages))
unfolding split_loop Moved
split_loop_lem limit rest lo hi zero p s lt h = absurd (omega arith)
split_loop_lem limit [] lo hi (suc fuel) p s lt h = rw h.remaining (
    rw (append-nil lo) (
      rw (append-nil hi)
        (record { parted = subst (λ z. IsParted limit s z lo hi []) h.remaining h; size = refl })))
split_loop_lem limit (x ∷ rest) lo hi (suc fuel) p s lt h = rw h.remaining.0 (
    Returns_bind (Moved limit s lo hi rest x k b) Goal (move limit x s) _
      (λ t m.
        Returns_bind (λ q. q ≡ page_at t.pages x) Goal (get_elem? t.pages x) _
          (λ q e. rw e (
            Returns_mono (split_loop limit fuel (page_at t.pages x).pp_link t)
              (λ u z. ended t u m z)
              (split_loop_lem limit rest (side b (lo ++ (x ∷ [])) lo) (side b hi (hi ++ (x ∷ [])))
                fuel (page_at t.pages x).pp_link t (omega arith) (parted t m))))
          (get_elem?-page t.pages x (inside t m)))
      (move_lem limit s lo hi rest x k))
  where
    b : Bool
    b = is_high limit x

    k : IsParted limit s (some x) lo hi (x ∷ rest)
    k = subst (λ z. IsParted limit s z lo hi (x ∷ rest)) h.remaining.0 h

    Goal : Lists → Type 0
    Goal =
        IsSplit limit (lo ++ filter (is_low limit) (x ∷ rest))
          (hi ++ filter (is_high limit) (x ∷ rest)) (length s.pages)

    parted :
        (t : Lists)
        → Moved limit s lo hi rest x k b t
        → IsParted limit t
            (page_at t.pages x).pp_link
            (side b (lo ++ (x ∷ [])) lo)
            (side b hi (hi ++ (x ∷ [])))
            rest
    parted t m = m.0

    inside : (t : Lists) → Moved limit s lo hi rest x k b t → x < length t.pages
    inside t m = rw m.1 h.remaining.1

    ended :
        (t u : Lists)
        → Moved limit s lo hi rest x k b t
        → IsSplit limit
            (side b (lo ++ (x ∷ [])) lo ++ filter (is_low limit) rest)
            (side b hi (hi ++ (x ∷ [])) ++ filter (is_high limit) rest)
            (length t.pages)
            u
        → Goal u
    ended t u m z =
        let e = low_grows limit b x lo rest refl in
        let e' = high_grows limit b x hi rest refl in
        record {
          parted =
              subst (λ ys. IsParted limit u none (lo ++ filter (is_low limit) (x ∷ rest)) ys []) e'
                (subst
                  (λ xs.
                    IsParted limit u none xs
                      (side b hi (hi ++ (x ∷ [])) ++ filter (is_high limit) rest) [])
                  e z.parted);
          size = z.size ∙ m.1;
        }

-- The free list of `m'` is `xs`, and nothing but it and the links has changed from `m`.
pub record IsReordered (m : Manager) (xs : List ℕ) (m' : Manager) : Type 0 where
  pub list : IsFreeList m'.pages m'.page_free_list xs
  pub size : length m'.pages ≡ length m.pages
  pub same_npages : m'.npages ≡ m.npages

module _ (limit : ℕ) (m : Manager) (lo hi : List ℕ) where
  join_lem :
      (s : Lists)
      → IsSplit limit lo hi (length m.pages) s
      → Returns
          (put s.tp1 none s >>= λ t.
            put t.tp0 t.pp2 t >>= λ u. some (record m { pages = u.pages; page_free_list = u.pp1 }))
          (IsReordered m (lo ++ hi))
  join_lem s h =
      Returns_bind (IsPut true hi none s) (IsReordered m (lo ++ hi)) (put s.tp1 none s) _
        (λ t p.
          let d =
            Disjoint-classes limit true hi lo (h.parted.of_class true) (h.parted.of_class false) in
          let trail : Trail t.pages t.pp1 pp1_slot lo t.tp0 =
            subst (λ z. Trail t.pages t.pp1 pp1_slot lo z) (sym p.same_tp0)
              (Trail-IsPut true hi lo none s t pp1_slot s.tp0 p d (h.parted.trail false)) in
          Returns_bind (IsPut false lo t.pp2 t) (IsReordered m (lo ++ hi)) (put t.tp0 t.pp2 t) _
            (λ u q. record {
              list = Links-append u.pages u.pp1 lo t.pp2 hi none q.links (
                  q.frame t.pp2 hi none
                    (Disjoint-classes limit false lo hi (h.parted.of_class false)
                      (h.parted.of_class true))
                    p.links);
              size = q.size ∙ p.size ∙ h.size;
              same_npages = refl;
            })
            (put-IsPut false t lo t.tp0 t.pp2 trail))
        (put-IsPut true s hi s.tp1 none (h.parted.trail true))

-- For a free list of different pages: the code that puts the pages below the limit first ends, and
-- its list is those pages and then the others, each in the order that they had.
pub low_first_lem :
    (limit : ℕ) (m : Manager) (xs : List ℕ)
    → IsFreeList m.pages m.page_free_list xs
    → Distinct xs
    → Returns
        (low_first limit m)
        (IsReordered m (filter (is_low limit) xs ++ filter (is_high limit) xs))
unfolding low_first
low_first_lem limit m xs h d =
    let short =
      length-Distinct (length m.pages) xs d (Links-below m.pages m.page_free_list xs none h) in
    let start : Lists = record {
      pages = m.pages;
      pp1 = none;
      pp2 = none;
      tp0 = pp1_slot;
      tp1 = pp2_slot;
    } in
    Returns_bind
      (IsSplit limit (filter (is_low limit) xs) (filter (is_high limit) xs) (length m.pages))
      (IsReordered m (filter (is_low limit) xs ++ filter (is_high limit) xs))
      (split_loop limit (length m.pages + 1) m.page_free_list start) _
      (λ s z. join_lem limit m (filter (is_low limit) xs) (filter (is_high limit) xs) s z)
      (split_loop_lem limit xs [] [] (length m.pages + 1) m.page_free_list start (omega arith)
        (record {
          trail = trails;
          remaining = h;
          of_class = classes;
          apart = aparts;
          distinct = d;
        }))
  where
    trails :
        (b : Bool)
        → Trail m.pages
            (side b none none)
            (side b pp1_slot pp2_slot)
            (side b [] [])
            (side b pp1_slot pp2_slot)
    trails false = fresh
    trails true = fresh

    classes : (b : Bool) → All (λ x. is_high limit x ≡ b) (side b [] [])
    classes false = tt
    classes true = tt

    aparts : (b : Bool) → Disjoint (side b [] []) xs
    aparts false = tt
    aparts true = tt
