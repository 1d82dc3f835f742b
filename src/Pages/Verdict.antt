-- ===== src/Pages/Verdict.antt =====
-- check_page_free_list.
use tp_prom.Prelude.{
  ℕ, suc, ◌+◌, ◌^◌, ◌≤◌, ◌<◌, ◌≡◌, refl, sym, ap, ◌∙◌, subst, Bool, true, false, not, Bool-cases,
  ◌&&◌, Option, none, some, List, [], ◌∷◌, ◌++◌, length, length-append, inl, inr, All, arith,
  Returns, Returns_bind, if◌then◌else◌, ltb,
}
use tp_prom.Pages.{
  Manager, boot_alloc, is_high, low_first, fill_loop, check_loop, check_filled, limit_of,
  check_page_free_list,
}
use tp_prom.Pages.Chain.{IsFreeList, Distinct, Links-below}
use tp_prom.Pages.Count.{length-Distinct}
use tp_prom.Pages.Split.{filter}
use tp_prom.Pages.Order.{is_low, IsReordered, low_first_lem}
use tp_prom.Pages.Fill.{IsFreePage, Filled, fill_loop_lem}
use tp_prom.Pages.Check.{is_base, Counted, counted, refused, check_loop_lem}

-- The list that is checked.
abbrev pub checked_order : Bool → List ℕ → List ℕ
checked_order only_low xs = if only_low then filter (is_low 1) xs ++ filter (is_high 1) xs else xs

-- What the check demands: every page may be free, and there are some in base memory and some
-- others.
pub record Passes (npages : ℕ) (xs : List ℕ) : Type 0 where
  pub free : All (IsFreePage npages) xs
  pub some_base : 0 < length (filter is_base xs)
  pub some_ext : 0 < length (filter (λ x. not (is_base x)) xs)

pub data Verdict (npages : ℕ) (xs : List ℕ) (o : Option Manager) : Type 0 where
  accepted :
      (m' : Manager)
      → o ≡ some m'
      → Passes npages xs
      → IsFreeList m'.pages m'.page_free_list xs
      → Verdict npages xs o
  panicked : o ≡ none → ¬ Passes npages xs → Verdict npages xs o

false_counts : (a b : ℕ) → ltb 0 a && ltb 0 b ≡ false → 0 < a → 0 < b → ⊥
false_counts a b n p q = ground (arith, n)

check_filled_lem :
    (end : ℕ) (m : Manager) (xs : List ℕ)
    → m.npages ≤ 2 ^ 20
    → length xs ≤ length m.pages
    → IsFreeList m.pages m.page_free_list xs
    → Returns (check_filled end m) (Verdict m.npages xs)
unfolding check_filled boot_alloc
check_filled_lem end m xs small short h =
    Returns_bind (Counted m.npages xs 0 0) (Verdict m.npages xs)
      (check_loop 0 (length m.pages + 1) m.page_free_list m' 0 0) _ judge
      (check_loop_lem xs (length m.pages + 1) m.page_free_list m' 0 0 small (omega arith) h)
  where
    m' : Manager
    m' = (boot_alloc end 0 m).1

    judge :
        (o : Option (ℕ × ℕ))
        → Counted m.npages xs 0 0 o
        → Returns
            (elim o as (λ z. Option (Option Manager)) [
              | none ↦ some none
              | some n ↦ some (if ltb 0 n.0 && ltb 0 n.1 then some m' else none)
            ])
            (Verdict m.npages xs)
    judge o (refused bad e) = rw e (panicked refl (λ p. bad p.free))
    judge o (counted all e) = rw e (
        by_counts all (0 + length (filter is_base xs))
          (0 + length (filter (λ x. not (is_base x)) xs)) (omega arith) (omega arith))
      where
        by_counts :
            All (IsFreePage m.npages) xs
            → (a b : ℕ) → a ≡ length (filter is_base xs)
            → b ≡ length (filter (λ x. not (is_base x)) xs)
            → Verdict m.npages xs (if ltb 0 a && ltb 0 b then some m' else none)
        by_counts all a b e e' = elim (Bool-cases (ltb 0 a && ltb 0 b)) [
          | inl y ↦ rw y (
              accepted m' refl
                (record { free = all; some_base = ground (arith, y); some_ext = ground (arith, y) })
                h)
          | inr n ↦ rw n (
              panicked refl
                (λ p. false_counts a b n (omega (arith, p.some_base)) (omega (arith, p.some_ext))))
        ]

length-filters :
    (test : ℕ → Bool) (xs : List ℕ)
    → length (filter (λ x. not (test x)) xs ++ filter test xs) ≡ length xs
length-filters test [] = refl
length-filters test (x ∷ xs) = elim (Bool-cases (test x)) [
  | inl e ↦ rw e (
      length-append (filter (λ x. not (test x)) xs) (x ∷ filter test xs)
      ∙ omega (
        arith,
        length-filters test xs,
        length-append (filter (λ x. not (test x)) xs) (filter test xs),
      ))
  | inr e ↦ rw e (ap suc (length-filters test xs))
]

length-checked_order :
    (only_low : Bool) (xs : List ℕ) → length (checked_order only_low xs) ≡ length xs
length-checked_order true xs = length-filters (is_high 1) xs
length-checked_order false xs = refl

reorder_lem :
    (only_low : Bool) (m : Manager) (xs : List ℕ)
    → IsFreeList m.pages m.page_free_list xs
    → Distinct xs
    → Returns
        (if only_low then low_first 1 m else some m)
        (IsReordered m (checked_order only_low xs))
reorder_lem true m xs h d = low_first_lem 1 m xs h d
reorder_lem false m xs h d = record { list = h; size = refl; same_npages = refl }

-- For a free list of different pages in an array of `npages` pages, at most 2 ^ 20: the check ends.
-- It succeeds where every page of the list may be free, some are in base memory and some are not,
-- and then its list is the one that was checked: for the low memory, the pages of the first 4 MB and
-- then the others, each in the order that they had. Otherwise it panics.
pub check_page_free_list_lem :
    (end : ℕ) (only_low : Bool) (m : Manager) (xs : List ℕ)
    → m.npages ≤ 2 ^ 20
    → length m.pages ≡ m.npages
    → IsFreeList m.pages m.page_free_list xs
    → Distinct xs
    → Returns (check_page_free_list end only_low m) (Verdict m.npages (checked_order only_low xs))
unfolding check_page_free_list
check_page_free_list_lem end false m [] small size h d =
    rw h (panicked refl (λ p. omega (arith, p.some_base)))
check_page_free_list_lem end true m [] small size h d =
    rw h (panicked refl (λ p. omega (arith, p.some_base)))
check_page_free_list_lem end only_low m (x ∷ xs) small size h d =
    listed (Verdict m.npages ys) m.page_free_list h.0 _ (
      Returns_bind (IsReordered m ys) (Verdict m.npages ys)
        (if only_low then low_first 1 m else some m) _
        (λ m1 r.
          let fits : m1.npages ≤ 2 ^ 20 = rw r.same_npages small in
          Returns_bind (Filled m1) (Verdict m.npages ys)
            (fill_loop (limit_of only_low) (length m1.pages + 1) m1.page_free_list m1) _
            (λ o f. filled_lem m1 r o f)
            (fill_loop_lem (limit_of only_low) ys (length m1.pages + 1) m1.page_free_list m1 fits
              (r.size ∙ size ∙ sym r.same_npages) (omega (arith, r.size, short)) r.list))
        (reorder_lem only_low m (x ∷ xs) h d))
  where
    listed :
        (V : Option Manager → Type 0) (o : Option ℕ)
        → o ≡ some x
        → (rest : Option (Option Manager)) → Returns rest V
        → Returns (elim o as (λ z. Option (Option Manager)) [ none ↦ some none | some pp ↦ rest ]) V
    listed V none e rest h = absurd (cc)
    listed V (some pp) e rest h = h

    ys : List ℕ
    ys = checked_order only_low (x ∷ xs)

    short : length ys ≤ length m.pages
    short = omega (
      arith,
      length-checked_order only_low (x ∷ xs),
      length-Distinct (length m.pages) (x ∷ xs) d
          (Links-below m.pages m.page_free_list (x ∷ xs) none h),
    )

    filled_lem :
        (m1 : Manager)
        → IsReordered m ys m1
        → (o : Option Manager) → Filled m1 o
        → Returns
            (elim o as (λ z. Option (Option Manager)) [
              | none ↦ some none
              | some m2 ↦ check_filled end m2
            ])
            (Verdict m.npages ys)
    filled_lem m1 r o (m2, e, f) =
        let same : m2.npages ≡ m.npages = f.same_npages ∙ r.same_npages in
        let list =
          subst (λ z. IsFreeList z m2.page_free_list ys) (sym f.same_pages)
            (subst (λ z. IsFreeList m1.pages z ys) (sym f.same_list) r.list) in
        let size' : length m2.pages ≡ length m.pages = ap (λ z. length z) f.same_pages ∙ r.size in
        rw e (
          subst (λ n. Returns (check_filled end m2) (Verdict n ys)) same
            (check_filled_lem end m2 ys (rw same small) (rw size' short) list))
