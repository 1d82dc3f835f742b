-- ===== src/Pages/Count.antt =====
-- How long a list of different pages can be.
use tp_prom.Prelude.{
  ℕ, zero, suc, ◌≤◌, ◌<◌, ◌≡◌, ◌≢◌, refl, subst, not, Bool-cases, List, [], ◌∷◌, length, inl, inr,
  All, arith, ◌==◌,
}
use tp_prom.Pages.Chain.{Absent, Distinct}
use tp_prom.Pages.Split.{filter}

-- No list of different numbers below `n` has more than `n` of them.
without : ℕ → List ℕ → List ℕ
without n = filter (λ x. not (x == n))

without-Absent : (n : ℕ) (xs : List ℕ) → Absent n xs → without n xs ≡ xs
unfolding without
without-Absent n [] h = refl
without-Absent n (x ∷ xs) h = ground (arith, h.0, without-Absent n xs h.1)

length-without : (n : ℕ) (xs : List ℕ) → Distinct xs → length xs ≤ suc (length (without n xs))
unfolding without
length-without n [] d = omega arith
length-without n (x ∷ xs) d = elim (Bool-cases (x == n)) [
  | inl e ↦
      let same : x ≡ n = ground arith in
      rw e (rw (without-Absent n xs (subst (λ z. Absent z xs) same d.0)) (omega arith))
  | inr e ↦ rw e (omega (arith, length-without n xs d.1))
]

without-All : (P : ℕ → Type 0) (n : ℕ) (xs : List ℕ) → All P xs → All P (without n xs)
unfolding without
without-All P n [] h = tt
without-All P n (x ∷ xs) h = elim (Bool-cases (x == n)) [
  | inl e ↦ rw e (without-All P n xs h.1)
  | inr e ↦ rw e (h.0, without-All P n xs h.1)
]

without-Distinct : (n : ℕ) (xs : List ℕ) → Distinct xs → Distinct (without n xs)
unfolding without
without-Distinct n [] d = tt
without-Distinct n (x ∷ xs) d = elim (Bool-cases (x == n)) [
  | inl e ↦ rw e (without-Distinct n xs d.1)
  | inr e ↦ rw e (without-All (λ y. x ≢ y) n xs d.0, without-Distinct n xs d.1)
]

without-below : (n : ℕ) (xs : List ℕ) → All (λ x. x < suc n) xs → All (λ x. x < n) (without n xs)
unfolding without
without-below n [] h = tt
without-below n (x ∷ xs) h = elim (Bool-cases (x == n)) [
  | inl e ↦ rw e (without-below n xs h.1)
  | inr e ↦ rw e (ground (arith, h.0), without-below n xs h.1)
]

pub length-Distinct : (n : ℕ) (xs : List ℕ) → Distinct xs → All (λ x. x < n) xs → length xs ≤ n
length-Distinct zero [] d h = omega arith
length-Distinct zero (x ∷ xs) d h = absurd (omega (arith, h.0))
length-Distinct (suc n) xs d h = omega (
  arith,
  length-without n xs d,
  length-Distinct n (without n xs) (without-Distinct n xs d) (without-below n xs h),
)
