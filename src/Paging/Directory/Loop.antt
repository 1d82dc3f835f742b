-- ===== src/Paging/Directory/Loop.antt =====
-- The loops of check_kern_pgdir.
use native.Mathlib.Nat.{mul-zero, mul-suc}
use tp_prom.Prelude.{
  ℕ, zero, suc, ◌+◌, ◌*◌, ◌%◌, ◌≤◌, ◌<◌, ◌≡◌, refl, sym, subst, Bool-cases, Option, none, some, ltb,
  ltb→lt, ◌>>=◌, inl, inr, arith,
}
use tp_prom.Paging.Address.{word}
use tp_prom.Paging.Directory.{for_loop}

abbrev pub Ends : Option (Unit {0}) → Type 0
Ends o = o ≡ some tt

abbrev pub AllEnd : ℕ → (ℕ → Option (Unit {0})) → ℕ → ℕ → Type 0
AllEnd step body i n = (k : ℕ) → i + step * k < n → Ends (body (i + step * k))

pub both_end : (o o' : Option (Unit {0})) → Ends (o >>= λ _. o') → Ends o × Ends o'
both_end none o' h = absurd (cc)
both_end (some tt) o' h = (refl, h)

pub end_both : (o o' : Option (Unit {0})) → Ends o → Ends o' → Ends (o >>= λ _. o')
end_both o o' h h' = rw h h'

module _ (step : ℕ) (body : ℕ → Option (Unit {0})) (n : ℕ) (room : n + step ≤ word) where
  advance : (i : ℕ) → i < n → (i + step) % word ≡ i + step
  advance i lt = omega arith

  shift : (i k : ℕ) → i + step + step * k ≡ i + step * suc k
  shift i k = omega (arith, mul-suc step k)

  start : (i : ℕ) → i + step * 0 ≡ i
  start i = omega (arith, mul-zero step)

  pub for_loop-AllEnd : (fuel i : ℕ) → Ends (for_loop step body fuel i n) → AllEnd step body i n
  unfolding for_loop
  for_loop-AllEnd zero i h k inside = absurd (cc)
  for_loop-AllEnd (suc fuel) i h k inside = elim (Bool-cases (ltb i n)) [
    | inr over ↦ absurd (ground arith)
    | inl more ↦
        let lt = ltb→lt i n more in
        let h' =
          both_end (body i) (for_loop step body fuel ((i + step) % word) n)
            (rw (more, for_loop) at h) in
        let rest =
          for_loop-AllEnd fuel (i + step)
            (subst (λ z. Ends (for_loop step body fuel z n)) (advance i lt) h'.1) in
        by_pass k inside h'.0 rest
  ]
    where
      by_pass :
          (k : ℕ)
          → i + step * k < n
          → Ends (body i)
          → AllEnd step body (i + step) n
          → Ends (body (i + step * k))
      by_pass zero inside first rest = subst (λ z. Ends (body z)) (sym (start i)) first
      by_pass (suc k) inside first rest =
          subst (λ z. Ends (body z)) (shift i k) (rest k (omega (arith, shift i k)))

  -- `r` passes are enough.
  pub AllEnd-for_loop :
      (fuel r i : ℕ)
      → r < fuel
      → n ≤ i + step * r
      → AllEnd step body i n
      → Ends (for_loop step body fuel i n)
  unfolding for_loop
  AllEnd-for_loop zero r i more enough h = absurd (omega arith)
  AllEnd-for_loop (suc fuel) r i more enough h = elim (Bool-cases (ltb i n)) [
    | inr over ↦ rw (over, for_loop) refl
    | inl more' ↦
        let lt = ltb→lt i n more' in
        rw (more', for_loop)
          (end_both (body i) (for_loop step body fuel ((i + step) % word) n)
            (subst (λ z. Ends (body z)) (start i) (h 0 (omega (arith, start i))))
            (subst (λ z. Ends (for_loop step body fuel z n)) (sym (advance i lt))
              (next r more enough lt (λ r a b. AllEnd-for_loop fuel r (i + step) a b rest))))
  ]
    where
      rest : AllEnd step body (i + step) n
      rest k inside =
          subst (λ z. Ends (body z)) (sym (shift i k)) (h (suc k) (omega (arith, shift i k)))

      next :
          (r : ℕ)
          → r < suc fuel
          → n ≤ i + step * r
          → i < n
          → ((r : ℕ)
              → r < fuel
              → n ≤ i + step + step * r
              → Ends (for_loop step body fuel (i + step) n))
          → Ends (for_loop step body fuel (i + step) n)
      next zero more enough lt again = absurd (omega (arith, start i))
      next (suc r) more enough lt again = again r (omega arith) (omega (arith, shift i r))
