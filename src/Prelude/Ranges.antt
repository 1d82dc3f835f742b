-- ===== src/Prelude/Ranges.antt =====
-- Facts by evaluation: a test of every number of a small range. The tactics take the bit operations
-- on variables for unknowns.
use mathlib.Core.Bool.{true≢false}
use tp_prom.Prelude.{
  ℕ, zero, suc, ◌<◌, ◌≡◌, Bool, true, false, if◌then◌else◌, Bool-cases, inl, inr, ℕ_discrete, arith,
  subst, sym,
}

unfoldable pub holds_below : ℕ → (ℕ → Bool) → Bool
holds_below zero test = true
holds_below (suc bound) test = if test bound then holds_below bound test else false

pub holds_below_lem :
    {bound x : ℕ} (test : ℕ → Bool) → x < bound → holds_below bound test ≡ true → test x ≡ true
unfolding holds_below
holds_below_lem {bound = zero} test small all = absurd (omega arith)
holds_below_lem {bound = suc bound} {x = x} test small all = elim (Bool-cases (test bound)) [
  | inl last ↦ elim (ℕ_discrete x bound) [
    | yes e ↦ subst (λ y. test y ≡ true) (sym e) last
    | no apart ↦ holds_below_lem {bound = bound} test (omega (arith, small, apart)) (rw last at all)
  ]
  | inr stops ↦ absurd (true≢false (sym (rw stops at all)))
]
