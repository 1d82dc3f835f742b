-- ===== src/Debug/Scan.antt =====
-- What the inner loop of `stab_binsearch` finds.
use tp_prom.Prelude.{
  ℕ, zero, suc, ◌+◌, ◌≤◌, ◌<◌, ◌≡◌, ◌≢◌, Option, none, some, List, arith, get_or, length, Returns,
  Returns_mono, refl, get_elem?-eq-get_or, dec_lt, ◌==◌, ==→eq, ==→ne, Bool-cases, inl, inr,
}
use tp_prom.Debug.{Stab, scan_back}

-- The entry at an index; every use stands under a bound on the index.
abbrev pub no_stab : Stab
no_stab = record { n_strx = 0; n_type = 0; n_other = 0; n_desc = 0; n_value = 0 }

abbrev pub entry : List Stab → ℕ → Stab
entry stabs i = get_or stabs i no_stab

-- No entry of stabs[lo..hi) has the type.
abbrev pub Lacks : List Stab → ℕ → ℕ → ℕ → Type 0
Lacks stabs type lo hi = (i : ℕ) → lo ≤ i → i < hi → (entry stabs i).n_type ≢ type

-- The last entry of stabs[lo..hi) that has the type, if any has.
abbrev pub IsLast : List Stab → ℕ → ℕ → ℕ → Option ℕ → Type 0
IsLast stabs type lo hi none = Lacks stabs type lo hi
IsLast stabs type lo hi (some m) =
    (lo ≤ m) × (m < hi) × ((entry stabs m).n_type ≡ type) × Lacks stabs type (m + 1) hi

module _ (stabs : List Stab) (type : ℕ) where
  Lacks-grow :
      (lo hi : ℕ)
      → (entry stabs hi).n_type ≢ type
      → Lacks stabs type lo hi
      → Lacks stabs type lo (suc hi)
  Lacks-grow lo hi ne h i p q = elim (dec_lt i hi) [
    | yes lt ↦ h i p lt
    | no ge ↦ let e : i ≡ hi = omega arith in rw e ne
  ]

  IsLast-grow :
      (lo hi : ℕ) (o : Option ℕ)
      → (entry stabs hi).n_type ≢ type
      → IsLast stabs type lo hi o
      → IsLast stabs type lo (suc hi) o
  IsLast-grow lo hi none ne h = Lacks-grow lo hi ne h
  IsLast-grow lo hi (some m) ne h = (h.0, omega arith, h.2, Lacks-grow (m + 1) hi ne h.3)

  pub scan_back-IsLast :
      (l k hi : ℕ)
      → hi ≡ l + k
      → hi ≤ length stabs
      → Returns (scan_back stabs type l k) (IsLast stabs type l hi)
  unfolding scan_back
  scan_back-IsLast l zero hi e fits = λ i p q. absurd (omega arith)
  scan_back-IsLast l (suc k) hi e fits =
      let e' : hi ≡ suc (l + k) = omega arith in
      let read = get_elem?-eq-get_or stabs (l + k) no_stab (omega arith) in
      rw (e', read)
        (elim (Bool-cases ((entry stabs (l + k)).n_type == type)) [
          | inl same ↦
              rw same (omega arith, omega arith, ==→eq _ _ same, λ i p q. absurd (omega arith))
          | inr other ↦ rw other (
              Returns_mono (scan_back stabs type l k)
                (λ o. IsLast-grow l (l + k) o (==→ne _ _ other))
                (scan_back-IsLast l k (l + k) refl (omega arith)))
        ])
