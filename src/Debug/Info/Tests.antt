-- ===== src/Debug/Info/Tests.antt =====
-- Tests of debuginfo_eip.
use tp_prom.Prelude.{
  ℕ, ◌+◌, ◌≡◌, refl, List, [], ◌∷◌, Returns, arith, Bool, true, not, ◌||◌, ltb, leb, ◌==◌, inl, inr,
}
use tp_prom.Prelude.Ranges.{holds_below, holds_below_lem}
use tp_prom.Debug.{Stab}
use tp_prom.Debug.Scan.{entry, Lacks}
use tp_prom.Debug.Info.{n_so, n_fun, n_sline, debuginfo_eip}
use tp_prom.Debug.Info.Total.{IsResult, debuginfo_eip_total}
use tp_prom.Debug.Info.Search.{IsSearchable}
use tp_prom.Debug.Info.Function.{IsFound, debuginfo_eip-IsFound}

abbrev stab : ℕ → ℕ → ℕ → ℕ → Stab
stab strx type desc value = record {
  n_strx = strx;
  n_type = type;
  n_other = 0;
  n_desc = desc;
  n_value = value;
}

-- A header, a source file, and a function of two lines in front of another.
abbrev table : List Stab
table =
    stab 0 0 0 0
    ∷ stab 1 0x64 0 0xf0100000
    ∷ stab 1 0x24 0 0xf0100040
    ∷ stab 0 0x44 5 0
    ∷ stab 0 0x44 6 8
    ∷ stab 3 0x24 0 0xf0100100
    ∷ []

abbrev strings : List ℕ
strings = 0 ∷ b'f' ∷ 0 ∷ b'g' ∷ 0 ∷ []

abbrev pair_test : ℕ → ℕ → ℕ → ℕ → Bool
pair_test type lo i j =
    ltb i lo
    || leb j i
    || not ((entry table i).n_type == type)
    || not ((entry table j).n_type == type)
    || leb (entry table i).n_value (entry table j).n_value

abbrev single_test : ℕ → ℕ → ℕ → ℕ → Bool
single_test type lo addr i =
    ltb i lo || not ((entry table i).n_type == type) || not ((entry table i).n_value == addr)

abbrev lacks_test : ℕ → ℕ → ℕ → Bool
lacks_test type lo i = ltb i lo || not ((entry table i).n_type == type)

table-IsSearchable :
    (type lo hi addr : ℕ)
    → holds_below hi (λ j. holds_below j (λ i. pair_test type lo i j)) ≡ true
    → holds_below hi (single_test type lo (addr + 1)) ≡ true
    → IsSearchable table type lo hi addr
table-IsSearchable type lo hi addr ordered apart = record {
  in_order = λ i j a b c t u.
      let e =
        holds_below_lem {bound = j} (λ i. pair_test type lo i j) b
          (holds_below_lem {bound = hi} (λ j. holds_below j (λ i. pair_test type lo i j)) c
            ordered) in
      ground (arith, e);
  avoids = λ i a b t e.
      let h = holds_below_lem {bound = hi} (single_test type lo (addr + 1)) b apart in
      ground (arith, h, e);
}

table-Lacks : (type lo hi : ℕ) → holds_below hi (lacks_test type lo) ≡ true → Lacks table type lo hi
table-Lacks type lo hi all i a b t =
    let h = holds_below_lem {bound = hi} (lacks_test type lo) b all in ground (arith, h, t)

debuginfo_eip_total_example : Returns (debuginfo_eip table strings 0xf0100049) (IsResult 0xf0100049)
debuginfo_eip_total_example =
    debuginfo_eip_total table strings 0xf0100049 (omega arith) (λ e. absurd (omega (arith, e)))
      (λ e. absurd (omega (arith, e))) (omega arith)

debuginfo_eip-IsFound_example :
    Returns (debuginfo_eip table strings 0xf0100049) (IsFound table strings 2 4)
unfolding holds_below
debuginfo_eip-IsFound_example =
    debuginfo_eip-IsFound table strings 0xf0100049 1 6 2 5 4 5 (omega arith) (omega arith) refl
      (table-IsSearchable n_so 0 6 0xf0100049 refl refl)
      (record {
        from = omega arith;
        before = omega arith;
        typed = refl;
        begins = omega arith;
        alone = table-Lacks n_so 2 6 refl;
        ends = inl refl;
      })
      (omega arith) (table-IsSearchable n_fun 1 6 0xf0100049 refl refl)
      (record {
        from = omega arith;
        before = omega arith;
        typed = refl;
        begins = omega arith;
        alone = table-Lacks n_fun 3 5 refl;
        ends = inr (omega arith, refl, omega arith);
      })
      (table-IsSearchable n_sline 2 5 9 refl refl)
      (record {
        from = omega arith;
        before = omega arith;
        typed = refl;
        begins = omega arith;
        alone = table-Lacks n_sline 5 5 refl;
        ends = inl refl;
      })
