-- ===== src/Debug/Tests.antt =====
-- Tests of the search for debugging entries.
use tp_prom.Prelude.{ℕ, zero, suc, ◌≡◌, refl, some, List, [], ◌∷◌, Returns, arith}
use tp_prom.Prelude.Int.{pos}
use tp_prom.Debug.{Stab, stab_binsearch, search_loop, search_step, scan_back, probe, narrow, settle}
use tp_prom.Debug.Total.{InRegion, stab_binsearch_total}
use tp_prom.Debug.Invariant.{IsOrdered, Avoids}
use tp_prom.Debug.Correct.{Located, stab_binsearch-Located}

abbrev stab : ℕ → ℕ → Stab
stab type value = record { n_strx = 0; n_type = type; n_other = 0; n_desc = 0; n_value = value }

-- Two functions (N_FUN is 0x24), in order.
abbrev functions : List Stab
functions = stab 0x24 0x1000 ∷ stab 0x24 0x2000 ∷ []

functions-IsOrdered : IsOrdered functions 0x24 0 2
functions-IsOrdered zero zero a b c p q = absurd (omega arith)
functions-IsOrdered zero (suc zero) a b c p q = omega arith
functions-IsOrdered zero (suc (suc j)) a b c p q = absurd (omega arith)
functions-IsOrdered (suc i) zero a b c p q = absurd (omega arith)
functions-IsOrdered (suc i) (suc j) a b c p q = absurd (omega arith)

functions-Avoids : Avoids functions 0x24 0 2 0x1235
functions-Avoids zero a b p = λ e. absurd (omega (arith, e))
functions-Avoids (suc zero) a b p = λ e. absurd (omega (arith, e))
functions-Avoids (suc (suc i)) a b p = absurd (omega arith)

stab_binsearch_total_example : Returns (stab_binsearch functions 0 2 0x24 0x1234) (InRegion 0 2)
stab_binsearch_total_example =
    stab_binsearch_total functions 0 2 0x24 0x1234 (omega arith) (omega arith)

stab_binsearch-Located_example :
    Returns (stab_binsearch functions 0 2 0x24 0x1234) (Located functions 0x24 0 2 0x1234)
stab_binsearch-Located_example =
    stab_binsearch-Located functions 0 2 0x24 0x1234 (omega arith) (omega arith) functions-IsOrdered
      functions-Avoids (omega arith)

-- Entries at neighbouring addresses: the search for the first finds the second.
abbrev neighbours : List Stab
neighbours = stab 0x24 0x1000 ∷ stab 0x24 0x1001 ∷ []

neighbours_found :
    stab_binsearch neighbours 0 2 0x24 0x1000 ≡ some (record { left = pos 1; right = pos 1 })
unfolding stab_binsearch search_loop search_step scan_back probe narrow settle
neighbours_found = refl
