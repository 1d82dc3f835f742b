-- ===== src/Console/Input/Tests.antt =====
-- Tests of getchar.
use tp_prom.Prelude.{ℕ, refl, true, [], ◌∷◌, ◌++◌, replicate, length-replicate, Returns, arith}
use tp_prom.Console.Buffer.{Cons}
use tp_prom.Console.Buffer.Queue.{IsValid}
use tp_prom.Console.Input.{Poll, IsGot, getchar, getchar_lem}

abbrev empty : Cons
empty = record { buf = replicate 512 0; rpos = 510; wpos = 510 }

empty-IsValid : IsValid empty
empty-IsValid = record {
  size = length-replicate {A = ℕ} 512 0;
  reads = omega arith;
  writes = omega arith;
}

-- A key that is let go, and then `h` on the serial line and `i` on the keyboard.
abbrev released : Poll
released = record { received = []; typed = 0 ∷ [] }

abbrev typed : Poll
typed = record { received = b'h' ∷ []; typed = b'i' ∷ [] }

getchar_lem_example :
    Returns
      (getchar true ((released ∷ []) ++ (typed ∷ released ∷ [])) empty)
      (IsGot b'h' (b'i' ∷ []) (released ∷ []))
getchar_lem_example =
    getchar_lem true (released ∷ []) typed (released ∷ []) empty b'h' (b'i' ∷ []) empty-IsValid refl
      (refl, tt) refl (λ e. absurd (omega (arith, e))) (omega arith)
