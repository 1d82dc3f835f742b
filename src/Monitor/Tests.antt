-- ===== src/Monitor/Tests.antt =====
-- Tests of the command interpreter.
use tp_prom.Prelude.{
  ℕ, zero, suc, ◌≡◌, ◌≢◌, inl, inr, Bool, true, false, refl, some, List, [], ◌∷◌, ◌++◌, ap, length,
  arith,
}
use tp_prom.Monitor.{
  call, too_many_arguments, runcmd, parse, maxargs, gobble, scan_past, take_argument, find_command,
}
use tp_prom.Strings.Compare.{strcmp}
use tp_prom.Monitor.Parse.{Piece, Separated, render, words}
use tp_prom.Monitor.Dispatch.{Runs, runcmd-Runs}
use tp_prom.Monitor.Parse.Arguments.{Finds, parse-words, runcmd_refuses}

-- " a\tbc" and a new line.
abbrev two : List Piece
two = ((32 ∷ []), (97 ∷ [])) ∷ ((9 ∷ []), (98 ∷ 99 ∷ [])) ∷ []

filled : {x : ℕ} {xs : List ℕ} → (x ∷ xs) ≢ []
filled e = absurd (omega (arith, ap length e))

two-Separated : Separated true two
two-Separated = (
  inl refl,
  (refl, tt),
  (filled, (refl, tt)),
  (inr filled, (refl, tt), (filled, (refl, (refl, tt))), tt),
)

parse-words_example :
    Finds (parse maxargs [] (render two ((10 ∷ []) ++ (0 ∷ 7 ∷ []))) []) (words two)
parse-words_example = parse-words two (10 ∷ []) (7 ∷ []) two-Separated (refl, tt) (omega arith)

runcmd-Runs_example : Runs (97 ∷ []) (words (((9 ∷ []), (98 ∷ 99 ∷ [])) ∷ [])) (
    runcmd (
      render
        (((32 ∷ []), (97 ∷ [])) ∷ ((9 ∷ []), (98 ∷ 99 ∷ [])) ∷ [])
        ((10 ∷ []) ++ (0 ∷ 7 ∷ []))))
runcmd-Runs_example =
    runcmd-Runs (32 ∷ []) (97 ∷ []) (((9 ∷ []), (98 ∷ 99 ∷ [])) ∷ []) (10 ∷ []) (7 ∷ [])
      two-Separated (refl, tt) (omega arith)

-- `n` words "a" with a blank before each.
abbrev many : ℕ → List Piece
many zero = []
many (suc n) = ((32 ∷ []), (97 ∷ [])) ∷ many n

many-Separated : (first : Bool) (n : ℕ) → Separated first (many n)
many-Separated first zero = tt
many-Separated first (suc n) =
    (inr filled, (refl, tt), (filled, (refl, tt)), many-Separated false n)

runcmd_refuses_example : runcmd (render (many 16) ([] ++ (0 ∷ []))) ≡ some too_many_arguments
runcmd_refuses_example = runcmd_refuses (many 16) [] [] (many-Separated true 16) tt (omega arith)

-- "help" runs the first command.
help_called :
    runcmd (b'h' ∷ b'e' ∷ b'l' ∷ b'p' ∷ 0 ∷ [])
    ≡ some (call 0 (0 ∷ []) (b'h' ∷ b'e' ∷ b'l' ∷ b'p' ∷ 0 ∷ []))
unfolding runcmd parse take_argument gobble scan_past find_command strcmp
help_called = refl
