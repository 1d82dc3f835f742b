-- ===== src/Readline/Tests.antt =====
-- Tests of readline.
use tp_prom.Prelude.{ℕ, ◌≡◌, refl, none, some, List, [], ◌∷◌, length-replicate, replicate}
use tp_prom.Prelude.Int.{ℤ, pos}
use tp_prom.Readline.{readline}
use tp_prom.Readline.Edit.{Reads, line_of, readline-Reads}

abbrev typed : List ℤ
typed = pos 104 ∷ pos 105 ∷ pos 8 ∷ pos 111 ∷ pos 10 ∷ []

-- "hi", a backspace and "o".
edited_line : line_of typed [] ≡ some (104 ∷ 111 ∷ [])
edited_line = refl

readline-Reads_example : Reads (line_of typed []) (readline (replicate 1024 0) none typed)
readline-Reads_example =
    readline-Reads (replicate 1024 0) none typed (length-replicate {A = ℕ} 1024 0)
