-- ===== src/Format/Tests.antt =====
-- Tests of formatted output.
use tp_prom.Prelude.{
  ℕ, suc, ◌+◌, ◌-◌, ◌%◌, ◌≡◌, refl, some, List, [], ◌∷◌, ◌++◌, map, take, drop, length, replicate,
  arith,
}
use tp_prom.Prelude.Int.{pos, pos_part}
use tp_prom.Strings.Number.{strtol}
use tp_prom.Format.Number.{printnum, digit_char, IsNumeral, printnum-IsNumeral}
use tp_prom.Format.Flags.{word}
use tp_prom.Format.Convert.{codes}
use tp_prom.Format.Print.{vprintfmt, print}
use tp_prom.Format.Print.Laws.{read_back, strtol_decimal}
use tp_prom.Format.Buffer.{vsnprintf, vsnprintf_lem}

printnum-IsNumeral_example :
    (ds : List ℕ) × IsNumeral 10 1234 ds
    × (printnum 1234 10 (pos 6) b'0'
        ≡ some (replicate (pos_part (pos 6) - length ds) b'0' ++ map digit_char ds))
printnum-IsNumeral_example = printnum-IsNumeral 1234 10 (pos 6) b'0' (omega arith) (omega arith)

strtol_decimal_example :
    (out : List ℕ) × (print (codes "%d") (word 4294967254 ∷ []) ≡ some out)
    × (strtol (out ++ (0 ∷ [])) 10 ≡ read_back 4294967254 [])
strtol_decimal_example = strtol_decimal 4294967254 [] (omega arith)

-- A format with no escape sequence prints itself.
printed_text : print (b'j' ∷ b'o' ∷ b's' ∷ []) [] ≡ some (b'j' ∷ b'o' ∷ b's' ∷ [])
unfolding print vprintfmt
printed_text = refl

vsnprintf_example :
    let front = take 2 (map (λ c. c % 256) (b'j' ∷ b'o' ∷ b's' ∷ [])) in
    vsnprintf (some (replicate 4 1)) (pos (suc 2)) (b'j' ∷ b'o' ∷ b's' ∷ []) []
    ≡ some (pos 3, some (front ++ (0 ∷ drop (length front + 1) (replicate 4 1))))
vsnprintf_example =
    vsnprintf_lem (replicate 4 1) 2 (omega arith) (b'j' ∷ b'o' ∷ b's' ∷ []) []
      (b'j' ∷ b'o' ∷ b's' ∷ []) printed_text
