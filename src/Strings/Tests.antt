-- ===== src/Strings/Tests.antt =====
-- Tests of the string functions.
use tp_prom.Prelude.{
  min, take, drop, replicate, length, ℕ, suc, ◌+◌, ◌%◌, ◌≡◌, refl, some, List, [], ◌∷◌, ◌++◌, arith,
}
use tp_prom.Prelude.Int.{ℤ, pos}
use tp_prom.Strings.Scan.{c_string, NoNul}
use tp_prom.Strings.Copy.{strlcpy, strlcpy_lem}
use tp_prom.Strings.Compare.{strcmp, sign, lexicographic, strcmp-lexicographic}
use tp_prom.Strings.Memory.{Mem, Moved, memmove, memmove-Moved}
use tp_prom.Strings.Portable.{portable_memmove, portable_memmove-memmove}
use tp_prom.Strings.Number.{strtol}
use tp_prom.Strings.Number.RoundTrip.{strtol-printnum}
use tp_prom.Format.Number.{printnum, print_digits}

-- Each cell holds the low byte of its address.
abbrev cells : Mem
cells a = a % 256

abbrev jos : List ℕ
jos = b'J' ∷ b'O' ∷ b'S' ∷ []

abbrev jet : List ℕ
jet = b'J' ∷ b'E' ∷ b'T' ∷ []

jos-NoNul : NoNul jos
jos-NoNul = (
  λ e. absurd (omega (arith, e)),
  (λ e. absurd (omega (arith, e)), (λ e. absurd (omega (arith, e)), tt)),
)

jet-NoNul : NoNul jet
jet-NoNul = (
  λ e. absurd (omega (arith, e)),
  (λ e. absurd (omega (arith, e)), (λ e. absurd (omega (arith, e)), tt)),
)

memmove-Moved_example : Moved 6 5 4 cells (memmove 6 5 4 cells)
memmove-Moved_example = memmove-Moved 6 5 4 cells

strlcpy_example :
    strlcpy (replicate 5 1) (c_string jos []) (suc 2)
    ≡ some (take 2 jos ++ (0 ∷ drop (min 2 (length jos) + 1) (replicate 5 1)), min 2 (length jos))
strlcpy_example = strlcpy_lem (replicate 5 1) jos [] 2 jos-NoNul (omega arith)

strcmp-lexicographic_example :
    (r : ℤ) × (strcmp (c_string jos []) (c_string jet []) ≡ some r)
    × (sign r ≡ lexicographic jos jet)
strcmp-lexicographic_example = strcmp-lexicographic jos jet [] [] jos-NoNul jet-NoNul

-- 255 in base 16.
printed_255 : printnum 255 16 (pos 4) b' ' ≡ some (b' ' ∷ b' ' ∷ b'f' ∷ b'f' ∷ [])
unfolding printnum print_digits
printed_255 = refl

strtol-printnum_example :
    strtol ((b' ' ∷ b' ' ∷ b'f' ∷ b'f' ∷ []) ++ (0 ∷ [])) 16 ≡ some (pos 255, 0 ∷ [])
strtol-printnum_example =
    strtol-printnum 255 16 (pos 4) [] (b' ' ∷ b' ' ∷ b'f' ∷ b'f' ∷ []) (omega arith) (omega arith)
      printed_255

portable_memmove-memmove_example :
    portable_memmove 0x1002 0x1000 8 cells 0x1005 ≡ memmove 0x1002 0x1000 8 cells 0x1005
portable_memmove-memmove_example = portable_memmove-memmove 0x1002 0x1000 8 cells 0x1005
