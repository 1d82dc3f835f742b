-- ===== src/Readline/Plain.antt =====
-- readline on plain text.
use mathlib.Core.List.{append_assoc, append-nil}
use tp_prom.Prelude.{
  ℕ, ◌+◌, ◌%◌, ◌≤◌, ◌<◌, ◌≡◌, ◌≢◌, refl, subst, ap, sym, ◌∙◌, true, false, Option, some, List, [],
  ◌∷◌, ◌++◌, map, length, length-append, All, arith,
}
use tp_prom.Prelude.Int.{ℤ, pos}
use tp_prom.Readline.{buffer_length, readline}
use tp_prom.Readline.Edit.{Reads, readline-Reads, is_erasing, is_adding, edited, ends, line_of}

-- A printable character that is not the delete character.
abbrev pub IsPlain : ℕ → Type 0
IsPlain c = (32 ≤ c) × (c < 256) × (c ≢ 127)

typed :
    (c : ℕ) (text : List ℕ)
    → IsPlain c
    → length text < 1023
    → (edited c text ≡ text ++ (c ∷ [])) × (ends c text ≡ false)
typed c text (low, high, ne) room =
    let erasing : is_erasing c text ≡ false = ground arith in
    let adding : is_adding c text ≡ true = ground arith in
    let byte : c % 256 ≡ c = omega arith in rw (erasing, adding, byte) (refl, refl)

typed_line :
    (cs : List ℕ) (text : List ℕ) (rest : List ℤ)
    → All IsPlain cs
    → length text + length cs < 1024
    → line_of (map pos cs ++ (pos 10 ∷ rest)) text ≡ some (text ++ cs)
typed_line [] text rest plain room = ap some (sym (append-nil text))
typed_line (c ∷ cs) text rest (p, plain) room =
    let (added, goes_on) = typed c text p (omega (arith, room)) in
    rw (goes_on, added)
      (typed_line cs (text ++ (c ∷ [])) rest plain
          (omega (arith, room, length-append text (c ∷ [])))
        ∙ ap some (append_assoc text (c ∷ []) cs))

-- When plain text (codes 32 to 255, and not 127) of at most 1023 characters is typed, and then a
-- new line, readline returns its buffer of 1024 bytes with this text and a NUL behind it, whatever
-- follows.
pub readline_plain :
    (buf : List ℕ) (prompt : Option (List ℕ)) (text : List ℕ) (rest : List ℤ)
    → length buf ≡ buffer_length
    → All IsPlain text
    → length text < buffer_length
    → Reads (some text) (readline buf prompt (map pos text ++ (pos 10 ∷ rest)))
readline_plain buf prompt text rest size plain room =
    subst (λ o. Reads o (readline buf prompt (map pos text ++ (pos 10 ∷ rest))))
      (typed_line text [] rest plain (omega (arith, room)))
      (readline-Reads buf prompt (map pos text ++ (pos 10 ∷ rest)) size)
