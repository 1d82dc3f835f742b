-- ===== src/Strings/Number.antt =====
-- lib/string.c: strtol. `val` is a `long` of 32 bits; `none` is also its overflow, which C does not
-- define.
pub mod RoundTrip
use tp_prom.Prelude.{
  ℕ, zero, suc, ◌+◌, ◌-◌, ◌*◌, ◌%◌, ◌^◌, ◌≤◌, ◌<◌, ◌≡◌, refl, Bool, true, false, ◌&&◌, ◌||◌, not,
  Option, none, some, List, [], ◌∷◌, ◌++◌, map, ltb, leb, ◌==◌, if◌then◌else◌, ◌>>=◌, arith, All,
}
use tp_prom.Prelude.Int.{ℤ, pos, signed32}

abbrev within : ℕ → ℕ → ℕ → Bool
within lo hi c = leb lo c && leb c hi

-- `none` is the `break` at what is no digit or letter.
pub digit_value : ℕ → Option ℕ
digit_value c =
    if within b'0' b'9' c
    then some (c - b'0')
    else if within b'a' b'z' c
    then some (c - b'a' + 10)
    else if within b'A' b'Z' c
    then some (c - b'A' + 10)
    else none

pub skip_blanks : List ℕ → Option (List ℕ)
skip_blanks [] = none
skip_blanks (c ∷ s) = if c == b' ' || c == b'\t' then skip_blanks s else some (c ∷ s)

-- The sign: `neg`, and the string behind it.
pub skip_sign : List ℕ → Option (Bool × List ℕ)
skip_sign [] = none
skip_sign (c ∷ s) =
    if c == b'+' then some (false, s) else if c == b'-' then some (true, s) else some (false, c ∷ s)

-- `s[1]` is read only behind a '0'.
abbrev hex_prefix : List ℕ → Option (Bool × List ℕ)
hex_prefix [] = none
hex_prefix (c ∷ s) = if c == b'x' then some (true, s) else some (false, s)

abbrev zero_prefix : ℕ → ℕ → List ℕ → Option (ℕ × List ℕ)
zero_prefix base c s = if base == 0 then some (8, s) else some (base, c ∷ s)

-- The base, and the string behind its prefix.
pub skip_prefix : ℕ → List ℕ → Option (ℕ × List ℕ)
skip_prefix base [] = none
skip_prefix base (c ∷ s) =
    if c == b'0'
    then (if base == 0 || base == 16
        then (do (hex, s') ← hex_prefix s; if hex then some (16, s') else zero_prefix base c s)
        else some (base, c ∷ s))
    else some (if base == 0 then 10 else base, c ∷ s)

-- The digits: `val` and the place where the loop stops.
pub read_digits : ℕ → ℕ → List ℕ → Option (ℕ × List ℕ)
read_digits base val [] = none
read_digits base val (c ∷ s) = elim (digit_value c) [
  | none ↦ some (val, c ∷ s)
  | some dig ↦
      if leb base dig
      then some (val, c ∷ s)
      else if ltb (val * base + dig) (2 ^ 31)
      then read_digits base (val * base + dig) s
      else none
]

abbrev negated : Bool → ℕ → ℕ
negated neg val = if neg then (2 ^ 32 - val) % 2 ^ 32 else val

-- The value, and `*endptr`.
pub strtol : List ℕ → ℕ → Option (ℤ × List ℕ)
strtol s base = do
  s₁ ← skip_blanks s
  (neg, s₂) ← skip_sign s₁
  (base', s₃) ← skip_prefix base s₂
  (val, rest) ← read_digits base' 0 s₃
  some (signed32 (negated neg val), rest)
