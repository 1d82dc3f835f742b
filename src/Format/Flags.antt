-- ===== src/Format/Flags.antt =====
-- lib/printfmt.c: the flags, width and precision of a %-escape sequence, the `switch` of
-- `vprintfmt` up to the character that ends it.
use tp_prom.Prelude.{
  ℕ, ◌+◌, ◌-◌, ◌*◌, ◌^◌, Bool, true, false, ◌&&◌, Option, none, some, List, [], ◌∷◌, ltb, leb, ◌==◌,
  if◌then◌else◌,
}
use tp_prom.Prelude.Int.{ℤ, pos, negsuc, is_neg, signed32}

-- The arguments behind the format, on the 32-bit machine: an `int`, `long` or pointer is a word, a
-- `long long` is wide, and a `char *` is null or the bytes from it to the end of its object.
pub data Arg : Type 0 where
  word : ℕ → Arg
  wide : ℕ → Arg
  text : Option (List ℕ) → Arg

pub record Spec : Type 0 where
  pub padc : ℕ
  pub width : ℤ
  pub precision : ℤ
  pub lflag : ℕ
  pub altflag : Bool

abbrev pub plain : Spec
plain = record { padc = b' '; width = negsuc 0; precision = negsuc 0; lflag = 0; altflag = false }

-- `process_precision`
pub process_precision : Spec → ℤ → Spec
process_precision spec precision =
    if is_neg spec.width
    then record spec { width = precision; precision = negsuc 0 }
    else record spec { precision = precision }

-- Inside the loop over the digits of a number, what it has read so far; else `none`.
abbrev pub Reading : Type 0
Reading = Option ℕ

-- The spec when the digits end.
abbrev pub closed : Spec → Reading → Spec
closed spec none = spec
closed spec (some n) = process_precision spec (pos n)

-- After one character: the sequence goes on, or ends; or the program has no defined behaviour.
pub data Next : Type 0 where
  more : Spec → Reading → List Arg → Next
  ends : Spec → Next
  undefined : Next

abbrev pub is_digit : ℕ → Bool
is_digit c = leb b'0' c && leb c b'9'

-- `precision * 10 + ch - '0'` must fit an `int`.
read_digit : Spec → ℕ → ℕ → List Arg → Next
read_digit spec n c args =
    let n' = n * 10 + (c - b'0') in if ltb n' (2 ^ 31) then more spec (some n') args else undefined

star : Spec → List Arg → Next
star spec (word w ∷ args) = more (process_precision spec (signed32 w)) none args
star spec _ = undefined

-- The `switch`, outside the loop over digits.
flag_char : Spec → ℕ → List Arg → Next
flag_char spec c args =
    if c == b'-'
    then more (record spec { padc = b'-' }) none args
    else if c == b'0'
    then more (record spec { padc = b'0' }) none args
    else if is_digit c
    then read_digit spec 0 c args
    else if c == b'*'
    then star spec args
    else if c == b'.'
    then more (if is_neg spec.width then record spec { width = pos 0 } else spec) none args
    else if c == b'#'
    then more (record spec { altflag = true }) none args
    else if c == b'l'
    then more (record spec { lflag = spec.lflag + 1 }) none args
    else ends spec

unfoldable pub next_char : Spec → Reading → ℕ → List Arg → Next
unfolding read_digit star flag_char process_precision
next_char spec none c args = flag_char spec c args
next_char spec (some n) c args =
    if is_digit c
    then read_digit spec n c args
    else flag_char (process_precision spec (pos n)) c args

-- What the flags lead to: the character that ends them, and what lies behind it. At the end of the
-- format that is its NUL.
pub record Found : Type 0 where
  pub spec : Spec
  pub ch : ℕ
  pub rest : List ℕ
  pub args : List Arg

unfoldable pub scan : Spec → Reading → List ℕ → List Arg → Option Found
scan spec reading [] args =
    some (record { spec = closed spec reading; ch = 0; rest = []; args = args })
scan spec reading (c ∷ fmt) args = elim (next_char spec reading c args) [
  | more spec' reading' args' ↦ scan spec' reading' fmt args'
  | ends spec' ↦ some (record { spec = spec'; ch = c; rest = fmt; args = args })
  | undefined ↦ none
]
