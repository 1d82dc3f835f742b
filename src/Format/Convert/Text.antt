-- ===== src/Format/Convert/Text.antt =====
-- `%s`: what is printed for a string, with its width and precision.
use tp_prom.Prelude.{
  ℕ, ◌-◌, ◌^◌, ◌≤◌, ◌<◌, List, [], ◌++◌, map, ◌==◌, if◌then◌else◌, length, take, replicate,
}
use tp_prom.Prelude.Int.{ℤ, pos, negsuc, pos_part, neg_part}
use tp_prom.Strings.Scan.{NoNul}
use tp_prom.Format.Flags.{Spec}
use tp_prom.Format.Convert.{shown}

-- The characters of the string that the precision lets through; a negative one is no limit.
abbrev pub limited : ℤ → List ℕ → List ℕ
limited (pos n) s = take n s
limited (negsuc n) s = s

abbrev blanks_left : Spec → ℕ → List ℕ
blanks_left spec n = if spec.padc == b'-' then [] else replicate (pos_part spec.width - n) spec.padc

abbrev blanks_right : Spec → ℕ → List ℕ
blanks_right spec n = if spec.padc == b'-' then replicate (pos_part spec.width - n) b' ' else []

-- The string with padding on its left, or on its right after a `-` flag, up to the width.
abbrev pub padded : Spec → List ℕ → List ℕ
padded spec s =
    let body = limited spec.precision s in
    blanks_left spec (length body)
    ++ (map (shown spec.altflag) body ++ blanks_right spec (length body))

-- A precision as an `int`, of a string whose length is one.
abbrev IsInt : ℤ → Type 0
IsInt a = (pos_part a < 2 ^ 31) × (neg_part a ≤ 2 ^ 31)

module _ (spec : Spec) (s rest : List ℕ) (str : NoNul s) where
  body : List ℕ
  body = limited spec.precision s

  out : List ℕ
  unfolding body
  out = map (shown spec.altflag) body
