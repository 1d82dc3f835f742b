-- ===== src/Strings/Number/RoundTrip.antt =====
-- `strtol` on what `printnum` prints.
use tp_prom.Prelude.{
  ℕ, zero, suc, ◌+◌, ◌-◌, ◌*◌, ◌%◌, ◌^◌, ◌≤◌, ◌<◌, ◌≡◌, ◌≢◌, refl, Bool, true, false, ◌&&◌, not,
  none, some, List, [], ◌∷◌, ◌++◌, map, ◌==◌, arith, All, replicate, length, lt→leb, ne→==, ltb,
  lt→ltb, le→ltb, ltb→lt, ltb→le, Bool-cases, inl, inr, if◌then◌else◌,
}
use mathlib.Core.List.{append_assoc}
use tp_prom.Prelude.Int.{ℤ, pos, pos_part, signed32}
use tp_prom.Prelude.Ranges.{holds_below, holds_below_lem}
use tp_prom.Strings.Number.{digit_value, skip_blanks, skip_sign, skip_prefix, read_digits, strtol}
use tp_prom.Format.Number.{digit_char, value_from, IsNumeral, printnum, printnum-IsNumeral}

-- What a character of a numeral is, and what it is not.
reads_as : ℕ → Bool
reads_as d =
    let c = digit_char d in
    (elim (digit_value c) [ none ↦ false | some k ↦ k == d ])
    && not (c == b' ')
    && not (c == b'\t')
    && not (c == b'+')
    && not (c == b'-')
    && not (c == b'x')

record IsDigit (d c : ℕ) : Type 0 where
  reads : digit_value c ≡ some d
  no_blank : c ≢ b' '
  no_tab : c ≢ b'\t'
  no_plus : c ≢ b'+'
  no_minus : c ≢ b'-'
  no_x : c ≢ b'x'

digit_table : holds_below 16 reads_as ≡ true
unfolding holds_below reads_as digit_value
digit_table = refl

digit_char-IsDigit : (d : ℕ) → d < 16 → IsDigit d (digit_char d)
unfolding reads_as
digit_char-IsDigit d h = record {
  reads = ground (arith, holds_below_lem reads_as h digit_table);
  no_blank = ground (arith, holds_below_lem reads_as h digit_table);
  no_tab = ground (arith, holds_below_lem reads_as h digit_table);
  no_plus = ground (arith, holds_below_lem reads_as h digit_table);
  no_minus = ground (arith, holds_below_lem reads_as h digit_table);
  no_x = ground (arith, holds_below_lem reads_as h digit_table);
}

digit_value_nul : digit_value 0 ≡ none
unfolding digit_value
digit_value_nul = refl

module _ (base : ℕ) (two : 2 ≤ base) (sixteen : base ≤ 16) where
  le-value_from : (n : ℕ) (ds : List ℕ) → n ≤ value_from base n ds
  le-value_from n [] = omega arith
  le-value_from n (d ∷ ds) = grind (arith, le-value_from (n * base + d) ds)

  -- The digits are read, or `val` overflows.
  read_digits-value :
      (val : ℕ) (ds rest : List ℕ)
      → All (λ d. d < base) ds
      → val < 2 ^ 31
      → read_digits base val (map digit_char ds ++ (0 ∷ rest)) ≡ (
          if ltb (value_from base val ds) (2 ^ 31)
          then some (value_from base val ds, 0 ∷ rest)
          else none)
  unfolding read_digits
  read_digits-value val [] rest h fits =
      rw (digit_value_nul, read_digits, lt→ltb val (2 ^ 31) fits) refl
  read_digits-value val (d ∷ ds) rest (h, t) fits =
      let next = val * base + d in
      rw ((digit_char-IsDigit d (omega arith)).reads, read_digits)
        (rw (lt→leb base d h) (elim (Bool-cases (ltb next (2 ^ 31))) [
          | inl small ↦ rw small (read_digits-value next ds rest t (ltb→lt next (2 ^ 31) small))
          | inr large ↦
              let over : ltb (value_from base next ds) (2 ^ 31) ≡ false =
                le→ltb (value_from base next ds) (2 ^ 31)
                  (omega (arith, le-value_from next ds, ltb→le next (2 ^ 31) large)) in
              rw (large, over) refl
        ]))

  skip_blanks-lem :
      (k c : ℕ) (s : List ℕ)
      → c ≢ b' '
      → c ≢ b'\t'
      → skip_blanks (replicate k b' ' ++ (c ∷ s)) ≡ some (c ∷ s)
  unfolding skip_blanks
  skip_blanks-lem zero c s p q = ground arith
  skip_blanks-lem (suc k) c s p q = ground (arith, skip_blanks-lem k c s p q)

  skip_prefix-lem :
      (d : ℕ) (ds rest : List ℕ)
      → d < base
      → All (λ d. d < base) ds
      → skip_prefix base (digit_char d ∷ (map digit_char ds ++ (0 ∷ rest)))
        ≡ some (base, digit_char d ∷ (map digit_char ds ++ (0 ∷ rest)))
  unfolding skip_prefix
  skip_prefix-lem d [] rest h t = ground arith
  skip_prefix-lem d (x ∷ ds) rest h (hx, t) = ground (arith, digit_char-IsDigit x (omega arith))

  -- Behind the sign `strtol` reads the digits up to the NUL, but for an overflow.
  module _ (num : ℕ) (rest : List ℕ) where
    pub strtol_unsigned :
        (k : ℕ) (ds : List ℕ)
        → IsNumeral base num ds
        → strtol (replicate k b' ' ++ (map digit_char ds ++ (0 ∷ rest))) base
          ≡ (if ltb num (2 ^ 31) then some (pos num, 0 ∷ rest) else none)
    unfolding strtol skip_sign
    strtol_unsigned k [] h = absurd h.leads
    strtol_unsigned k (d ∷ ds) h =
        let digit = digit_char-IsDigit d (omega (arith, h.in_base)) in
        let tail = map digit_char ds ++ (0 ∷ rest) in
        rw (skip_blanks-lem k (digit_char d) tail digit.no_blank digit.no_tab) (
          rw (ne→== _ _ digit.no_plus, ne→== _ _ digit.no_minus)
            (rw (skip_prefix-lem d ds rest h.in_base.0 h.in_base.1) (
              rw (read_digits-value 0 (d ∷ ds) rest h.in_base (omega arith), h.exact)
                (ground arith))))

    pub strtol_negative :
        (ds : List ℕ)
        → IsNumeral base num ds
        → strtol (b'-' ∷ (map digit_char ds ++ (0 ∷ rest))) base
          ≡ (if ltb num (2 ^ 31) then some (signed32 ((2 ^ 32 - num) % 2 ^ 32), 0 ∷ rest) else none)
    unfolding strtol skip_blanks skip_sign
    strtol_negative [] h = absurd h.leads
    strtol_negative (d ∷ ds) h =
        rw (skip_prefix-lem d ds rest h.in_base.0 h.in_base.1)
          (rw (read_digits-value 0 (d ∷ ds) rest h.in_base (omega arith), h.exact) (ground arith))

-- What `printnum` prints of a number with any padding of blanks, in a base from 2 to 16, `strtol`
-- reads back: below 2 ^ 31 it returns the number and stops at the NUL behind it. From 2 ^ 31 on its
-- `long` overflows, which C does not define.
pub strtol-printnum :
    (num base : ℕ) (width : ℤ) (rest out : List ℕ)
    → 2 ≤ base
    → base ≤ 16
    → printnum num base width b' ' ≡ some out
    → strtol (out ++ (0 ∷ rest)) base
      ≡ (if ltb num (2 ^ 31) then some (pos num, 0 ∷ rest) else none)
strtol-printnum num base width rest out two sixteen printed =
    let (ds, numeral, e) = printnum-IsNumeral num base width b' ' two sixteen in
    let same : out ≡ replicate (pos_part width - length ds) b' ' ++ map digit_char ds = cc in
    rw
      (
        same,
        append_assoc (replicate (pos_part width - length ds) b' ') (map digit_char ds) (0 ∷ rest),
      )
      (strtol_unsigned base two sixteen num rest (pos_part width - length ds) ds numeral)
