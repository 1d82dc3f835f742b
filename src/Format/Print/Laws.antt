-- ===== src/Format/Print/Laws.antt =====
-- What `vprintfmt` prints for text and for the sequences that the kernel uses.
use mathlib.Core.List.{append_assoc, append-nil}
use tp_prom.Prelude.{
  ℕ, suc, ◌+◌, ◌-◌, ◌%◌, ◌^◌, ◌≤◌, ◌<◌, ◌≡◌, ◌≢◌, refl, Option, none, some, List, [], ◌∷◌, ◌++◌,
  map, ◌>>=◌, arith, length, replicate, All, ltb, Bool-cases, inl, inr, ne→==, ap, sym, ◌∙◌, ltb→lt,
  ltb→le, if◌then◌else◌, ◌==◌,
}
use native.Mathlib.Nat.{zero-add}
use tp_prom.Prelude.Int.{ℤ, pos, negsuc, signed32}
use tp_prom.Format.Flags.{Arg, word, next_char, scan}
use tp_prom.Format.Convert.{convert, codes}
use tp_prom.Format.Number.{digit_char, IsNumeral, printnum, printnum-IsNumeral}
use tp_prom.Format.Print.{vprintfmt, prefixed, resume, print}
use tp_prom.Strings.Number.{strtol}
use tp_prom.Strings.Number.RoundTrip.{strtol_unsigned, strtol_negative}

prefixed_append :
    (a b : List ℕ) (o : Option (List ℕ)) → prefixed (a ++ b) o ≡ prefixed a (prefixed b o)
prefixed_append a b none = refl
prefixed_append a b (some out) = ap some (append_assoc a b out)

prefixed_nil : (o : Option (List ℕ)) → prefixed [] o ≡ o
prefixed_nil none = refl
prefixed_nil (some out) = refl

pub suc-add : (a b : ℕ) → suc a + b ≡ suc (a + b)
suc-add a b = omega arith

-- Text with no '%' is printed as it is, whatever follows it.
pub vprintfmt_text :
    (s rest : List ℕ) (args : List Arg) (fuel : ℕ)
    → All (λ c. c ≢ b'%') s
    → vprintfmt (length s + fuel) (s ++ rest) args ≡ prefixed s (vprintfmt fuel rest args)
unfolding vprintfmt
vprintfmt_text [] rest args fuel h = rw (zero-add, prefixed_nil)
vprintfmt_text (c ∷ s) rest args fuel (h, t) =
    rw (suc-add (length s) fuel, ne→== c b'%' h, vprintfmt)
      (ap (prefixed (c ∷ [])) (vprintfmt_text s rest args fuel t)
        ∙ sym (prefixed_append (c ∷ []) s (vprintfmt fuel rest args)))

-- The default `%d` of a number that an `int` holds, and of a negative one.
module _ (w : ℕ) (rest : List ℕ) (args : List Arg) (fuel : ℕ) where
  pub decimal_pos :
      w < 2 ^ 31
      → vprintfmt (suc fuel) (b'%' ∷ b'd' ∷ rest) (word w ∷ args)
        ≡ (printnum w 10 (negsuc 0) b' ' >>= λ out. prefixed out (vprintfmt fuel rest args))
  unfolding vprintfmt scan next_char convert resume
  decimal_pos h = ground arith

  decimal_neg :
      2 ^ 31 ≤ w
      → w < 2 ^ 32
      → vprintfmt (suc fuel) (b'%' ∷ b'd' ∷ rest) (word w ∷ args) ≡ (
          printnum (2 ^ 32 - w) 10 (negsuc 0) b' ' >>= λ out.
          prefixed (b'-' ∷ out) (vprintfmt fuel rest args))
  unfolding vprintfmt scan next_char convert resume
  decimal_neg h k = ground arith

  pub hex8 :
      vprintfmt (suc fuel) (codes "%08x" ++ rest) (word w ∷ args)
      ≡ (printnum w 16 (pos 8) b'0' >>= λ out. prefixed out (vprintfmt fuel rest args))
  unfolding vprintfmt scan next_char convert resume
  hex8 = ground arith

end_of_format : (fuel : ℕ) (args : List Arg) → vprintfmt (suc fuel) [] args ≡ some []
unfolding vprintfmt
end_of_format fuel args = refl

-- With no width there is no padding.
plain_digits :
    (num base : ℕ)
    → 2 ≤ base
    → base ≤ 16
    → (ds : List ℕ) × IsNumeral base num ds
      × (printnum num base (negsuc 0) b' ' ≡ some (map digit_char ds))
plain_digits num base two sixteen =
    let (ds, numeral, e) = printnum-IsNumeral num base (negsuc 0) b' ' two sixteen in
    (ds, numeral, e ∙ ap some (no_padding ds))
  where
    no_padding :
        (ds : List ℕ) → replicate (0 - length ds) b' ' ++ map digit_char ds ≡ map digit_char ds
    no_padding ds = let none_left : 0 - length ds ≡ 0 = omega arith in rw none_left

-- The number below 2 ^ 32 with these bits, read up to the NUL; `none` for the least `int`.
abbrev pub read_back : ℕ → List ℕ → Option (ℤ × List ℕ)
read_back w rest = if w == 2 ^ 31 then none else some (signed32 w, 0 ∷ rest)

low_read :
    (w : ℕ) (rest : List ℕ)
    → w < 2 ^ 31
    → if◌then◌else◌ {A = Option (ℤ × List ℕ)} (ltb w (2 ^ 31)) (some (pos w, 0 ∷ rest)) none
      ≡ read_back w rest
low_read w rest h = ground arith

negative_read :
    (w : ℕ) (rest : List ℕ)
    → 2 ^ 31 ≤ w
    → w < 2 ^ 32
    → if◌then◌else◌ {A = Option (ℤ × List ℕ)}
        (ltb (2 ^ 32 - w) (2 ^ 31))
        (some (signed32 ((2 ^ 32 - (2 ^ 32 - w)) % 2 ^ 32), 0 ∷ rest))
        none
      ≡ read_back w rest
negative_read w rest h k =
    let same : (2 ^ 32 - (2 ^ 32 - w)) % 2 ^ 32 ≡ w = omega arith in rw same (ground arith)

-- `%d` prints every `int`, negative ones with a sign in front, so that `strtol` in base 10 reads it
-- back; of the least `int` alone it overflows, which C does not define, before it takes the sign.
pub strtol_decimal :
    (w : ℕ) (rest : List ℕ)
    → w < 2 ^ 32
    → (out : List ℕ) × (print (codes "%d") (word w ∷ []) ≡ some out)
      × (strtol (out ++ (0 ∷ rest)) 10 ≡ read_back w rest)
unfolding print
strtol_decimal w rest fits = elim (Bool-cases (ltb w (2 ^ 31))) [
  | inl low ↦
      let (ds, numeral, e) = plain_digits w 10 (omega arith) (omega arith) in
      (
        map digit_char ds,
        decimal_pos w [] [] 10 (ltb→lt _ _ low)
            ∙ (rw e (rw end_of_format (ap some (append-nil _)))),
        strtol_unsigned 10 (omega arith) (omega arith) w rest 0 ds numeral
            ∙ low_read w rest (ltb→lt _ _ low),
      )
  | inr high ↦
      let (ds, numeral, e) = plain_digits (2 ^ 32 - w) 10 (omega arith) (omega arith) in
      (
        b'-' ∷ map digit_char ds,
        decimal_neg w [] [] 10 (ground arith) fits
            ∙ (rw e (rw end_of_format (ap some (append-nil _)))),
        strtol_negative 10 (omega arith) (omega arith) (2 ^ 32 - w) rest ds numeral
            ∙ negative_read w rest (ltb→le w (2 ^ 31) high) fits,
      )
]
