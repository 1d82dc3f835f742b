-- ===== src/Format/Print/Fuel.antt =====
-- The fuel of `vprintfmt`: a character of the format takes one unit, its end one, and the nested call
-- of `%e` eight.
use tp_prom.Prelude.{
  ℕ, zero, suc, ◌+◌, ◌-◌, ◌≤◌, ◌≡◌, inl, inr, refl, Option, none, some, List, [], ◌∷◌, ◌==◌, arith,
  length, >>=-eq, Bool-cases, ap, ◌∙◌,
}
use tp_prom.Format.Flags.{
  Arg, word, text, Spec, Reading, more, ends, undefined, next_char, Found, plain, scan,
}
use tp_prom.Format.Convert.{
  convert, codes, Out, ErrorCall, overflow, unknown, known, error_call, make_call, print_error,
  done,
}
use tp_prom.Format.Print.{vprintfmt, prefixed, resume, print}

-- The sequence ends inside the format.
pub scan_shorter :
    (spec : Spec) (reading : Reading) (fmt : List ℕ) (args : List Arg) {f : Found}
    → scan spec reading fmt args ≡ some f
    → length f.rest ≤ length fmt
unfolding scan
scan_shorter spec reading [] args e = ground arith
scan_shorter spec reading (c ∷ fmt) args {f} e =
    (elim (next_char spec reading c args)
        as (λ n. next_char spec reading c args ≡ n → length f.rest ≤ suc (length fmt)) [
          | more s r a ↦ λ h. omega (arith, scan_shorter s r fmt a {f = f} (rw (h, scan) at e))
          | ends s ↦ λ h. ground arith
          | undefined ↦ λ h. ground arith
        ])
      refl

abbrev pub eight : ℕ → ℕ
eight f = suc (suc (suc (suc (suc (suc (suc (suc f)))))))

-- The nested calls of `%e`, with any two amounts of fuel that are enough.
pub nested_number :
    (f g err : ℕ)
    → vprintfmt (eight f) (codes "error %d") (word err ∷ [])
      ≡ vprintfmt (eight g) (codes "error %d") (word err ∷ [])
unfolding vprintfmt scan next_char convert resume
nested_number f g err = ground arith

pub nested_text :
    (f g : ℕ) (p : Option (List ℕ))
    → vprintfmt (eight f) (codes "%s") (text p ∷ [])
      ≡ vprintfmt (eight g) (codes "%s") (text p ∷ [])
unfolding vprintfmt scan next_char convert resume
nested_text f g p = refl

make_call_same :
    (f g : ℕ) (call : ErrorCall)
    → make_call (vprintfmt (eight f)) call ≡ make_call (vprintfmt (eight g)) call
make_call_same f g overflow = refl
make_call_same f g (unknown err) = nested_number f g err
make_call_same f g (known p) = nested_text f g (some p)

print_error_same :
    (f g : ℕ) (args : List Arg)
    → print_error (vprintfmt (eight f)) args ≡ print_error (vprintfmt (eight g)) args
unfolding print_error
print_error_same f g (word w ∷ args) = ap (done [] args) (make_call_same f g (error_call w))
print_error_same f g _ = refl

convert_same :
    (f g : ℕ) (found : Found)
    → convert (vprintfmt (eight f)) found ≡ convert (vprintfmt (eight g)) found
unfolding convert
convert_same f g found = rw (print_error_same f g found.args, convert)

resume_same :
    (f g : ℕ) (fmt : List ℕ) (found : Found) (o : Option Out)
    → ((s : List ℕ) (args : List Arg)
        → length s ≤ length fmt
        → vprintfmt f s args ≡ vprintfmt g s args)
    → length found.rest ≤ length fmt
    → resume (vprintfmt f) fmt found o ≡ resume (vprintfmt g) fmt found o
unfolding resume
resume_same f g fmt found none same p =
    ap (prefixed (b'%' ∷ [])) (same fmt found.args (omega arith))
resume_same f g fmt found (some none) same p = refl
resume_same f g fmt found (some (some (out, args))) same p =
    ap (prefixed out) (same found.rest args p)

vprintfmt_same :
    (f g : ℕ) (fmt : List ℕ) (args : List Arg)
    → length fmt ≤ f
    → length fmt ≤ g
    → vprintfmt (suc (eight f)) fmt args ≡ vprintfmt (suc (eight g)) fmt args
unfolding vprintfmt
vprintfmt_same f g [] args p q = refl
vprintfmt_same zero g (c ∷ fmt) args p q = absurd (omega arith)
vprintfmt_same (suc f) zero (c ∷ fmt) args p q = absurd (omega arith)
vprintfmt_same (suc f) (suc g) (c ∷ fmt) args p q = elim (Bool-cases (c == b'%')) [
  | inr plain_char ↦
      rw (plain_char, vprintfmt)
        (ap (prefixed (c ∷ [])) (vprintfmt_same f g fmt args (omega arith) (omega arith)))
  | inl escape ↦
      rw (escape, vprintfmt)
        (>>=-eq (scan plain none fmt args)
          (λ x. resume (vprintfmt (eight (suc f))) fmt x (convert (vprintfmt (eight (suc f))) x))
          (λ x. resume (vprintfmt (eight (suc g))) fmt x (convert (vprintfmt (eight (suc g))) x))
          (λ x e.
            ap (resume (vprintfmt (eight (suc f))) fmt x) (convert_same (suc f) (suc g) x)
            ∙ resume_same (eight (suc f)) (eight (suc g)) fmt x _
                (λ s a r. vprintfmt_same f g s a (omega arith) (omega arith))
                (scan_shorter plain none fmt args e)))
]

eight_add : (f : ℕ) → suc (eight f) ≡ f + 9
eight_add f = omega arith

-- Nine more units of fuel than the format has characters are enough: with any more, `vprintfmt`
-- gives the same.
pub vprintfmt_fuel :
    (fmt : List ℕ) (args : List Arg) (f : ℕ)
    → length fmt + 9 ≤ f
    → vprintfmt f fmt args ≡ print fmt args
unfolding print
vprintfmt_fuel fmt args f h =
    let more : f ≡ suc (eight (f - 9)) = omega arith in
    let enough : length fmt + 9 ≡ suc (eight (length fmt)) = omega arith in
    rw (more, enough) (vprintfmt_same (f - 9) (length fmt) fmt args (omega arith) (omega arith))
