-- ===== src/Format/Print/Hex.antt =====
-- `%08x`, with which the monitor prints addresses.
use native.Mathlib.Nat.{pow-suc}
use tp_prom.Prelude.{
  ℕ, zero, suc, ◌+◌, ◌-◌, ◌*◌, ◌^◌, ◌≤◌, ◌<◌, ◌≡◌, ◌≢◌, refl, List, [], ◌∷◌, ◌++◌, map, arith,
  length, replicate, All, length-append, length-replicate, ap, ◌∙◌, dec_lt,
}
use tp_prom.Prelude.Int.{pos}
use tp_prom.Format.Flags.{Arg, word}
use tp_prom.Format.Convert.{codes}
use tp_prom.Format.Number.{digit_char, value_from, value, IsNumeral, printnum-IsNumeral}
use tp_prom.Format.Print.{vprintfmt, prefixed}
use tp_prom.Format.Print.Laws.{hex8}

le-value_from : (n : ℕ) (ds : List ℕ) → n ≤ value_from 16 n ds
le-value_from n [] = omega arith
le-value_from n (d ∷ ds) = omega (arith, le-value_from (n * 16 + d) ds)

mul-pow-le-value_from : (k n : ℕ) (ds : List ℕ) → k ≤ length ds → n * 16 ^ k ≤ value_from 16 n ds
mul-pow-le-value_from zero n ds h = omega (arith, le-value_from n ds)
mul-pow-le-value_from (suc k) n [] h = absurd (omega arith)
mul-pow-le-value_from (suc k) n (d ∷ ds) h =
    let step : n * 16 ^ suc k ≡ n * 16 * 16 ^ k = rw pow-suc (grind arith) in
    rw step (grind (arith, mul-pow-le-value_from k (n * 16 + d) ds (omega arith)))

-- A 32-bit number has eight hexadecimal digits at most.
numeral_length : (w : ℕ) (ds : List ℕ) → w < 2 ^ 32 → IsNumeral 16 w ds → length ds ≤ 8
numeral_length w [] fits h = omega arith
numeral_length w (d ∷ ds) fits h = elim (dec_lt (length ds) 8) [
  | yes short ↦ short
  | no long ↦ elim (dec_lt w 16) [
    | yes low ↦ absurd (long (rw (h.leads.0 low) (omega arith)))
    | no high ↦
        let lead : d ≢ 0 = h.leads.1 (omega arith) in
        let large = mul-pow-le-value_from 8 (0 * 16 + d) ds (omega arith) in
        absurd (omega (arith, large, lead, h.exact))
  ]
]

value_from-zeros : (k : ℕ) (ds : List ℕ) → value 16 (replicate k 0 ++ ds) ≡ value 16 ds
value_from-zeros zero ds = refl
value_from-zeros (suc k) ds = value_from-zeros k ds

All-zeros : (k : ℕ) (ds : List ℕ) → All (λ d. d < 16) ds → All (λ d. d < 16) (replicate k 0 ++ ds)
All-zeros zero ds h = h
All-zeros (suc k) ds h = (omega arith, All-zeros k ds h)

map-zeros :
    (k : ℕ) (ds : List ℕ)
    → map digit_char (replicate k 0 ++ ds) ≡ replicate k b'0' ++ map digit_char ds
map-zeros zero ds = refl
map-zeros (suc k) ds = ap (◌∷◌ b'0') (map-zeros k ds)

-- `%08x` prints a 32-bit number as exactly eight hexadecimal digits, the most significant first,
-- and goes on with what follows it.
pub vprintfmt_hex8 :
    (w : ℕ) (rest : List ℕ) (args : List Arg) (fuel : ℕ)
    → w < 2 ^ 32
    → (ds : List ℕ) × (length ds ≡ 8)
      × All (λ d. d < 16) ds
      × (value 16 ds ≡ w)
      × (vprintfmt (suc fuel) (codes "%08x" ++ rest) (word w ∷ args)
          ≡ prefixed (map digit_char ds) (vprintfmt fuel rest args))
vprintfmt_hex8 w rest args fuel fits =
    let (ds, h, e) = printnum-IsNumeral w 16 (pos 8) b'0' (omega arith) (omega arith) in
    let k = 8 - length ds in
    let short = numeral_length w ds fits h in
    (
      replicate k 0 ++ ds,
      omega (arith, length-append (replicate k 0) ds, length-replicate {A = ℕ} k 0),
      All-zeros k ds h.in_base,
      value_from-zeros k ds ∙ h.exact,
      hex8 w rest args fuel ∙ rw (e, map-zeros k ds),
    )
