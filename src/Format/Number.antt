-- ===== src/Format/Number.antt =====
-- lib/printfmt.c: printnum, and what it prints.
use tp_prom.Prelude.{
  ℕ, zero, suc, ◌+◌, ◌-◌, ◌*◌, ◌/◌, ◌%◌, ◌≤◌, ◌<◌, ◌≡◌, ◌≢◌, refl, Option, none, some, List, [],
  ◌∷◌, ◌++◌, map, ltb, if◌then◌else◌, ◌>>=◌, arith, length, get_or, replicate, All, Bool-cases, inl,
  inr, length-append, ltb→lt, lt→ltb, ◌∙◌, ap,
}
use mathlib.Core.List.{map-append, append_assoc}
use native.Mathlib.Nat.{mod-eq_of_lt}
use tp_prom.Prelude.Int.{ℤ, pos, negsuc, pos_part, pred}

-- "0123456789abcdef"
abbrev pub digits : List ℕ
digits =
    b'0' ∷ b'1' ∷ b'2' ∷ b'3' ∷ b'4' ∷ b'5' ∷ b'6' ∷ b'7' ∷ b'8' ∷ b'9' ∷ b'a' ∷ b'b' ∷ b'c' ∷ b'd'
    ∷ b'e' ∷ b'f' ∷ []

abbrev pub digit_char : ℕ → ℕ
digit_char d = get_or digits d 0

-- `while (--width > 0) putch(padc)`
abbrev pub padding : ℤ → ℕ → List ℕ
padding width padc = replicate (pos_part width - 1) padc

-- `fuel` bounds the depth of the recursion; `none` is a recursion that goes on.
unfoldable pub print_digits : ℕ → ℕ → ℕ → ℤ → ℕ → Option (List ℕ)
print_digits zero num base width padc =
    if ltb num base then some (padding width padc ++ (digit_char (num % base) ∷ [])) else none
print_digits (suc fuel) num base width padc =
    let deeper = print_digits fuel (num / base) base (pred width) padc in
    let before = if ltb num base then some (padding width padc) else deeper in
    (do front ← before; some (front ++ (digit_char (num % base) ∷ [])))

-- The depth is the number of digits, which is not above the number.
unfoldable pub printnum : ℕ → ℕ → ℤ → ℕ → Option (List ℕ)
printnum num base width padc = print_digits num num base width padc

-- The number that digits spell, the most significant first.
abbrev pub value_from : ℕ → ℕ → List ℕ → ℕ
value_from base n [] = n
value_from base n (d ∷ ds) = value_from base (n * base + d) ds

abbrev pub value : ℕ → List ℕ → ℕ
value base ds = value_from base 0 ds

-- The first digit is the number itself, or it is no zero.
abbrev pub Leads : ℕ → ℕ → List ℕ → Type 0
Leads base num [] = ⊥
Leads base num (d ∷ rest) = (num < base → rest ≡ []) × (base ≤ num → d ≢ 0)

-- The digits of a number in a base, with no zero in front.
pub record IsNumeral (base num : ℕ) (ds : List ℕ) : Type 0 where
  pub exact : value base ds ≡ num
  pub in_base : All (λ d. d < base) ds
  pub leads : Leads base num ds

value_from-snoc :
    (base n d : ℕ) (ds : List ℕ)
    → value_from base n (ds ++ (d ∷ [])) ≡ value_from base n ds * base + d
value_from-snoc base n d [] = refl
value_from-snoc base n d (x ∷ ds) = value_from-snoc base (n * base + x) d ds

All-snoc {ℓ} :
    {A : Type ℓ} (P : A → Type 0) (xs : List A) (x : A) → All P xs → P x → All P (xs ++ (x ∷ []))
All-snoc P [] x h p = (p, tt)
All-snoc P (y ∷ xs) x (h, t) p = (h, All-snoc P xs x t p)

pos_part-pred : (w : ℤ) → pos_part (pred w) ≡ pos_part w - 1
pos_part-pred (pos zero) = omega arith
pos_part-pred (pos (suc n)) = omega arith
pos_part-pred (negsuc n) = omega arith

one_digit : (base num : ℕ) → num < base → IsNumeral base num (num ∷ [])
one_digit base num h = record {
  exact = omega arith;
  in_base = (h, tt);
  leads = (λ _. refl, λ k. absurd (omega arith));
}

Leads-snoc :
    (base num x : ℕ) (ds : List ℕ)
    → 2 ≤ base
    → base ≤ num
    → value base ds ≡ num / base
    → Leads base (num / base) ds
    → Leads base num (ds ++ (x ∷ []))
Leads-snoc base num x [] two big e h = absurd h
Leads-snoc base num x (d ∷ []) two big e h = (λ k. absurd (omega arith), λ _. grind arith)
Leads-snoc base num x (d ∷ y ∷ r) two big e h = (λ k. absurd (omega arith), λ _. ground (arith, h))

module _ (base : ℕ) (two : 2 ≤ base) where
  -- One more digit behind those of the quotient.
  IsNumeral-snoc :
      (num : ℕ) (ds : List ℕ)
      → base ≤ num
      → IsNumeral base (num / base) ds
      → IsNumeral base num (ds ++ ((num % base) ∷ []))
  IsNumeral-snoc num ds big h = record {
    exact =
        value_from-snoc base 0 (num % base) ds
        ∙ ap (λ (q : ℕ). q * base + num % base) h.exact
        ∙ grind arith;
    in_base = All-snoc (λ d. d < base) ds (num % base) h.in_base (grind arith);
    leads = Leads-snoc base num (num % base) ds two big h.exact h.leads;
  }

  length-snoc : (ds : List ℕ) (x : ℕ) → length (ds ++ (x ∷ [])) ≡ length ds + 1
  length-snoc ds x = length-append ds (x ∷ [])

  print_last :
      (width : ℤ) (padc : ℕ) (ds : List ℕ) (d : ℕ)
      → (replicate (pos_part (pred width) - length ds) padc ++ map digit_char ds)
          ++ (digit_char d ∷ [])
        ≡ replicate (pos_part width - length (ds ++ (d ∷ []))) padc
          ++ map digit_char (ds ++ (d ∷ []))
  print_last width padc ds d =
      let shorter : pos_part (pred width) - length ds ≡ pos_part width - length (ds ++ (d ∷ [])) =
        omega (arith, length-snoc ds d, pos_part-pred width) in
      rw (map-append digit_char ds (d ∷ []), shorter)
        (append_assoc _ (map digit_char ds) (digit_char d ∷ []))

  module _ (padc : ℕ) where
    print_digits-lem :
        (fuel num : ℕ) (width : ℤ)
        → num ≤ fuel
        → (ds : List ℕ) × IsNumeral base num ds
          × (print_digits fuel num base width padc
              ≡ some (replicate (pos_part width - length ds) padc ++ map digit_char ds))
    unfolding print_digits
    print_digits-lem zero num width h = (
      num ∷ [],
      one_digit base num (omega arith),
      rw (lt→ltb num base (omega arith), mod-eq_of_lt {n = num} {m = base} (omega arith)),
    )
    print_digits-lem (suc fuel) num width h = elim (Bool-cases (ltb num base)) [
      | inl small ↦ (
        num ∷ [],
        one_digit base num (ltb→lt _ _ small),
        rw (small, mod-eq_of_lt (ltb→lt _ _ small)),
      )
      | inr large ↦
          let (ds, spelt, e) = print_digits-lem fuel (num / base) (pred width) (grind arith) in
          (
            ds ++ ((num % base) ∷ []),
            IsNumeral-snoc num ds (ground arith) spelt,
            rw (large, e) (ap some (print_last width padc ds (num % base))),
          )
    ]

-- In a base from 2 to 16 `printnum` ends, and prints the digits of the number, the most
-- significant first, with no zero in front of them, and before these the padding that makes up the
-- width.
pub printnum-IsNumeral :
    (num base : ℕ) (width : ℤ) (padc : ℕ)
    → 2 ≤ base
    → base ≤ 16
    → (ds : List ℕ) × IsNumeral base num ds
      × (printnum num base width padc
          ≡ some (replicate (pos_part width - length ds) padc ++ map digit_char ds))
unfolding printnum
printnum-IsNumeral num base width padc two sixteen =
    print_digits-lem base two padc num num width (omega arith)
