-- ===== src/Console/Keyboard/Characters.antt =====
-- The characters that keys give, and the combination of keys that resets the machine.
use Prim.Native.Nat.{bit_and}
use tp_prom.Prelude.{
  ℕ, ◌-◌, ◌==◌, ◌≡◌, ◌<◌, inl, inr, refl, sym, subst, ◌∙◌, leb, ==→eq, Bool-cases, Bool, true,
  false, ◌&&◌, ◌||◌, not, get_or, none, some, if◌then◌else◌,
}
use tp_prom.Prelude.Ranges.{holds_below}
use tp_prom.Console.Keyboard.{Key, press_key, read_data}
use tp_prom.Console.Keyboard.Modifiers.{everywhere}
use tp_prom.Console.Keyboard.Tables.{
  ctl, alt, shift_bit, capslock, e0esc, shiftcode, togglecode, normalmap, shiftmap, ctlmap,
}

-- Whether a flag is set in the state.
abbrev pub has : ℕ → ℕ → Bool
has flag shift = not (bit_and shift flag == 0)

-- The value of a key's result, and 0 for none.
abbrev pub character : Key → ℕ
character k = elim k.result [ none ↦ 0 | some c ↦ c ]

-- Whether the key gives a lower-case letter when no modifier is down.
abbrev pub is_letter : ℕ → Bool
is_letter code = leb 97 (get_or normalmap code 0) && leb (get_or normalmap code 0) 122

-- The letter in upper case if exactly one of SHIFT and CAPSLOCK is in force, else in lower case;
-- with CTL the control character of the letter.
abbrev pub letter : ℕ → ℕ → ℕ
letter shift code =
    let lower = get_or normalmap code 0 in
    if has ctl shift
    then lower - 96
    else if has shift_bit shift
    then (if has capslock shift then lower else lower - 32)
    else (if has capslock shift then lower - 32 else lower)

abbrev letter_ok : ℕ → ℕ → Bool
letter_ok s c = not (is_letter c) || character (read_data c s) == letter s c

letters : holds_below 64 (λ s. holds_below 128 (letter_ok s)) ≡ true
unfolding read_data press_key holds_below shiftcode togglecode normalmap shiftmap ctlmap
letters = refl

-- A letter key (with a code below 0x80) that is pressed while no escape is pending gives its
-- control character under CTL, else its letter, in upper case if exactly one of SHIFT and CAPSLOCK
-- is in force.
pub read_data-letter :
    (code shift : ℕ)
    → code < 128
    → shift < 64
    → is_letter code ≡ true
    → character (read_data code shift) ≡ letter shift code
read_data-letter code shift hc hs h =
    let ok : letter_ok shift code ≡ true = everywhere 64 128 letter_ok shift code letters hs hc in
    ==→eq _ _
      (subst (λ b. (not b || character (read_data code shift) == letter shift code) ≡ true) h ok)

-- Del after the escape, with CTL and ALT down.
abbrev pub is_reset : ℕ → ℕ → Bool
is_reset shift code = code == 0x53 && (has e0esc shift && (has ctl shift && has alt shift))

abbrev reset_ok : ℕ → ℕ → Bool
reset_ok s c = if is_reset s c then (read_data c s).reboots else not (read_data c s).reboots

resets : holds_below 128 (λ s. holds_below 256 (reset_ok s)) ≡ true
unfolding read_data press_key holds_below shiftcode togglecode normalmap shiftmap ctlmap
resets = refl

not-true : {b : Bool} → not b ≡ true → b ≡ false
not-true {b = true} h = sym h
not-true {b = false} h = refl

-- In a state of seven bits, a byte from the keyboard resets the machine exactly if it is the key
-- Del, an escape is pending, and CTL and ALT are down.
pub read_data-reboots :
    (code shift : ℕ)
    → code < 256
    → shift < 128
    → (read_data code shift).reboots ≡ is_reset shift code
read_data-reboots code shift hc hs =
    let ok : reset_ok shift code ≡ true = everywhere 128 256 reset_ok shift code resets hs hc in
    elim (Bool-cases (is_reset shift code)) [
      | inl e ↦
          subst
            (λ b.
              (if b then (read_data code shift).reboots else not (read_data code shift).reboots)
              ≡ true)
            e ok
          ∙ sym e
      | inr e ↦
          not-true (
            subst
              (λ b.
                (if b then (read_data code shift).reboots else not (read_data code shift).reboots)
                ≡ true)
              e ok)
          ∙ sym e
    ]
