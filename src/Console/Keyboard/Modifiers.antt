-- ===== src/Console/Keyboard/Modifiers.antt =====
-- The state of the modifier keys under key presses and releases. A byte and a state have few
-- values, so that the facts hold by evaluation of all of them.
use Prim.Native.Nat.{bit_xor}
use tp_prom.Prelude.{
  ℕ, ◌+◌, ◌==◌, ◌≡◌, ◌<◌, refl, ==→eq, Bool, true, false, List, [], ◌∷◌, if◌then◌else◌,
}
use tp_prom.Prelude.Ranges.{holds_below, holds_below_lem}
use tp_prom.Console.Keyboard.{clear, press_key, read_data}
use tp_prom.Console.Keyboard.Tables.{shiftcode, togglecode, normalmap, shiftmap, ctlmap}

pub everywhere :
    (m n : ℕ) (p : ℕ → ℕ → Bool) (s c : ℕ)
    → holds_below m (λ s. holds_below n (p s)) ≡ true
    → s < m
    → c < n
    → p s c ≡ true
everywhere m n p s c all hs hc =
    holds_below_lem (p s) hc (holds_below_lem (λ s. holds_below n (p s)) hs all)

-- The state after a sequence of bytes from the keyboard.
abbrev pub after : List ℕ → ℕ → ℕ
after [] shift = shift
after (c ∷ cs) shift = after cs (read_data c shift).shift

-- A key is pressed and released, with the prefix 0xE0 or without it.
abbrev pub tap : Bool → ℕ → List ℕ
tap true code = 0xe0 ∷ code ∷ 0xe0 ∷ (code + 128) ∷ []
tap false code = code ∷ (code + 128) ∷ []

abbrev pub key : Bool → ℕ → ℕ
key escaped code = if escaped then code + 128 else code

abbrev tap_effect : Bool → ℕ → ℕ → Bool
tap_effect escaped s c =
    after (tap escaped c) s
    == bit_xor (clear s (shiftcode (key escaped c))) (togglecode (key escaped c))

taps : (escaped : Bool) → holds_below 64 (λ s. holds_below 96 (tap_effect escaped s)) ≡ true
unfolding read_data press_key holds_below shiftcode togglecode normalmap shiftmap ctlmap
taps true = refl
taps false = refl

-- A key that is pressed and released while no escape is pending leaves its modifier up and its lock
-- turned over; all else is as before. The keys are those with a code below 0x60, with the prefix
-- 0xE0 or without it.
pub after-tap :
    (escaped : Bool) (code shift : ℕ)
    → code < 0x60
    → shift < 64
    → after (tap escaped code) shift
      ≡ bit_xor (clear shift (shiftcode (key escaped code))) (togglecode (key escaped code))
after-tap escaped code shift hc hs =
    ==→eq _ _ (everywhere 64 96 (tap_effect escaped) shift code (taps escaped) hs hc)
