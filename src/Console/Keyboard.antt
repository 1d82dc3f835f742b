-- ===== src/Console/Keyboard.antt =====
-- kern/console.c: the keyboard driver. `shift` is its static variable.
pub mod Tables
pub mod Modifiers
pub mod Characters
use Prim.Native.Nat.{bit_or, bit_and, bit_xor}
use Tables.{
  ctl, alt, capslock, shift_bit, e0esc, shiftcode, togglecode, normalmap, shiftmap, ctlmap,
}
use tp_prom.Prelude.{
  ℕ, ◌+◌, ◌-◌, ◌%◌, ◌==◌, leb, Bool, true, false, ◌&&◌, not, List, [], ◌∷◌, get_or, Option, none,
  some, if◌then◌else◌,
}
use tp_prom.Console.Buffer.{Cons, cons_intr}

-- What kbd_proc_data does: its result (`none` is -1), the next value of `shift` and whether it
-- resets the machine.
pub record Key : Type 0 where
  pub result : Option ℕ
  pub shift : ℕ
  pub reboots : Bool

abbrev pub key_del : ℕ
key_del = 0xe9

-- `charcode[shift & (CTL | SHIFT)]`
abbrev pub charcode : ℕ → List ℕ
charcode selected =
    if selected == 0 then normalmap else if selected == shift_bit then shiftmap else ctlmap

-- The exchange of upper and lower case under CAPSLOCK.
abbrev pub swap_case : ℕ → ℕ
swap_case c = if leb 97 c && leb c 122 then c - 32 else if leb 65 c && leb c 90 then c + 32 else c

-- `shift & ~bits`, of 32 bits.
abbrev pub clear : ℕ → ℕ → ℕ
clear shift bits = bit_and shift (0xffff_ffff - bits)

-- The part of kbd_proc_data behind the tests of `data`: a key is pressed.
unfoldable pub press_key : ℕ → ℕ → Key
press_key code before =
    let shift = bit_xor (bit_or before (shiftcode code)) (togglecode code) in
    let c₀ = get_or (charcode (bit_and shift (ctl + shift_bit))) code 0 in
    let c = if bit_and shift capslock == 0 then c₀ else swap_case c₀ in
    record {
      result = some c;
      shift = shift;
      reboots = bit_and shift (ctl + alt) == ctl + alt && c == key_del;
    }

-- The part of kbd_proc_data behind the read of `data`.
unfoldable pub read_data : ℕ → ℕ → Key
read_data code shift =
    if code == 0xe0
    then record { result = some 0; shift = bit_or shift e0esc; reboots = false }
    else if not (bit_and code 0x80 == 0)
    then (let released = if bit_and shift e0esc == 0 then bit_and code 0x7f else code in
        record {
          result = some 0;
          shift = clear shift (bit_or (shiftcode released) e0esc);
          reboots = false;
        })
    else if bit_and shift e0esc == 0
    then press_key code shift
    else press_key (bit_or code 0x80) (clear shift e0esc)

-- `stat` and `code` are the bytes that the ports KBSTATP and KBDATAP hold.
unfoldable pub kbd_proc_data : ℕ → ℕ → ℕ → Key
kbd_proc_data stat code shift =
    if bit_and stat 0x01 == 0
    then record { result = none; shift = shift; reboots = false }
    else if not (bit_and stat 0x20 == 0)
    then record { result = none; shift = shift; reboots = false }
    else read_data code shift

-- What kbd_proc_data returns, call after call until the first -1, for the bytes that the two ports
-- hold at the calls; with the next value of `shift`. Behind the list there is no data.
abbrev pub kbd_results : List (ℕ × ℕ) → ℕ → List ℕ × ℕ
kbd_results [] shift = ([], shift)
kbd_results ((stat, code) ∷ ports) shift =
    let key = kbd_proc_data stat code shift in
    let (results, last) = kbd_results ports key.shift in
    elim key.result [ none ↦ ([], key.shift) | some c ↦ (c ∷ results, last) ]

abbrev pub kbd_intr : List (ℕ × ℕ) → ℕ → Cons → ℕ × Cons
kbd_intr ports shift s =
    let (results, last) = kbd_results ports shift in (last, cons_intr results s)
