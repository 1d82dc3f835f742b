-- ===== src/Console/Tests.antt =====
-- Tests of the console.
use Prim.Native.Nat.{bit_xor}
use tp_prom.Prelude.{
  some, ℕ, ◌≡◌, refl, true, [], ◌∷◌, ◌++◌, get_or, length-replicate, replicate, if◌then◌else◌,
  arith,
}
use tp_prom.Format.Print.{print, vprintfmt}
use tp_prom.Console.Output.{cprintf, cprintf-put_text}
use tp_prom.Console.Buffer.{Cons, cons_intr, cons_getc}
use tp_prom.Console.Buffer.Queue.{
  IsValid, pending, characters, first, cons_getc-first, cons_intr_overflow,
}
use tp_prom.Console.Keyboard.{clear, read_data}
use tp_prom.Console.Keyboard.Tables.{shiftcode, togglecode, normalmap, ctlmap}
use tp_prom.Console.Keyboard.Modifiers.{after, tap, key, after-tap}
use tp_prom.Console.Keyboard.Characters.{
  character, letter, is_letter, is_reset, read_data-letter, read_data-reboots,
}
use tp_prom.Console.Screen.{Terminal, cons_putc}
use tp_prom.Console.Screen.Bounds.{OnScreen, cons_putc-OnScreen}
use tp_prom.Console.Screen.Text.{Written, put_text, put_text-Written}

abbrev empty : Cons
empty = record { buf = replicate 512 0; rpos = 510; wpos = 510 }

empty-IsValid : IsValid empty
empty-IsValid = record {
  size = length-replicate {A = ℕ} 512 0;
  reads = omega arith;
  writes = omega arith;
}

cons_getc-first_example :
    (IsValid (cons_getc true (104 ∷ 0 ∷ 105 ∷ []) (106 ∷ []) empty).1)
    × ((
      (cons_getc true (104 ∷ 0 ∷ 105 ∷ []) (106 ∷ []) empty).0,
      pending (cons_getc true (104 ∷ 0 ∷ 105 ∷ []) (106 ∷ []) empty).1,
    )
        ≡ first (
            pending empty
            ++ characters (if true then 104 ∷ 0 ∷ 105 ∷ [] else [])
            ++ characters (106 ∷ [])))
cons_getc-first_example =
    cons_getc-first true (104 ∷ 0 ∷ 105 ∷ []) (106 ∷ []) empty empty-IsValid (omega arith)

abbrev full : Cons
full = record { buf = replicate 512 97; rpos = 1; wpos = 0 }

full-IsValid : IsValid full
full-IsValid = record {
  size = length-replicate {A = ℕ} 512 97;
  reads = omega arith;
  writes = omega arith;
}

cons_intr_overflow_example : pending (cons_intr (98 ∷ []) full) ≡ []
cons_intr_overflow_example =
    cons_intr_overflow 98 full full-IsValid refl (λ e. absurd (omega (arith, e)))

-- The right control key, while SHIFT is down.
after-tap_example :
    after (tap true 0x1d) 1
    ≡ bit_xor (clear 1 (shiftcode (key true 0x1d))) (togglecode (key true 0x1d))
after-tap_example = after-tap true 0x1d 1 (omega arith) (omega arith)

-- The letter `a` under CAPSLOCK.
a-is_letter : is_letter 0x1e ≡ true
unfolding normalmap
a-is_letter = refl

read_data-letter_example : character (read_data 0x1e 8) ≡ letter 8 0x1e
read_data-letter_example = read_data-letter 0x1e 8 (omega arith) (omega arith) a-is_letter

read_data-reboots_example : (read_data 0x53 70).reboots ≡ is_reset 70 0x53
read_data-reboots_example = read_data-reboots 0x53 70 (omega arith) (omega arith)

abbrev last_row : Terminal
last_row = record {
  serial = [];
  parallel = [];
  crt_buf = replicate 2000 0x0741;
  crt_pos = 1925;
  cursor = 1925;
}

last_row-OnScreen : OnScreen last_row
last_row-OnScreen = record {
  size = length-replicate {A = ℕ} 2000 0x0741;
  position = omega arith;
  shown = refl;
}

cons_putc-OnScreen_example : OnScreen (cons_putc 9 last_row)
cons_putc-OnScreen_example = cons_putc-OnScreen 9 last_row last_row-OnScreen

put_text-Written_example : Written (79 ∷ 75 ∷ []) last_row (put_text (79 ∷ 75 ∷ []) last_row)
put_text-Written_example =
    put_text-Written (79 ∷ 75 ∷ []) last_row last_row-OnScreen
      ((omega arith, omega arith), ((omega arith, omega arith), tt)) (omega arith)

-- A format with no escape sequence.
printed_ok : print (79 ∷ 75 ∷ 10 ∷ []) [] ≡ some (79 ∷ 75 ∷ 10 ∷ [])
unfolding print vprintfmt
printed_ok = refl

cprintf-put_text_example :
    (cprintf (79 ∷ 75 ∷ 10 ∷ []) [] last_row ≡ some (3, put_text (79 ∷ 75 ∷ 10 ∷ []) last_row))
    × OnScreen (put_text (79 ∷ 75 ∷ 10 ∷ []) last_row)
cprintf-put_text_example =
    cprintf-put_text (79 ∷ 75 ∷ 10 ∷ []) [] (79 ∷ 75 ∷ 10 ∷ []) last_row printed_ok
      last_row-OnScreen

-- Ctrl-Home gives nothing: its entry in `ctlmap` stands at 0x97, not at 0xc7.
ctl_home :
    (get_or ctlmap 0xc7 0 ≡ 0) × (get_or ctlmap 0x97 0 ≡ 0xe0) × (get_or normalmap 0xc7 0 ≡ 0xe0)
unfolding ctlmap normalmap
ctl_home = (refl, refl, refl)
