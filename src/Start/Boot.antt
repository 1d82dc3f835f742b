-- ===== src/Start/Boot.antt =====
-- i386_init up to the monitor.
use tp_prom.Prelude.{
  ℕ, ◌-◌, ◌≡◌, refl, ap, ◌∙◌, Bool, true, false, Option, none, some, List, [], ◌∷◌, ◌++◌,
  if◌then◌else◌,
}
use tp_prom.Format.Flags.{word, text}
use tp_prom.Format.Flags.{scan, next_char}
use tp_prom.Format.Number.{printnum, print_digits}
use tp_prom.Format.Convert.{convert, print_string, pad_left, print_chars}
use tp_prom.Format.Print.{print, vprintfmt, resume}
use tp_prom.Strings.Memory.{Mem}
use tp_prom.Strings.Fill.{memset, Filled, memset-Filled}
use tp_prom.Clock.{Detected}
use tp_prom.Console.Screen.{Terminal}
use tp_prom.Console.Screen.Bounds.{OnScreen}
use tp_prom.Console.Screen.Text.{put_text, put_text-append}
use tp_prom.Console.Output.{cprintf-put_text}
use tp_prom.Start.{
  unfinished, banner, trailer, memory_line, no_serial_line, octal_line, report_serial, mem_init,
  Started, i386_init,
}
use tp_prom.Start.Once.{panic_first}

-- "6828 decimal is 15254 octal!\n"
abbrev pub octal_text : List ℕ
octal_text =
    b'6' ∷ b'8' ∷ b'2' ∷ b'8' ∷ b' ' ∷ b'd' ∷ b'e' ∷ b'c' ∷ b'i' ∷ b'm' ∷ b'a' ∷ b'l' ∷ b' ' ∷ b'i'
    ∷ b's' ∷ b' ' ∷ b'1' ∷ b'5' ∷ b'2' ∷ b'5' ∷ b'4' ∷ b' ' ∷ b'o' ∷ b'c' ∷ b't' ∷ b'a' ∷ b'l'
    ∷ b'!' ∷ 10 ∷ []

-- ">>>\n>>> kernel panic at kern/pmap.c:131: "
abbrev pub panic_text : List ℕ
panic_text =
    b'>' ∷ b'>' ∷ b'>' ∷ 10 ∷ b'>' ∷ b'>' ∷ b'>' ∷ b' ' ∷ b'k' ∷ b'e' ∷ b'r' ∷ b'n' ∷ b'e' ∷ b'l'
    ∷ b' ' ∷ b'p' ∷ b'a' ∷ b'n' ∷ b'i' ∷ b'c' ∷ b' ' ∷ b'a' ∷ b't' ∷ b' ' ∷ b'k' ∷ b'e' ∷ b'r'
    ∷ b'n' ∷ b'/' ∷ b'p' ∷ b'm' ∷ b'a' ∷ b'p' ∷ b'.' ∷ b'c' ∷ b':' ∷ b'1' ∷ b'3' ∷ b'1' ∷ b':'
    ∷ b' ' ∷ []

octal_printed : print octal_line (word 6828 ∷ []) ≡ some octal_text
unfolding print vprintfmt scan next_char resume convert printnum print_digits
octal_printed = refl

no_serial_printed : print no_serial_line [] ≡ some no_serial_line
unfolding print vprintfmt
no_serial_printed = refl

pub panic_printed :
    print banner (text (some (unfinished.file ++ (0 ∷ []))) ∷ word unfinished.line ∷ [])
    ≡ some panic_text
unfolding print vprintfmt scan next_char resume convert printnum print_digits print_string pad_left
    print_chars
panic_printed = refl

pub unfinished_printed : print unfinished.fmt [] ≡ some unfinished.fmt
unfolding print vprintfmt
unfinished_printed = refl

pub trailer_printed : print trailer [] ≡ some trailer
unfolding print vprintfmt
trailer_printed = refl

abbrev pub serial_text : Bool → List ℕ
serial_text serial_exists = if serial_exists then [] else no_serial_line

-- What the kernel has printed when it enters the monitor.
abbrev pub start_text : Bool → List ℕ → List ℕ
start_text serial_exists sizes =
    serial_text serial_exists
    ++ (octal_text ++ (sizes ++ (panic_text ++ unfinished.fmt ++ trailer)))

-- The section is zero, and the rest of the memory unchanged.
abbrev pub IsCleared : ℕ → ℕ → Mem → Mem → Type 0
IsCleared bss_start end = Filled bss_start 0 (end - bss_start)

report_serial_lem :
    (serial_exists : Bool) (t : Terminal)
    → OnScreen t
    → (report_serial serial_exists t ≡ some (put_text (serial_text serial_exists) t))
      × OnScreen (put_text (serial_text serial_exists) t)
unfolding report_serial
report_serial_lem true t v = (refl, v)
report_serial_lem false t v =
    let h = cprintf-put_text no_serial_line [] no_serial_line t no_serial_printed v in
    (rw h.0 refl, h.1)

mem_init_lem :
    (d : Detected) (sizes : List ℕ) (t : Terminal)
    → print memory_line (word d.totalmem ∷ word d.basemem ∷ word d.printed_extended ∷ [])
      ≡ some sizes
    → OnScreen t
    → mem_init d (record { panicstr = none; terminal = t })
      ≡ some (record {
        panicstr = some unfinished.fmt;
        terminal = put_text (sizes ++ (panic_text ++ unfinished.fmt ++ trailer)) t;
      })
unfolding mem_init
mem_init_lem d sizes t e v =
    let h =
      cprintf-put_text memory_line (word d.totalmem ∷ word d.basemem ∷ word d.printed_extended ∷ [])
        sizes t e v in
    rw h.0 (
      rw
        (panic_first unfinished panic_text unfinished.fmt trailer (put_text sizes t) panic_printed
          unfinished_printed trailer_printed h.1)
        (ap (λ z. some (record { panicstr = some unfinished.fmt; terminal = z }))
          (put_text-append sizes (panic_text ++ unfinished.fmt ++ trailer) t)))

joined :
    (sizes : List ℕ) (serial_exists : Bool) (t : Terminal)
    → put_text
        (sizes ++ (panic_text ++ unfinished.fmt ++ trailer))
        (put_text octal_text (put_text (serial_text serial_exists) t))
      ≡ put_text (start_text serial_exists sizes) t
joined sizes serial_exists t =
    let rest = sizes ++ (panic_text ++ unfinished.fmt ++ trailer) in
    let shown = put_text-append octal_text rest (put_text (serial_text serial_exists) t) in
    shown ∙ put_text-append (serial_text serial_exists) (octal_text ++ rest) t

abbrev started : ℕ → ℕ → Mem → Terminal → Option Started
started bss_start end m t = some (record {
  memory = memset bss_start 0 (end - bss_start) m;
  system = record { panicstr = some unfinished.fmt; terminal = t };
})

-- Where the line of the memory sizes prints `sizes`, i386_init clears the section `bss_start` to
-- `end` and nothing else, prints the lines of the start, the serial port's among them where there is
-- none, and comes to the monitor by the panic of mem_init.
pub i386_init_lem :
    (bss_start end : ℕ) (serial_exists : Bool) (d : Detected) (t : Terminal) (m : Mem)
    (sizes : List ℕ)
    → print memory_line (word d.totalmem ∷ word d.basemem ∷ word d.printed_extended ∷ [])
      ≡ some sizes
    → OnScreen t
    → (m' : Mem) × IsCleared bss_start end m m'
      × (i386_init bss_start end serial_exists d t m
          ≡ some (record {
            memory = m';
            system = record {
              panicstr = some unfinished.fmt;
              terminal = put_text (start_text serial_exists sizes) t;
            };
          }))
unfolding i386_init
i386_init_lem bss_start end serial_exists d t m sizes e v =
    let r = report_serial_lem serial_exists t v in
    let o =
      cprintf-put_text octal_line (word 6828 ∷ []) octal_text
        (put_text (serial_text serial_exists) t) octal_printed r.1 in
    let i =
      mem_init_lem d sizes (put_text octal_text (put_text (serial_text serial_exists) t)) e o.1 in
    (
      memset bss_start 0 (end - bss_start) m,
      memset-Filled bss_start 0 (end - bss_start) m,
      rw r.0 (rw o.0 (rw i (ap (started bss_start end m) (joined sizes serial_exists t)))),
    )
