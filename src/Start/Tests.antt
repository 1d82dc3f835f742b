-- ===== src/Start/Tests.antt =====
-- Tests of the start of the kernel: on an empty display, with 2 MB of memory.
use tp_prom.Prelude.{
  ℕ, ◌≡◌, refl, false, none, some, List, [], ◌∷◌, ◌++◌, length-replicate, replicate, arith,
}
use tp_prom.Format.Flags.{word, scan, next_char}
use tp_prom.Format.Number.{printnum, print_digits}
use tp_prom.Format.Convert.{convert}
use tp_prom.Format.Print.{print, vprintfmt, resume}
use tp_prom.Strings.Memory.{Mem}
use tp_prom.Clock.{Detected}
use tp_prom.Console.Screen.{Terminal}
use tp_prom.Console.Screen.Bounds.{OnScreen}
use tp_prom.Console.Screen.Text.{put_text}
use tp_prom.Start.{Report, unfinished, trailer, memory_line, i386_init}
use tp_prom.Start.Once.{Event, panics, writes, history, written, panics_once}
use tp_prom.Start.Boot.{
  panic_text, panic_printed, unfinished_printed, trailer_printed, start_text, IsCleared,
  i386_init_lem,
}

abbrev display : Terminal
display = record {
  serial = [];
  parallel = [];
  crt_buf = replicate 2000 0x0720;
  crt_pos = 0;
  cursor = 0;
}

display-OnScreen : OnScreen display
display-OnScreen = record {
  size = length-replicate {A = ℕ} 2000 0x0720;
  position = omega arith;
  shown = refl;
}

-- A panic of the code that runs after mem_init's.
abbrev second : Report
second = record { file = b'a' ∷ []; line = 7; fmt = b'b' ∷ []; args = [] }

-- A command is typed, and panics.
abbrev later : List Event
later = writes (b'K' ∷ b'>' ∷ b' ' ∷ b'x' ∷ 10 ∷ []) ∷ panics second ∷ []

panics_once_example :
    history (panics unfinished ∷ later) (record { panicstr = none; terminal = display })
    ≡ some (record {
      panicstr = some unfinished.fmt;
      terminal =
          put_text
            (panic_text ++ unfinished.fmt ++ trailer ++ written (panics unfinished ∷ later))
            display;
    })
panics_once_example =
    panics_once unfinished panic_text unfinished.fmt trailer later display panic_printed
      unfinished_printed trailer_printed display-OnScreen

abbrev found : Detected
found = record {
  totalmem = 2048;
  basemem = 640;
  npages = 512;
  npages_basemem = 160;
  printed_extended = 1408;
}

-- "Physical memory: 2048K available, base = 640K, extended = 1408K\n"
abbrev found_text : List ℕ
found_text =
    b'P' ∷ b'h' ∷ b'y' ∷ b's' ∷ b'i' ∷ b'c' ∷ b'a' ∷ b'l' ∷ b' ' ∷ b'm' ∷ b'e' ∷ b'm' ∷ b'o' ∷ b'r'
    ∷ b'y' ∷ b':' ∷ b' ' ∷ b'2' ∷ b'0' ∷ b'4' ∷ b'8' ∷ b'K' ∷ b' ' ∷ b'a' ∷ b'v' ∷ b'a' ∷ b'i'
    ∷ b'l' ∷ b'a' ∷ b'b' ∷ b'l' ∷ b'e' ∷ b',' ∷ b' ' ∷ b'b' ∷ b'a' ∷ b's' ∷ b'e' ∷ b' ' ∷ b'='
    ∷ b' ' ∷ b'6' ∷ b'4' ∷ b'0' ∷ b'K' ∷ b',' ∷ b' ' ∷ b'e' ∷ b'x' ∷ b't' ∷ b'e' ∷ b'n' ∷ b'd'
    ∷ b'e' ∷ b'd' ∷ b' ' ∷ b'=' ∷ b' ' ∷ b'1' ∷ b'4' ∷ b'0' ∷ b'8' ∷ b'K' ∷ 10 ∷ []

found_printed :
    print memory_line (word found.totalmem ∷ word found.basemem ∷ word found.printed_extended ∷ [])
    ≡ some found_text
unfolding print vprintfmt scan next_char resume convert printnum print_digits
found_printed = refl

i386_init_lem_example :
    (m' : Mem) × IsCleared 0x1000 0x1200 (λ a. 0xFF) m'
    × (i386_init 0x1000 0x1200 false found display (λ a. 0xFF)
        ≡ some (record {
          memory = m';
          system = record {
            panicstr = some unfinished.fmt;
            terminal = put_text (start_text false found_text) display;
          };
        }))
i386_init_lem_example =
    i386_init_lem 0x1000 0x1200 false found display (λ a. 0xFF) found_text found_printed
      display-OnScreen
