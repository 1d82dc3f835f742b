-- ===== src/Start.antt =====
-- kern/init.c: a panic, a warning, and the start of the kernel; and mem_init of kern/pmap.c, which
-- ends in a panic.
pub mod Once
pub mod Boot
mod Tests
use tp_prom.Prelude.{
  ℕ, ◌+◌, ◌-◌, Bool, Option, none, some, List, [], ◌∷◌, ◌++◌, if◌then◌else◌, ◌>>=◌,
}
use tp_prom.Strings.Memory.{Mem}
use tp_prom.Strings.Fill.{memset}
use tp_prom.Format.Flags.{Arg, word, text}
use tp_prom.Console.Screen.{Terminal}
use tp_prom.Console.Output.{cprintf, vcprintf}
use tp_prom.Clock.{Detected}

-- `panicstr`, and what has been printed.
pub record System : Type 0 where
  pub panicstr : Option (List ℕ)
  pub terminal : Terminal

-- The arguments of _panic and of _warn. The strings are without their NULs; a `%s` reads them with
-- it.
pub record Report : Type 0 where
  pub file : List ℕ
  pub line : ℕ
  pub fmt : List ℕ
  pub args : List Arg

-- ">>>\n>>> kernel panic at %s:%d: ", "\n>>>\n", "kernel warning at %s:%d: " and "\n"
abbrev pub banner : List ℕ
banner =
    b'>' ∷ b'>' ∷ b'>' ∷ 10 ∷ b'>' ∷ b'>' ∷ b'>' ∷ b' ' ∷ b'k' ∷ b'e' ∷ b'r' ∷ b'n' ∷ b'e' ∷ b'l'
    ∷ b' ' ∷ b'p' ∷ b'a' ∷ b'n' ∷ b'i' ∷ b'c' ∷ b' ' ∷ b'a' ∷ b't' ∷ b' ' ∷ b'%' ∷ b's' ∷ b':'
    ∷ b'%' ∷ b'd' ∷ b':' ∷ b' ' ∷ []

abbrev pub trailer : List ℕ
trailer = 10 ∷ b'>' ∷ b'>' ∷ b'>' ∷ 10 ∷ []

abbrev pub warning : List ℕ
warning =
    b'k' ∷ b'e' ∷ b'r' ∷ b'n' ∷ b'e' ∷ b'l' ∷ b' ' ∷ b'w' ∷ b'a' ∷ b'r' ∷ b'n' ∷ b'i' ∷ b'n' ∷ b'g'
    ∷ b' ' ∷ b'a' ∷ b't' ∷ b' ' ∷ b'%' ∷ b's' ∷ b':' ∷ b'%' ∷ b'd' ∷ b':' ∷ b' ' ∷ []

abbrev pub newline : List ℕ
newline = 10 ∷ []

-- The three calls that print a report.
unfoldable pub print_report : List ℕ → List ℕ → Report → Terminal → Option Terminal
print_report front back r t = do
  a ← cprintf front (text (some (r.file ++ (0 ∷ []))) ∷ word r.line ∷ []) t
  b ← vcprintf r.fmt r.args a.1
  c ← cprintf back [] b.1
  some c.1

-- _panic, up to its endless loop of calls of the monitor.
unfoldable pub panic : Report → System → Option System
panic r s = elim s.panicstr [
  | some fmt ↦ some s
  | none ↦ print_report banner trailer r s.terminal >>= λ t.
      some (record { panicstr = some r.fmt; terminal = t })
]

-- _warn
unfoldable pub warn : Report → System → Option System
warn r s = do t ← print_report warning newline r s.terminal; some (record s { terminal = t })

-- "mem_init: This function is not finished\n", at line 131 of kern/pmap.c.
abbrev pub unfinished : Report
unfinished = record {
  file = b'k' ∷ b'e' ∷ b'r' ∷ b'n' ∷ b'/' ∷ b'p' ∷ b'm' ∷ b'a' ∷ b'p' ∷ b'.' ∷ b'c' ∷ [];
  line = 131;
  fmt =
      b'm' ∷ b'e' ∷ b'm' ∷ b'_' ∷ b'i' ∷ b'n' ∷ b'i' ∷ b't' ∷ b':' ∷ b' ' ∷ b'T' ∷ b'h' ∷ b'i'
      ∷ b's' ∷ b' ' ∷ b'f' ∷ b'u' ∷ b'n' ∷ b'c' ∷ b't' ∷ b'i' ∷ b'o' ∷ b'n' ∷ b' ' ∷ b'i' ∷ b's'
      ∷ b' ' ∷ b'n' ∷ b'o' ∷ b't' ∷ b' ' ∷ b'f' ∷ b'i' ∷ b'n' ∷ b'i' ∷ b's' ∷ b'h' ∷ b'e' ∷ b'd'
      ∷ 10 ∷ [];
  args = [];
}

-- "Physical memory: %uK available, base = %uK, extended = %uK\n", the call of i386_detect_memory.
abbrev pub memory_line : List ℕ
memory_line =
    b'P' ∷ b'h' ∷ b'y' ∷ b's' ∷ b'i' ∷ b'c' ∷ b'a' ∷ b'l' ∷ b' ' ∷ b'm' ∷ b'e' ∷ b'm' ∷ b'o' ∷ b'r'
    ∷ b'y' ∷ b':' ∷ b' ' ∷ b'%' ∷ b'u' ∷ b'K' ∷ b' ' ∷ b'a' ∷ b'v' ∷ b'a' ∷ b'i' ∷ b'l' ∷ b'a'
    ∷ b'b' ∷ b'l' ∷ b'e' ∷ b',' ∷ b' ' ∷ b'b' ∷ b'a' ∷ b's' ∷ b'e' ∷ b' ' ∷ b'=' ∷ b' ' ∷ b'%'
    ∷ b'u' ∷ b'K' ∷ b',' ∷ b' ' ∷ b'e' ∷ b'x' ∷ b't' ∷ b'e' ∷ b'n' ∷ b'd' ∷ b'e' ∷ b'd' ∷ b' '
    ∷ b'=' ∷ b' ' ∷ b'%' ∷ b'u' ∷ b'K' ∷ 10 ∷ []

-- mem_init, with what i386_detect_memory finds. Nothing behind its panic is reached.
unfoldable pub mem_init : Detected → System → Option System
mem_init d s = do
  p ←
      cprintf memory_line (word d.totalmem ∷ word d.basemem ∷ word d.printed_extended ∷ [])
        s.terminal
  panic unfinished (record s { terminal = p.1 })

-- "Serial port does not exist!\n" and "6828 decimal is %o octal!\n"
abbrev pub no_serial_line : List ℕ
no_serial_line =
    b'S' ∷ b'e' ∷ b'r' ∷ b'i' ∷ b'a' ∷ b'l' ∷ b' ' ∷ b'p' ∷ b'o' ∷ b'r' ∷ b't' ∷ b' ' ∷ b'd' ∷ b'o'
    ∷ b'e' ∷ b's' ∷ b' ' ∷ b'n' ∷ b'o' ∷ b't' ∷ b' ' ∷ b'e' ∷ b'x' ∷ b'i' ∷ b's' ∷ b't' ∷ b'!' ∷ 10
    ∷ []

abbrev pub octal_line : List ℕ
octal_line =
    b'6' ∷ b'8' ∷ b'2' ∷ b'8' ∷ b' ' ∷ b'd' ∷ b'e' ∷ b'c' ∷ b'i' ∷ b'm' ∷ b'a' ∷ b'l' ∷ b' ' ∷ b'i'
    ∷ b's' ∷ b' ' ∷ b'%' ∷ b'o' ∷ b' ' ∷ b'o' ∷ b'c' ∷ b't' ∷ b'a' ∷ b'l' ∷ b'!' ∷ 10 ∷ []

-- The end of cons_init.
unfoldable pub report_serial : Bool → Terminal → Option Terminal
report_serial serial_exists t =
    if serial_exists then some t else (cprintf no_serial_line [] t >>= λ p. some p.1)

pub record Started : Type 0 where
  pub memory : Mem
  pub system : System

-- i386_init, up to the endless loop in which mem_init's panic ends. `panicstr` is in the section
-- that is cleared first. The display is as cga_init finds it.
unfoldable pub i386_init : ℕ → ℕ → Bool → Detected → Terminal → Mem → Option Started
i386_init bss_start end serial_exists d t m = do
  let m' = memset bss_start 0 (end - bss_start) m
  t ← report_serial serial_exists t
  p ← cprintf octal_line (word 6828 ∷ []) t
  s ← mem_init d (record { panicstr = none; terminal = p.1 })
  some (record { memory = m'; system = s })
