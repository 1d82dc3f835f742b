-- ===== src/Monitor/Commands.antt =====
-- kern/monitor.c: the commands, and what runcmd prints.
pub mod Items
pub mod Texts
pub mod Printed
pub mod Replies
mod Tests
use tp_prom.Prelude.{
  ℕ, zero, suc, ◌+◌, ◌-◌, ◌/◌, ◌%◌, ◌^◌, Option, none, some, List, [], ◌∷◌, ◌++◌, drop, ltb,
  if◌then◌else◌, ◌>>=◌,
}
use tp_prom.Prelude.Int.{ℤ, pos}
use tp_prom.Format.Flags.{Arg, word, text}
use tp_prom.Paging.Address.{kernbase, roundup}
use tp_prom.Console.Screen.{Terminal}
use tp_prom.Console.Output.{cprintf}
use tp_prom.Monitor.{Action, no_command, too_many_arguments, call, unknown_command, maxargs, runcmd}

-- The addresses that the linker gives to `_start`, `entry`, `etext`, `edata` and `end`.
pub record Symbols : Type 0 where
  pub start : ℕ
  pub entry : ℕ
  pub etext : ℕ
  pub edata : ℕ
  pub end : ℕ

-- Calls of cprintf, one after the other.
unfoldable pub print_lines : List (List ℕ × List Arg) → Terminal → Option Terminal
print_lines [] t = some t
print_lines ((fmt, args) ∷ lines) t = cprintf fmt args t >>= λ p. print_lines lines p.1

-- "%s - %s\n"
abbrev pub help_line : List ℕ
help_line = b'%' ∷ b's' ∷ b' ' ∷ b'-' ∷ b' ' ∷ b'%' ∷ b's' ∷ 10 ∷ []

-- `name` and `desc` of the two commands, with their NULs.
abbrev pub name_1 : List ℕ
name_1 = b'h' ∷ b'e' ∷ b'l' ∷ b'p' ∷ 0 ∷ []

abbrev pub desc_1 : List ℕ
desc_1 =
    b'D' ∷ b'i' ∷ b's' ∷ b'p' ∷ b'l' ∷ b'a' ∷ b'y' ∷ b' ' ∷ b't' ∷ b'h' ∷ b'i' ∷ b's' ∷ b' ' ∷ b'l'
    ∷ b'i' ∷ b's' ∷ b't' ∷ b' ' ∷ b'o' ∷ b'f' ∷ b' ' ∷ b'c' ∷ b'o' ∷ b'm' ∷ b'm' ∷ b'a' ∷ b'n'
    ∷ b'd' ∷ b's' ∷ 0 ∷ []

abbrev pub name_2 : List ℕ
name_2 = b'k' ∷ b'e' ∷ b'r' ∷ b'n' ∷ b'i' ∷ b'n' ∷ b'f' ∷ b'o' ∷ 0 ∷ []

abbrev pub desc_2 : List ℕ
desc_2 =
    b'D' ∷ b'i' ∷ b's' ∷ b'p' ∷ b'l' ∷ b'a' ∷ b'y' ∷ b' ' ∷ b'i' ∷ b'n' ∷ b'f' ∷ b'o' ∷ b'r' ∷ b'm'
    ∷ b'a' ∷ b't' ∷ b'i' ∷ b'o' ∷ b'n' ∷ b' ' ∷ b'a' ∷ b'b' ∷ b'o' ∷ b'u' ∷ b't' ∷ b' ' ∷ b't'
    ∷ b'h' ∷ b'e' ∷ b' ' ∷ b'k' ∷ b'e' ∷ b'r' ∷ b'n' ∷ b'e' ∷ b'l' ∷ 0 ∷ []

abbrev pub commands : List (List ℕ × List ℕ)
commands = (name_1, desc_1) ∷ (name_2, desc_2) ∷ []

unfoldable pub help_lines : List (List ℕ × List ℕ) → List (List ℕ × List Arg)
help_lines [] = []
help_lines ((name, desc) ∷ cs) =
    (help_line, text (some name) ∷ text (some desc) ∷ []) ∷ help_lines cs

unfoldable pub mon_help : Terminal → Option (ℤ × Terminal)
mon_help t = print_lines (help_lines commands) t >>= λ t. some (pos 0, t)

-- "Special kernel symbols:\n"
abbrev pub symbols_line : List ℕ
symbols_line =
    b'S' ∷ b'p' ∷ b'e' ∷ b'c' ∷ b'i' ∷ b'a' ∷ b'l' ∷ b' ' ∷ b'k' ∷ b'e' ∷ b'r' ∷ b'n' ∷ b'e' ∷ b'l'
    ∷ b' ' ∷ b's' ∷ b'y' ∷ b'm' ∷ b'b' ∷ b'o' ∷ b'l' ∷ b's' ∷ b':' ∷ 10 ∷ []

-- "  _start                  %08x (phys)\n"
abbrev pub start_line : List ℕ
start_line =
    b' ' ∷ b' ' ∷ b'_' ∷ b's' ∷ b't' ∷ b'a' ∷ b'r' ∷ b't' ∷ b' ' ∷ b' ' ∷ b' ' ∷ b' ' ∷ b' ' ∷ b' '
    ∷ b' ' ∷ b' ' ∷ b' ' ∷ b' ' ∷ b' ' ∷ b' ' ∷ b' ' ∷ b' ' ∷ b' ' ∷ b' ' ∷ b' ' ∷ b' ' ∷ b'%'
    ∷ b'0' ∷ b'8' ∷ b'x' ∷ b' ' ∷ b'(' ∷ b'p' ∷ b'h' ∷ b'y' ∷ b's' ∷ b')' ∷ 10 ∷ []

-- "  entry  %08x (virt)  %08x (phys)\n"
abbrev pub entry_line : List ℕ
entry_line =
    b' ' ∷ b' ' ∷ b'e' ∷ b'n' ∷ b't' ∷ b'r' ∷ b'y' ∷ b' ' ∷ b' ' ∷ b'%' ∷ b'0' ∷ b'8' ∷ b'x' ∷ b' '
    ∷ b'(' ∷ b'v' ∷ b'i' ∷ b'r' ∷ b't' ∷ b')' ∷ b' ' ∷ b' ' ∷ b'%' ∷ b'0' ∷ b'8' ∷ b'x' ∷ b' '
    ∷ b'(' ∷ b'p' ∷ b'h' ∷ b'y' ∷ b's' ∷ b')' ∷ 10 ∷ []

-- "  etext  %08x (virt)  %08x (phys)\n"
abbrev pub etext_line : List ℕ
etext_line =
    b' ' ∷ b' ' ∷ b'e' ∷ b't' ∷ b'e' ∷ b'x' ∷ b't' ∷ b' ' ∷ b' ' ∷ b'%' ∷ b'0' ∷ b'8' ∷ b'x' ∷ b' '
    ∷ b'(' ∷ b'v' ∷ b'i' ∷ b'r' ∷ b't' ∷ b')' ∷ b' ' ∷ b' ' ∷ b'%' ∷ b'0' ∷ b'8' ∷ b'x' ∷ b' '
    ∷ b'(' ∷ b'p' ∷ b'h' ∷ b'y' ∷ b's' ∷ b')' ∷ 10 ∷ []

-- "  edata  %08x (virt)  %08x (phys)\n"
abbrev pub edata_line : List ℕ
edata_line =
    b' ' ∷ b' ' ∷ b'e' ∷ b'd' ∷ b'a' ∷ b't' ∷ b'a' ∷ b' ' ∷ b' ' ∷ b'%' ∷ b'0' ∷ b'8' ∷ b'x' ∷ b' '
    ∷ b'(' ∷ b'v' ∷ b'i' ∷ b'r' ∷ b't' ∷ b')' ∷ b' ' ∷ b' ' ∷ b'%' ∷ b'0' ∷ b'8' ∷ b'x' ∷ b' '
    ∷ b'(' ∷ b'p' ∷ b'h' ∷ b'y' ∷ b's' ∷ b')' ∷ 10 ∷ []

-- "  end    %08x (virt)  %08x (phys)\n"
abbrev pub end_line : List ℕ
end_line =
    b' ' ∷ b' ' ∷ b'e' ∷ b'n' ∷ b'd' ∷ b' ' ∷ b' ' ∷ b' ' ∷ b' ' ∷ b'%' ∷ b'0' ∷ b'8' ∷ b'x' ∷ b' '
    ∷ b'(' ∷ b'v' ∷ b'i' ∷ b'r' ∷ b't' ∷ b')' ∷ b' ' ∷ b' ' ∷ b'%' ∷ b'0' ∷ b'8' ∷ b'x' ∷ b' '
    ∷ b'(' ∷ b'p' ∷ b'h' ∷ b'y' ∷ b's' ∷ b')' ∷ 10 ∷ []

-- "Kernel executable memory footprint: %dKB\n"
abbrev pub footprint_line : List ℕ
footprint_line =
    b'K' ∷ b'e' ∷ b'r' ∷ b'n' ∷ b'e' ∷ b'l' ∷ b' ' ∷ b'e' ∷ b'x' ∷ b'e' ∷ b'c' ∷ b'u' ∷ b't' ∷ b'a'
    ∷ b'b' ∷ b'l' ∷ b'e' ∷ b' ' ∷ b'm' ∷ b'e' ∷ b'm' ∷ b'o' ∷ b'r' ∷ b'y' ∷ b' ' ∷ b'f' ∷ b'o'
    ∷ b'o' ∷ b't' ∷ b'p' ∷ b'r' ∷ b'i' ∷ b'n' ∷ b't' ∷ b':' ∷ b' ' ∷ b'%' ∷ b'd' ∷ b'K' ∷ b'B' ∷ 10
    ∷ []

-- `ROUNDUP(end - entry, 1024) / 1024` is a division of `int` values, towards 0.
abbrev pub footprint : ℕ → ℕ → ℕ
footprint entry end =
    let size = roundup ((end + 2 ^ 32 - entry) % 2 ^ 32) 1024 in
    if ltb size (2 ^ 31) then size / 1024 else (2 ^ 32 - (2 ^ 32 - size) / 1024)

abbrev pub physical : ℕ → ℕ
physical a = (a + 2 ^ 32 - kernbase) % 2 ^ 32

abbrev pub kerninfo_lines : Symbols → List (List ℕ × List Arg)
kerninfo_lines s =
    (symbols_line, [])
    ∷ (start_line, word s.start ∷ [])
    ∷ (entry_line, word s.entry ∷ word (physical s.entry) ∷ [])
    ∷ (etext_line, word s.etext ∷ word (physical s.etext) ∷ [])
    ∷ (edata_line, word s.edata ∷ word (physical s.edata) ∷ [])
    ∷ (end_line, word s.end ∷ word (physical s.end) ∷ [])
    ∷ (footprint_line, word (footprint s.entry s.end) ∷ [])
    ∷ []

unfoldable pub mon_kerninfo : Symbols → Terminal → Option (ℤ × Terminal)
mon_kerninfo s t = print_lines (kerninfo_lines s) t >>= λ t. some (pos 0, t)

-- It is in no command yet.
unfoldable pub mon_backtrace : Terminal → Option (ℤ × Terminal)
mon_backtrace t = some (pos 0, t)

-- "Too many arguments (max %d)\n"
abbrev pub too_many_line : List ℕ
too_many_line =
    b'T' ∷ b'o' ∷ b'o' ∷ b' ' ∷ b'm' ∷ b'a' ∷ b'n' ∷ b'y' ∷ b' ' ∷ b'a' ∷ b'r' ∷ b'g' ∷ b'u' ∷ b'm'
    ∷ b'e' ∷ b'n' ∷ b't' ∷ b's' ∷ b' ' ∷ b'(' ∷ b'm' ∷ b'a' ∷ b'x' ∷ b' ' ∷ b'%' ∷ b'd' ∷ b')' ∷ 10
    ∷ []

-- "Unknown command '%s'\n"
abbrev pub unknown_line : List ℕ
unknown_line =
    b'U' ∷ b'n' ∷ b'k' ∷ b'n' ∷ b'o' ∷ b'w' ∷ b'n' ∷ b' ' ∷ b'c' ∷ b'o' ∷ b'm' ∷ b'm' ∷ b'a' ∷ b'n'
    ∷ b'd' ∷ b' ' ∷ b'\'' ∷ b'%' ∷ b's' ∷ b'\'' ∷ 10 ∷ []

-- The function of `commands` at an index.
unfoldable pub func : Symbols → ℕ → Terminal → Option (ℤ × Terminal)
func s zero t = mon_help t
func s (suc zero) t = mon_kerninfo s t
func s (suc (suc k)) t = none

-- What runcmd prints and returns.
unfoldable pub perform : Symbols → Action → Terminal → Option (ℤ × Terminal)
perform s no_command t = some (pos 0, t)
perform s too_many_arguments t =
    cprintf too_many_line (word maxargs ∷ []) t >>= λ p. some (pos 0, p.1)
perform s (call i argv buf) t = func s i t
perform s (unknown_command o buf) t =
    cprintf unknown_line (text (some (drop o buf)) ∷ []) t >>= λ p. some (pos 0, p.1)

-- runcmd with its output.
unfoldable pub run_command : Symbols → List ℕ → Terminal → Option (ℤ × Terminal)
run_command s buf t = runcmd buf >>= λ action. perform s action t
