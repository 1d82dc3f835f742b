-- ===== src/Monitor/Commands/Texts.antt =====
-- The texts of the commands of the monitor.
use tp_prom.Prelude.{
  ℕ, zero, suc, ◌+◌, ◌-◌, ◌/◌, ◌^◌, ◌≤◌, ◌<◌, ◌≡◌, Option, none, some, List, [], ◌∷◌, ◌++◌, map,
}
use tp_prom.Format.Convert.{extend}
use tp_prom.Paging.Address.{kernbase}
use tp_prom.Monitor.Commands.{Symbols}
use tp_prom.Monitor.Commands.Items.{Item, chars, hex, decimal, Renders, joined}

-- The kernel is linked at KERNBASE or above, and its end is behind its entry.
pub record IsLinked (s : Symbols) : Type 0 where
  pub start : s.start < 2 ^ 32
  pub low : kernbase ≤ s.entry
  pub ordered : s.entry ≤ s.end
  pub top : s.end < 2 ^ 32
  pub text_end : (kernbase ≤ s.etext) × (s.etext < 2 ^ 32)
  pub data_end : (kernbase ≤ s.edata) × (s.edata < 2 ^ 32)

-- The lines of kerninfo, with the whole kilobytes that hold the kernel.
abbrev pub kerninfo_items : Symbols → List (List Item)
kerninfo_items s =
    (chars (
        b'S' ∷ b'p' ∷ b'e' ∷ b'c' ∷ b'i' ∷ b'a' ∷ b'l' ∷ b' ' ∷ b'k' ∷ b'e' ∷ b'r' ∷ b'n' ∷ b'e'
        ∷ b'l' ∷ b' ' ∷ b's' ∷ b'y' ∷ b'm' ∷ b'b' ∷ b'o' ∷ b'l' ∷ b's' ∷ b':' ∷ 10 ∷ [])
      ∷ [])
    ∷ (chars (
          b' ' ∷ b' ' ∷ b'_' ∷ b's' ∷ b't' ∷ b'a' ∷ b'r' ∷ b't' ∷ b' ' ∷ b' ' ∷ b' ' ∷ b' ' ∷ b' '
          ∷ b' ' ∷ b' ' ∷ b' ' ∷ b' ' ∷ b' ' ∷ b' ' ∷ b' ' ∷ b' ' ∷ b' ' ∷ b' ' ∷ b' ' ∷ b' ' ∷ b' '
          ∷ [])
        ∷ hex s.start
        ∷ chars (b' ' ∷ b'(' ∷ b'p' ∷ b'h' ∷ b'y' ∷ b's' ∷ b')' ∷ 10 ∷ [])
        ∷ [])
    ∷ (chars (b' ' ∷ b' ' ∷ b'e' ∷ b'n' ∷ b't' ∷ b'r' ∷ b'y' ∷ b' ' ∷ b' ' ∷ [])
        ∷ hex s.entry
        ∷ chars (b' ' ∷ b'(' ∷ b'v' ∷ b'i' ∷ b'r' ∷ b't' ∷ b')' ∷ b' ' ∷ b' ' ∷ [])
        ∷ hex (s.entry - kernbase)
        ∷ chars (b' ' ∷ b'(' ∷ b'p' ∷ b'h' ∷ b'y' ∷ b's' ∷ b')' ∷ 10 ∷ [])
        ∷ [])
    ∷ (chars (b' ' ∷ b' ' ∷ b'e' ∷ b't' ∷ b'e' ∷ b'x' ∷ b't' ∷ b' ' ∷ b' ' ∷ [])
        ∷ hex s.etext
        ∷ chars (b' ' ∷ b'(' ∷ b'v' ∷ b'i' ∷ b'r' ∷ b't' ∷ b')' ∷ b' ' ∷ b' ' ∷ [])
        ∷ hex (s.etext - kernbase)
        ∷ chars (b' ' ∷ b'(' ∷ b'p' ∷ b'h' ∷ b'y' ∷ b's' ∷ b')' ∷ 10 ∷ [])
        ∷ [])
    ∷ (chars (b' ' ∷ b' ' ∷ b'e' ∷ b'd' ∷ b'a' ∷ b't' ∷ b'a' ∷ b' ' ∷ b' ' ∷ [])
        ∷ hex s.edata
        ∷ chars (b' ' ∷ b'(' ∷ b'v' ∷ b'i' ∷ b'r' ∷ b't' ∷ b')' ∷ b' ' ∷ b' ' ∷ [])
        ∷ hex (s.edata - kernbase)
        ∷ chars (b' ' ∷ b'(' ∷ b'p' ∷ b'h' ∷ b'y' ∷ b's' ∷ b')' ∷ 10 ∷ [])
        ∷ [])
    ∷ (chars (b' ' ∷ b' ' ∷ b'e' ∷ b'n' ∷ b'd' ∷ b' ' ∷ b' ' ∷ b' ' ∷ b' ' ∷ [])
        ∷ hex s.end
        ∷ chars (b' ' ∷ b'(' ∷ b'v' ∷ b'i' ∷ b'r' ∷ b't' ∷ b')' ∷ b' ' ∷ b' ' ∷ [])
        ∷ hex (s.end - kernbase)
        ∷ chars (b' ' ∷ b'(' ∷ b'p' ∷ b'h' ∷ b'y' ∷ b's' ∷ b')' ∷ 10 ∷ [])
        ∷ [])
    ∷ (chars (
          b'K' ∷ b'e' ∷ b'r' ∷ b'n' ∷ b'e' ∷ b'l' ∷ b' ' ∷ b'e' ∷ b'x' ∷ b'e' ∷ b'c' ∷ b'u' ∷ b't'
          ∷ b'a' ∷ b'b' ∷ b'l' ∷ b'e' ∷ b' ' ∷ b'm' ∷ b'e' ∷ b'm' ∷ b'o' ∷ b'r' ∷ b'y' ∷ b' ' ∷ b'f'
          ∷ b'o' ∷ b'o' ∷ b't' ∷ b'p' ∷ b'r' ∷ b'i' ∷ b'n' ∷ b't' ∷ b':' ∷ b' ' ∷ [])
        ∷ decimal ((s.end - s.entry + 1023) / 1024)
        ∷ chars (b'K' ∷ b'B' ∷ 10 ∷ [])
        ∷ [])
    ∷ []

-- "help - Display this list of commands\n" and "kerninfo - Display information about the kernel\n"
abbrev pub help_line_1 : List ℕ
help_line_1 =
    (b'h' ∷ b'e' ∷ b'l' ∷ b'p' ∷ b' ' ∷ b'-' ∷ b' ' ∷ b'D' ∷ b'i' ∷ b's' ∷ b'p' ∷ b'l' ∷ b'a' ∷ b'y'
      ∷ b' ' ∷ b't' ∷ b'h' ∷ b'i' ∷ b's' ∷ b' ' ∷ b'l' ∷ b'i' ∷ b's' ∷ b't' ∷ b' ' ∷ b'o' ∷ b'f'
      ∷ b' ' ∷ b'c' ∷ b'o' ∷ b'm' ∷ b'm' ∷ b'a' ∷ b'n' ∷ b'd' ∷ b's' ∷ 10 ∷ [])

abbrev pub help_line_2 : List ℕ
help_line_2 =
    (b'k' ∷ b'e' ∷ b'r' ∷ b'n' ∷ b'i' ∷ b'n' ∷ b'f' ∷ b'o' ∷ b' ' ∷ b'-' ∷ b' ' ∷ b'D' ∷ b'i' ∷ b's'
      ∷ b'p' ∷ b'l' ∷ b'a' ∷ b'y' ∷ b' ' ∷ b'i' ∷ b'n' ∷ b'f' ∷ b'o' ∷ b'r' ∷ b'm' ∷ b'a' ∷ b't'
      ∷ b'i' ∷ b'o' ∷ b'n' ∷ b' ' ∷ b'a' ∷ b'b' ∷ b'o' ∷ b'u' ∷ b't' ∷ b' ' ∷ b't' ∷ b'h' ∷ b'e'
      ∷ b' ' ∷ b'k' ∷ b'e' ∷ b'r' ∷ b'n' ∷ b'e' ∷ b'l' ∷ 10 ∷ [])

-- The name of an unknown command, with its characters as `char` values.
abbrev pub unknown_text : List ℕ → List ℕ
unknown_text w =
    (b'U' ∷ b'n' ∷ b'k' ∷ b'n' ∷ b'o' ∷ b'w' ∷ b'n' ∷ b' ' ∷ b'c' ∷ b'o' ∷ b'm' ∷ b'm' ∷ b'a' ∷ b'n'
      ∷ b'd' ∷ b' ' ∷ 39 ∷ [])
    ++ (map extend w ++ (39 ∷ 10 ∷ []))

abbrev pub Replies : Symbols → List ℕ → Option ℕ → List ℕ → Type 0
Replies s w none out = out ≡ unknown_text w
Replies s w (some zero) out = out ≡ help_line_1 ++ help_line_2
Replies s w (some (suc k)) out = Renders (joined (kerninfo_items s)) out
