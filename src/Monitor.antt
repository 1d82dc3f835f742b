-- ===== src/Monitor.antt =====
-- kern/monitor.c: the command interpreter of the kernel monitor.
pub mod Parse
pub mod Dispatch
pub mod Commands
mod Tests
use tp_prom.Prelude.{
  ℕ, zero, suc, ◌+◌, ◌-◌, Bool, not, ◌&&◌, ◌||◌, Option, none, some, List, [], ◌∷◌, ◌++◌, ◌==◌,
  length, drop, replicate, get_or, if◌then◌else◌, ◌>>=◌,
}
use tp_prom.Prelude.Int.{ℤ, pos}
use tp_prom.Strings.Compare.{strcmp}

-- WHITESPACE
abbrev pub is_whitespace : ℕ → Bool
is_whitespace c = c == 9 || (c == 13 || (c == 10 || c == 32))

abbrev pub is_blank : ℕ → Bool
is_blank c = not (c == 0) && is_whitespace c

abbrev pub is_word : ℕ → Bool
is_word c = not (c == 0) && not (is_whitespace c)

-- MAXARGS
abbrev pub maxargs : ℕ
maxargs = 16

-- The loop that gobbles whitespace: how many bytes it sets to 0, and the bytes behind them.
unfoldable pub gobble : List ℕ → ℕ × List ℕ
gobble [] = (0, [])
gobble (c ∷ s) = let (n, r) = gobble s in if is_blank c then (n + 1, r) else (0, c ∷ s)

-- The loop that scans past an argument: its bytes and those behind it.
unfoldable pub scan_past : List ℕ → List ℕ × List ℕ
scan_past [] = ([], [])
scan_past (c ∷ s) = let (w, r) = scan_past s in if is_word c then (c ∷ w, r) else ([], c ∷ s)

-- `argv`, as offsets in the command buffer, and the buffer; or too many arguments.
pub data Parsed : Type 0 where
  too_many : Parsed
  parsed : List ℕ → List ℕ → Parsed

-- The part of the loop behind the first inner loop. `next` is the rest of the loop, from the part
-- of the buffer before `buf`, that from it on, and `argv`. A read behind the buffer is `none`.
unfoldable pub take_argument :
    (List ℕ → List ℕ → List ℕ → Option Parsed) → List ℕ → List ℕ → ℕ × List ℕ → Option Parsed
take_argument next front argv (n, []) = none
take_argument next front argv (n, c ∷ s) =
    let here = front ++ replicate n 0 in
    let (w, behind) = scan_past (c ∷ s) in
    if c == 0
    then some (parsed argv (here ++ (c ∷ s)))
    else if length argv == maxargs - 1
    then some too_many
    else next (here ++ w) behind (argv ++ (length here ∷ []))

-- The loop that parses the command buffer.
unfoldable pub parse : ℕ → List ℕ → List ℕ → List ℕ → Option Parsed
parse zero front rest argv = none
parse (suc fuel) front rest argv = take_argument (parse fuel) front argv (gobble rest)

-- What runcmd does: it returns with no command, reports too many arguments, calls the function of
-- the command with this index and these arguments, or reports an unknown command.
pub data Action : Type 0 where
  no_command : Action
  too_many_arguments : Action
  call : ℕ → List ℕ → List ℕ → Action
  unknown_command : ℕ → List ℕ → Action

-- The loop over `commands`, for their names with their NULs: the index of the first that is equal
-- to the string.
unfoldable pub find_command : List (List ℕ) → ℕ → List ℕ → Option (Option ℕ)
find_command [] i s = some none
find_command (name ∷ names) i s =
    let rest = find_command names (i + 1) s in
    strcmp s name >>= λ r. (elim r [ pos zero ↦ some (some i) | _ ↦ rest ])

abbrev pub dispatch : List (List ℕ) → Parsed → Option Action
dispatch names too_many = some too_many_arguments
dispatch names (parsed [] buf) = some no_command
dispatch names (parsed (o ∷ os) buf) = find_command names 0 (drop o buf) >>= λ found.
    some (elim found [ none ↦ unknown_command o buf | some i ↦ call i (o ∷ os) buf ])

-- `commands`: "help" and "kerninfo".
abbrev pub command_names : List (List ℕ)
command_names =
    (b'h' ∷ b'e' ∷ b'l' ∷ b'p' ∷ 0 ∷ [])
    ∷ (b'k' ∷ b'e' ∷ b'r' ∷ b'n' ∷ b'i' ∷ b'n' ∷ b'f' ∷ b'o' ∷ 0 ∷ [])
    ∷ []

-- Each round adds an argument, the last one excepted.
unfoldable pub runcmd : List ℕ → Option Action
runcmd buf = parse maxargs [] buf [] >>= dispatch command_names
