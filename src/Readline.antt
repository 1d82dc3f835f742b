-- ===== src/Readline.antt =====
-- lib/readline.c: a line of input, with its editing and its echo. What readline writes is the list
-- of the characters that it gives to cputchar.
pub mod Edit
pub mod Plain
mod Tests
use tp_prom.Prelude.{
  ℕ, ◌+◌, ◌-◌, ◌%◌, Bool, true, ◌&&◌, ◌||◌, Option, none, some, List, [], ◌∷◌, ◌++◌, ◌==◌, ltb, leb,
  set, if◌then◌else◌,
}
use tp_prom.Prelude.Int.{ℤ, pos, negsuc}
use tp_prom.Format.Flags.{Arg, word, text}
use tp_prom.Format.Print.{print}

-- BUFLEN
abbrev pub buffer_length : ℕ
buffer_length = 1024

abbrev pub iscons : ℕ → Bool
iscons fdnum = true

-- `buf`, `i` and what is written so far.
pub record Line : Type 0 where
  pub buf : List ℕ
  pub i : ℕ
  pub out : List ℕ

-- After the characters of the input: `buf` is returned, or NULL, or readline waits for more.
pub data Result : Type 0 where
  returned : List ℕ → List ℕ → Result
  failed : Option (List ℕ) → Result
  waiting : Line → Result

-- What cprintf writes for a format without its NUL; `none` if it does not end.
abbrev pub followed_by : List ℕ → Option (List ℕ) → Option (List ℕ)
followed_by front none = none
followed_by front (some l) = some (front ++ l)

abbrev pub echo : Bool → ℕ → List ℕ → List ℕ
echo echoing c out = if echoing then out ++ (c ∷ []) else out

abbrev pub erase : Bool → Line → Line
erase echoing l = record { buf = l.buf; i = l.i - 1; out = echo echoing 8 l.out }

abbrev pub append : Bool → ℕ → Line → Line
append echoing c l = record {
  buf = set l.buf l.i (c % 256);
  i = l.i + 1;
  out = echo echoing c l.out;
}

-- The format "read error: %e\n".
abbrev pub read_error : List ℕ
read_error =
    b'r' ∷ b'e' ∷ b'a' ∷ b'd' ∷ b' ' ∷ b'e' ∷ b'r' ∷ b'r' ∷ b'o' ∷ b'r' ∷ b':' ∷ b' ' ∷ b'%' ∷ b'e'
    ∷ 10 ∷ []

-- The loop; the list holds what getchar returns.
unfoldable pub read_loop : Bool → List ℤ → Line → Result
read_loop echoing [] l = waiting l
read_loop echoing (negsuc n ∷ cs) l =
    failed (followed_by l.out (print read_error (word (4294967295 - n) ∷ [])))
read_loop echoing (pos c ∷ cs) l =
    let next =
      if (c == 8 || c == 127) && ltb 0 l.i
      then erase echoing l
      else if leb 32 c && ltb l.i (buffer_length - 1)
      then append echoing c l
      else l in
    let rest = read_loop echoing cs next in
    if (c == 8 || c == 127) && ltb 0 l.i
    then rest
    else if leb 32 c && ltb l.i (buffer_length - 1)
    then rest
    else if c == 10 || c == 13
    then returned (set l.buf l.i 0) (echo echoing 10 l.out)
    else rest

-- `buf` is static: it holds what the last call left there. The prompt, if there is one, is a string
-- without its NUL.
unfoldable pub readline : List ℕ → Option (List ℕ) → List ℤ → Result
readline buf prompt input =
    read_loop (iscons 0) input
      (record { buf = buf; i = 0; out = elim prompt [ none ↦ [] | some p ↦ p ] })
