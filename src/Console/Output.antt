-- ===== src/Console/Output.antt =====
-- kern/printf.c: formatted output to the console.
use tp_prom.Prelude.{ℕ, suc, ◌+◌, ◌≡◌, ap, ◌∙◌, Option, some, List, [], ◌∷◌, length, ◌>>=◌, arith}
use tp_prom.Format.Flags.{Arg}
use tp_prom.Format.Print.{print}
use tp_prom.Console.Screen.{Terminal, cons_putc}
use tp_prom.Console.Screen.Bounds.{OnScreen, cons_putc-OnScreen}
use tp_prom.Console.Screen.Text.{put_text}

-- cputchar is cons_putc. The count is beside the terminal.
abbrev pub putch : ℕ → ℕ × Terminal → ℕ × Terminal
putch ch (cnt, t) = (cnt + 1, cons_putc ch t)

-- The calls of `putch` for the characters that vprintfmt prints.
unfoldable pub putch_all : List ℕ → ℕ × Terminal → ℕ × Terminal
putch_all [] s = s
putch_all (ch ∷ out) s = putch_all out (putch ch s)

unfoldable pub vcprintf : List ℕ → List Arg → Terminal → Option (ℕ × Terminal)
vcprintf fmt args t = do out ← print fmt args; some (putch_all out (0, t))

abbrev pub cprintf : List ℕ → List Arg → Terminal → Option (ℕ × Terminal)
cprintf fmt args t = vcprintf fmt args t

putch_all-put_text :
    (out : List ℕ) (cnt : ℕ) (t : Terminal)
    → putch_all out (cnt, t) ≡ (cnt + length out, put_text out t)
unfolding putch_all
putch_all-put_text [] cnt t = let same : cnt ≡ cnt + 0 = omega arith in ap (λ n. (n, t)) same
putch_all-put_text (ch ∷ out) cnt t =
    let same : cnt + 1 + length out ≡ cnt + suc (length out) = omega arith in
    putch_all-put_text out (cnt + 1) (cons_putc ch t)
    ∙ ap (λ n. (n, put_text out (cons_putc ch t))) same

pub put_text-OnScreen : (out : List ℕ) (t : Terminal) → OnScreen t → OnScreen (put_text out t)
put_text-OnScreen [] t v = v
put_text-OnScreen (ch ∷ out) t v =
    put_text-OnScreen out (cons_putc ch t) (cons_putc-OnScreen ch t v)

-- For a format that prints `out`, cprintf writes the characters of `out` to the console, one after
-- the other, and returns how many they are; the position stays on the display.
pub cprintf-put_text :
    (fmt : List ℕ) (args : List Arg) (out : List ℕ) (t : Terminal)
    → print fmt args ≡ some out
    → OnScreen t
    → (cprintf fmt args t ≡ some (length out, put_text out t)) × OnScreen (put_text out t)
unfolding vcprintf
cprintf-put_text fmt args out t e v =
    let zero_first : 0 + length out ≡ length out = omega arith in
    (
      rw e (
          ap (λ s. some s) (putch_all-put_text out 0 t)
          ∙ ap (λ n. some (n, put_text out t)) zero_first),
      put_text-OnScreen out t v,
    )
