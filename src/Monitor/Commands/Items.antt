-- ===== src/Monitor/Commands/Items.antt =====
-- Formats of text, `%08x` and `%d`, and what is printed for them.
use mathlib.Core.List.{append_assoc}
use tp_prom.Prelude.{
  ℕ, suc, ◌+◌, ◌-◌, ◌^◌, ◌≤◌, ◌<◌, ◌≡◌, ◌≢◌, refl, ap, ◌∙◌, Bool, true, not, ◌&&◌, ◌==◌, some, List,
  [], ◌∷◌, ◌++◌, map, length, All, arith, length-append, ==→ne, Bool-cases, inl, inr,
}
use native.Mathlib.Nat.{zero-add}
use tp_prom.Prelude.Int.{negsuc}
use tp_prom.Format.Flags.{Arg, word}
use tp_prom.Format.Convert.{codes}
use tp_prom.Format.Number.{digit_char, value, IsNumeral, printnum-IsNumeral}
use tp_prom.Format.Print.{print, vprintfmt, prefixed}
use tp_prom.Format.Print.Laws.{vprintfmt_text, decimal_pos, suc-add}
use tp_prom.Format.Print.Hex.{vprintfmt_hex8}
use tp_prom.Console.Screen.{Terminal}
use tp_prom.Console.Screen.Bounds.{OnScreen}
use tp_prom.Console.Screen.Text.{put_text, put_text-append}
use tp_prom.Console.Output.{cprintf-put_text}
use tp_prom.Monitor.Commands.{print_lines}

pub data Item : Type 0 where
  chars : List ℕ → Item
  hex : ℕ → Item
  decimal : ℕ → Item

-- What is printed for the items: a number in hexadecimal has eight digits.
abbrev pub Renders : List Item → List ℕ → Type 0
Renders [] out = out ≡ []
Renders (chars s ∷ is) out = (rest : List ℕ) × Renders is rest × (out ≡ s ++ rest)
Renders (hex w ∷ is) out =
    (ds : List ℕ) × (rest : List ℕ) × (length ds ≡ 8)
    × All (λ d. d < 16) ds
    × (value 16 ds ≡ w)
    × Renders is rest
    × (out ≡ map digit_char ds ++ rest)
Renders (decimal w ∷ is) out =
    (ds : List ℕ) × (rest : List ℕ) × IsNumeral 10 w ds
    × Renders is rest
    × (out ≡ map digit_char ds ++ rest)

abbrev pub format_of : List Item → List ℕ
format_of [] = []
format_of (chars s ∷ is) = s ++ format_of is
format_of (hex w ∷ is) = codes "%08x" ++ format_of is
format_of (decimal w ∷ is) = b'%' ∷ b'd' ∷ format_of is

abbrev pub args_of : List Item → List Arg
args_of [] = []
args_of (chars s ∷ is) = args_of is
args_of (hex w ∷ is) = word w ∷ args_of is
args_of (decimal w ∷ is) = word w ∷ args_of is

-- Text without '%'.
abbrev pub clean : List ℕ → Bool
clean [] = true
clean (c ∷ s) = not (c == b'%') && clean s

abbrev pub IsPrintable : Item → Type 0
IsPrintable (chars s) = clean s ≡ true
IsPrintable (hex w) = w < 2 ^ 32
IsPrintable (decimal w) = w < 2 ^ 31

abbrev steps : List Item → ℕ
steps [] = 0
steps (chars s ∷ is) = length s + steps is
steps (hex w ∷ is) = suc (steps is)
steps (decimal w ∷ is) = suc (steps is)

pub clean_text : (s : List ℕ) → clean s ≡ true → All (λ c. c ≢ b'%') s
clean_text [] h = tt
clean_text (c ∷ s) h = elim (Bool-cases (c == b'%')) [
  | inl bad ↦ absurd (ground (arith, h, bad))
  | inr good ↦ (==→ne c b'%' good, clean_text s (ground (arith, h, good)))
]

steps-length : (is : List Item) → steps is ≤ length (format_of is)
steps-length [] = omega arith
steps-length (chars s ∷ is) = omega (arith, steps-length is, length-append s (format_of is))
steps-length (hex w ∷ is) = omega (arith, steps-length is)
steps-length (decimal w ∷ is) = omega (arith, steps-length is)

vprintfmt-Renders :
    (is : List Item) (fuel : ℕ)
    → All IsPrintable is
    → (out : List ℕ) × Renders is out
      × (vprintfmt (steps is + suc fuel) (format_of is) (args_of is) ≡ some out)
unfolding vprintfmt
vprintfmt-Renders [] fuel h = ([], refl, rw zero-add refl)
vprintfmt-Renders (chars s ∷ is) fuel (h, hs) =
    let (rest, r, e) = vprintfmt-Renders is fuel hs in
    let later : length s + steps is + suc fuel ≡ length s + (steps is + suc fuel) = omega arith in
    let p = vprintfmt_text s (format_of is) (args_of is) (steps is + suc fuel) (clean_text s h) in
    (s ++ rest, (rest, r, refl), rw later (p ∙ ap (prefixed s) e))
vprintfmt-Renders (hex w ∷ is) fuel (h, hs) =
    let (rest, r, e) = vprintfmt-Renders is fuel hs in
    let (ds, eight, digits, exact, p) =
      vprintfmt_hex8 w (format_of is) (args_of is) (steps is + suc fuel) h in
    (
      map digit_char ds ++ rest,
      (ds, rest, eight, digits, exact, r, refl),
      rw (suc-add (steps is) (suc fuel)) (p ∙ ap (prefixed (map digit_char ds)) e),
    )
vprintfmt-Renders (decimal w ∷ is) fuel (h, hs) =
    let (rest, r, e) = vprintfmt-Renders is fuel hs in
    let (ds, n, p) = printnum-IsNumeral w 10 (negsuc 0) b' ' (omega arith) (omega arith) in
    let unpadded : 0 - length ds ≡ 0 = omega arith in
    (
      map digit_char ds ++ rest,
      (ds, rest, n, r, refl),
      rw
          (
            suc-add (steps is) (suc fuel),
            decimal_pos w (format_of is) (args_of is) (steps is + suc fuel) h,
            p,
            unpadded,
            e,
          )
          refl,
    )

-- One call of cprintf for the items.
print-Renders :
    (is : List Item)
    → All IsPrintable is
    → (out : List ℕ) × Renders is out × (print (format_of is) (args_of is) ≡ some out)
unfolding print
print-Renders is h =
    let (out, r, e) = vprintfmt-Renders is (length (format_of is) + 8 - steps is) h in
    let fuel : length (format_of is) + 9 ≡ steps is + suc (length (format_of is) + 8 - steps is) =
      omega (arith, steps-length is) in
    (out, r, rw fuel e)

Renders-append :
    (is js : List Item) (a b : List ℕ) → Renders is a → Renders js b → Renders (is ++ js) (a ++ b)
Renders-append [] js a b e h = rw e h
Renders-append (chars s ∷ is) js a b (rest, r, e) h =
    (rest ++ b, Renders-append is js rest b r h, rw e (append_assoc s rest b))
Renders-append (hex w ∷ is) js a b (ds, rest, eight, digits, exact, r, e) h = (
  ds,
  rest ++ b,
  eight,
  digits,
  exact,
  Renders-append is js rest b r h,
  rw e (append_assoc (map digit_char ds) rest b),
)
Renders-append (decimal w ∷ is) js a b (ds, rest, n, r, e) h = (
  ds,
  rest ++ b,
  n,
  Renders-append is js rest b r h,
  rw e (append_assoc (map digit_char ds) rest b),
)

abbrev pub line_of : List Item → List ℕ × List Arg
line_of is = (format_of is, args_of is)

abbrev pub joined : List (List Item) → List Item
joined [] = []
joined (is ∷ lines) = is ++ joined lines

pub print_lines-Renders :
    (lines : List (List Item)) (t : Terminal)
    → All (λ is. All IsPrintable is) lines
    → OnScreen t
    → (out : List ℕ) × Renders (joined lines) out
      × (print_lines (map line_of lines) t ≡ some (put_text out t))
unfolding print_lines
print_lines-Renders [] t h v = ([], refl, refl)
print_lines-Renders (is ∷ lines) t (h, hs) v =
    let (front, r, e) = print-Renders is h in
    let p = cprintf-put_text (format_of is) (args_of is) front t e v in
    let (out, rs, es) = print_lines-Renders lines (put_text front t) hs p.1 in
    (
      front ++ out,
      Renders-append is (joined lines) front out r rs,
      rw p.0 (es ∙ ap some (put_text-append front out t)),
    )
