-- ===== src/Monitor/Parse.antt =====
-- A command as words between blanks, and the two loops on it.
mod Fixed
pub mod Arguments
use mathlib.Core.List.{append_assoc, append-nil}
use tp_prom.Prelude.{
  ℕ, zero, suc, ◌+◌, ◌-◌, ◌≤◌, ◌<◌, ◌≡◌, ◌≢◌, refl, ap, sym, subst, ◌∙◌, ◌⊎◌, inl, inr, Bool, true,
  false, not, ◌&&◌, ◌||◌, Option, none, some, List, [], ◌∷◌, ◌++◌, map, ◌==◌, length, length-append,
  drop, replicate, if◌then◌else◌, All, Bool-cases, ne→==, arith, ◌>>=◌,
}
use tp_prom.Strings.Scan.{c_string}
use tp_prom.Monitor.{
  is_whitespace, is_blank, is_word, gobble, scan_past, Parsed, parsed, too_many, parse, maxargs,
}

-- The offsets are those of strings of C in the buffer, with these characters.
abbrev pub Points : List ℕ → List ℕ → List (List ℕ) → Type 0
Points buf [] [] = Unit
Points buf [] (w ∷ ws) = ⊥
Points buf (o ∷ os) [] = ⊥
Points buf (o ∷ os) (w ∷ ws) = ((u : List ℕ) × (drop o buf ≡ c_string w u)) × Points buf os ws

abbrev pub Blanks : List ℕ → Type 0
Blanks s = All (λ c. is_blank c ≡ true) s

abbrev pub Word : List ℕ → Type 0
Word w = (w ≢ []) × All (λ c. is_word c ≡ true) w

-- Words with the blanks before each of them, and what is behind them.
abbrev pub Piece : Type 0
Piece = List ℕ × List ℕ

abbrev pub render : List Piece → List ℕ → List ℕ
render [] tail = tail
render ((bs, w) ∷ ps) tail = bs ++ (w ++ render ps tail)

-- There is a blank before each word, but perhaps before the first one of a command.
abbrev pub Separated : Bool → List Piece → Type 0
Separated first [] = Unit
Separated first ((bs, w) ∷ ps) =
    ((first ≡ true) ⊎ (bs ≢ [])) × Blanks bs × Word w × Separated false ps

abbrev pub words : List Piece → List (List ℕ)
words [] = []
words ((bs, w) ∷ ps) = w ∷ words ps

pub blank_facts : (c : ℕ) → is_blank c ≡ true → is_word c ≡ false
blank_facts c h = elim (Bool-cases (c == 0)) [ inl e ↦ rw e refl | inr e ↦ ground arith ]

pub word_facts : (c : ℕ) → is_word c ≡ true → (is_blank c ≡ false) × ((c == 0) ≡ false)
word_facts c h = (ground arith, ground arith)

pub gobble_lem :
    (s t : List ℕ) (c : ℕ)
    → Blanks s
    → is_blank c ≡ false
    → gobble (s ++ (c ∷ t)) ≡ (length s, c ∷ t)
unfolding gobble
gobble_lem [] t c h stop = rw stop refl
gobble_lem (b ∷ s) t c (h, hs) stop =
    let n : length s + 1 ≡ suc (length s) = omega arith in rw (h, gobble_lem s t c hs stop, n) refl

pub scan_past_lem :
    (w t : List ℕ) (c : ℕ)
    → All (λ c. is_word c ≡ true) w
    → is_word c ≡ false
    → scan_past (w ++ (c ∷ t)) ≡ (w, c ∷ t)
unfolding scan_past
scan_past_lem [] t c h stop = rw stop refl
scan_past_lem (b ∷ w) t c (h, hs) stop = rw (h, scan_past_lem w t c hs stop) refl

pub drop-append : (xs ys : List ℕ) → drop (length xs) (xs ++ ys) ≡ ys
drop-append [] ys = refl
drop-append (x ∷ xs) ys = drop-append xs ys
