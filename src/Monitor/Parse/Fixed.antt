-- ===== src/Monitor/Parse/Fixed.antt =====
-- The strings of the arguments found so far, while the rest of the command is parsed.
use mathlib.Core.List.{append_assoc, append-nil}
use mathlib.Core.Bool.{true≢false}
use tp_prom.Prelude.{
  drop, ℕ, zero, suc, ◌≡◌, ◌≢◌, refl, ap, sym, subst, ◌∙◌, ◌⊎◌, inl, inr, Bool, true, false, List,
  [], ◌∷◌, ◌++◌, length, replicate,
}
use tp_prom.Monitor.{is_word}
use tp_prom.Strings.Scan.{c_string}
use tp_prom.Monitor.Parse.{Points, Blanks, Piece, render, Separated, blank_facts, drop-append}

-- What `argv` points to, if it is no matter what follows a NUL behind the bytes so far.
abbrev pub AllFixed : List ℕ → List ℕ → List (List ℕ) → Type 0
AllFixed front os ws = (t : List ℕ) → Points (front ++ (0 ∷ t)) os ws

Points-snoc :
    (buf os : List ℕ) (ws : List (List ℕ)) (o : ℕ) (w u : List ℕ)
    → Points buf os ws
    → drop o buf ≡ c_string w u
    → Points buf (os ++ (o ∷ [])) (ws ++ (w ∷ []))
Points-snoc buf [] [] o w u all e = ((u, e), tt)
Points-snoc buf [] (v ∷ ws) o w u all e = absurd all
Points-snoc buf (p ∷ os) [] o w u all e = absurd all
Points-snoc buf (p ∷ os) (v ∷ ws) o w u (h, all) e = (h, Points-snoc buf os ws o w u all e)

pub AllFixed-snoc :
    (here w os : List ℕ) (ws : List (List ℕ))
    → AllFixed (here ++ w) os ws
    → AllFixed (here ++ w) (os ++ (length here ∷ [])) (ws ++ (w ∷ []))
AllFixed-snoc here w os ws all t =
    Points-snoc ((here ++ w) ++ (0 ∷ t)) os ws (length here) w t (all t)
      (ap (drop (length here)) (append_assoc here w (0 ∷ t)) ∙ drop-append here (w ++ (0 ∷ t)))

AllFixed-longer :
    (front v os : List ℕ) (ws : List (List ℕ))
    → AllFixed front os ws
    → AllFixed (front ++ (0 ∷ v)) os ws
AllFixed-longer front v os ws all t =
    subst (λ b. Points b os ws) (sym (append_assoc front (0 ∷ v) (0 ∷ t))) (all (v ++ (0 ∷ t)))

-- What follows the first word.
pub boundary :
    (ps : List Piece) (trail rest : List ℕ)
    → Separated false ps
    → Blanks trail
    → (c : ℕ) × (t : List ℕ) × ((render ps (trail ++ (0 ∷ rest)) ≡ c ∷ t) × (is_word c ≡ false))
boundary [] [] rest sep blanks = (0, rest, (refl, refl))
boundary [] (b ∷ trail) rest sep (h, blanks) = (b, trail ++ (0 ∷ rest), (refl, blank_facts b h))
boundary (([], w) ∷ ps) trail rest (some_blank, _, _, _) blanks = elim some_blank [
  | inl e ↦ absurd (true≢false (sym e))
  | inr ne ↦ absurd (ne refl)
]
boundary (((b ∷ bs), w) ∷ ps) trail rest (some_blank, (h, _), _, _) blanks =
    (b, bs ++ (w ++ render ps (trail ++ (0 ∷ rest))), (refl, blank_facts b h))

pub AllFixed-end :
    (front rest os : List ℕ) (ws : List (List ℕ)) (n : ℕ)
    → AllFixed front os ws
    → Points ((front ++ replicate n 0) ++ (0 ∷ rest)) os ws
AllFixed-end front rest os ws zero all =
    subst (λ f. Points (f ++ (0 ∷ rest)) os ws) (sym (append-nil front)) (all rest)
AllFixed-end front rest os ws (suc n) all = AllFixed-longer front (replicate n 0) os ws all rest

-- No argument has been found before the first word.
abbrev pub Started : Bool → List ℕ → List (List ℕ) → Type 0
Started true os ws = (os ≡ []) × (ws ≡ [])
Started false os ws = Unit

pub AllFixed-word :
    (first : Bool) (bs w front os : List ℕ) (ws : List (List ℕ))
    → (first ≡ true) ⊎ (bs ≢ [])
    → Started first os ws
    → AllFixed front os ws
    → AllFixed ((front ++ replicate (length bs) 0) ++ w) os ws
AllFixed-word first (b ∷ bs) w front os ws some_blank started all =
    subst (λ f. AllFixed f os ws) (sym (append_assoc front (0 ∷ replicate (length bs) 0) w))
      (AllFixed-longer front (replicate (length bs) 0 ++ w) os ws all)
AllFixed-word true [] w front os ws some_blank (no_os, no_ws) all = λ t. rw (no_os, no_ws) tt
AllFixed-word false [] w front os ws some_blank started all = elim some_blank [
  | inl e ↦ absurd (true≢false (sym e))
  | inr ne ↦ absurd (ne refl)
]
