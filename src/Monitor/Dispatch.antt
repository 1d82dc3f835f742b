-- ===== src/Monitor/Dispatch.antt =====
-- The dispatch of runcmd on the first word of the command.
use tp_prom.Prelude.{
  ℕ, zero, suc, ◌+◌, ◌<◌, ◌≡◌, ◌≢◌, refl, sym, ap, ◌∙◌, ◌⊎◌, inl, inr, ==→ne, true, Option, none,
  some, List, [], ◌∷◌, ◌++◌, map, take, get_elem?, length, All, arith,
}
use tp_prom.Prelude.Int.{ℤ, pos, negsuc}
use tp_prom.Strings.Scan.{c_string, NoNul}
use tp_prom.Strings.Compare.{strcmp, strcmp_zero, strcmp-lexicographic}
use tp_prom.Monitor.{
  Action, call, unknown_command, is_word, parsed, parse, find_command, maxargs, runcmd,
}
use tp_prom.Monitor.Parse.{word_facts, Piece, Points, Separated, Blanks, render, words}
use tp_prom.Monitor.Parse.Arguments.{parse-words}

-- The first of the names that is the word.
abbrev pub IsFirst : List (List ℕ) → List ℕ → Option ℕ → Type 0
IsFirst names w none = All (λ n. w ≢ n) names
IsFirst names w (some k) = (get_elem? names k ≡ some w) × All (λ n. w ≢ n) (take k names)

-- What strcmp says of the first name, and what the loop does with it.
find_command-step :
    (name w u : List ℕ) (names : List (List ℕ)) (i : ℕ)
    → NoNul w
    → NoNul name
    → ((w ≡ name) × (find_command (c_string name [] ∷ names) i (c_string w u) ≡ some (some i)))
      ⊎ ((w ≢ name)
          × (find_command (c_string name [] ∷ names) i (c_string w u)
              ≡ find_command names (i + 1) (c_string w u)))
unfolding find_command
find_command-step name w u names i hw hn =
    let (r, e, o) = strcmp-lexicographic w name u [] hw hn in cases r e
  where
    cases :
        (r : ℤ)
        → strcmp (c_string w u) (c_string name []) ≡ some r
        → ((w ≡ name) × (find_command (c_string name [] ∷ names) i (c_string w u) ≡ some (some i)))
          ⊎ ((w ≢ name)
              × (find_command (c_string name [] ∷ names) i (c_string w u)
                  ≡ find_command names (i + 1) (c_string w u)))
    cases (pos zero) e = inl ((strcmp_zero w name u [] hw hn).0 e, rw e refl)
    cases (pos (suc n)) e =
        inr (
          λ same. let zero_result = (strcmp_zero w name u [] hw hn).1 same in absurd (cc),
          rw e refl,
        )
    cases (negsuc n) e =
        inr (
          λ same. let zero_result = (strcmp_zero w name u [] hw hn).1 same in absurd (cc),
          rw e refl,
        )

abbrev shifted : ℕ → Option ℕ → Option ℕ
shifted i none = none
shifted i (some k) = some (i + k)

find_command-IsFirst :
    (names : List (List ℕ)) (i : ℕ) (w u : List ℕ)
    → NoNul w
    → All NoNul names
    → (r : Option ℕ) × IsFirst names w r
      × (find_command (map (λ n. c_string n []) names) i (c_string w u) ≡ some (shifted i r))
unfolding find_command
find_command-IsFirst [] i w u hw hn = (none, tt, refl)
find_command-IsFirst (name ∷ names) i w u hw (h, hn) =
    elim (find_command-step name w u (map (λ n. c_string n []) names) i hw h) [
      | inl (same, e) ↦
          let here : i ≡ i + 0 = omega arith in
          (some 0, (ap some (sym same), tt), e ∙ ap (λ j. some (some j)) here)
      | inr (other, e) ↦
          let (r, first, f) = find_command-IsFirst names (i + 1) w u hw hn in
          behind r first (e ∙ f) other
    ]
  where
    behind :
        (r : Option ℕ)
        → IsFirst names w r
        → find_command (map (λ n. c_string n []) (name ∷ names)) i (c_string w u)
          ≡ some (shifted (i + 1) r)
        → w ≢ name
        → (r' : Option ℕ) × IsFirst (name ∷ names) w r'
          × (find_command (map (λ n. c_string n []) (name ∷ names)) i (c_string w u)
              ≡ some (shifted i r'))
    behind none first f other = (none, (other, first), f)
    behind (some k) (found, before) f other =
        let same : i + 1 + k ≡ i + suc k = omega arith in
        (some (suc k), (found, (other, before)), f ∙ ap (λ j. some (some j)) same)

-- The names of `commands`, without their NULs.
abbrev pub names : List (List ℕ)
names =
    (b'h' ∷ b'e' ∷ b'l' ∷ b'p' ∷ [])
    ∷ (b'k' ∷ b'e' ∷ b'r' ∷ b'n' ∷ b'i' ∷ b'n' ∷ b'f' ∷ b'o' ∷ [])
    ∷ []

shifted_zero : (r : Option ℕ) → shifted 0 r ≡ r
shifted_zero none = refl
shifted_zero (some k) = let same : 0 + k ≡ k = omega arith in ap (λ j. some j) same

names-NoNul : All NoNul names
names-NoNul = (
  (==→ne b'h' 0 refl, (==→ne b'e' 0 refl, (==→ne b'l' 0 refl, (==→ne b'p' 0 refl, tt)))),
  (
    (
      ==→ne b'k' 0 refl,
      (
        ==→ne b'e' 0 refl,
        (
          ==→ne b'r' 0 refl,
          (
            ==→ne b'n' 0 refl,
            (==→ne b'i' 0 refl, (==→ne b'n' 0 refl, (==→ne b'f' 0 refl, (==→ne b'o' 0 refl, tt)))),
          ),
        ),
      ),
    ),
    tt,
  ),
)

pub word-NoNul : (w : List ℕ) → All (λ c. is_word c ≡ true) w → NoNul w
word-NoNul [] h = tt
word-NoNul (c ∷ w) (h, hs) = (==→ne c 0 ((word_facts c h).1), word-NoNul w hs)

-- What runcmd does with a command whose words are `w` and those of `ws`.
abbrev pub Runs : List ℕ → List (List ℕ) → Option Action → Type 0
Runs w ws action =
    (o : ℕ) × (os : List ℕ) × (buf : List ℕ) × (found : Option ℕ) × (Points buf (o ∷ os) (w ∷ ws)
      × IsFirst names w found
      × (action
          ≡ some (elim found [ none ↦ unknown_command o buf | some k ↦ call k (o ∷ os) buf ])))

-- runcmd runs a command of 1 to 15 words: it calls the function of the command that the first word
-- names, with argv pointing to strings that are the words, or if it names none, it reports the first
-- word as unknown. Blanks stand before each word but perhaps the first, blanks may stand behind the
-- last, and then a NUL.
pub runcmd-Runs :
    (bs w : List ℕ) (ps : List Piece) (trail rest : List ℕ)
    → Separated true ((bs, w) ∷ ps)
    → Blanks trail
    → length ps + 1 < maxargs
    → Runs w (words ps) (runcmd (render ((bs, w) ∷ ps) (trail ++ (0 ∷ rest))))
unfolding runcmd
runcmd-Runs bs w ps trail rest sep blanks few =
    let (os, buf, (e, strings)) =
      parse-words ((bs, w) ∷ ps) trail rest sep blanks (omega (arith, few)) in
    act os buf e strings
  where
    act :
        (os buf : List ℕ)
        → parse maxargs [] (render ((bs, w) ∷ ps) (trail ++ (0 ∷ rest))) [] ≡ some (parsed os buf)
        → Points buf os (w ∷ words ps)
        → Runs w (words ps) (runcmd (render ((bs, w) ∷ ps) (trail ++ (0 ∷ rest))))
    act [] buf e strings = absurd strings
    act (o ∷ os) buf e ((u, at), others) =
        let (found, first, f) =
          find_command-IsFirst names 0 w u (word-NoNul w (sep.2.1)) names-NoNul in
        (
          o,
          os,
          buf,
          found,
          (((u, at), others), first, rw (e, at, f ∙ ap (λ j. some j) (shifted_zero found)) refl),
        )
