-- ===== src/Monitor/Parse/Arguments.antt =====
-- The arguments that runcmd finds in a command of words between blanks.
use mathlib.Core.List.{append_assoc, append-nil}
use tp_prom.Prelude.{
  subst, ℕ_discrete, ℕ, zero, suc, ◌+◌, ◌-◌, ◌≤◌, ◌<◌, ◌≡◌, refl, ap, sym, ◌∙◌, Bool, true, false,
  Option, some, List, [], ◌∷◌, ◌++◌, ◌==◌, length, length-append, replicate, All, arith, ◌>>=◌,
}
use tp_prom.Monitor.{
  is_word, Parsed, parsed, too_many, dispatch, command_names, runcmd, too_many_arguments,
  take_argument, parse, maxargs,
}
use tp_prom.Monitor.Parse.{
  Points, Blanks, Piece, render, Separated, words, word_facts, gobble_lem, scan_past_lem,
}
use tp_prom.Monitor.Parse.Fixed.{
  AllFixed, Started, AllFixed-snoc, boundary, AllFixed-end, AllFixed-word,
}

-- The parse of the remaining words, with the words that have been found.
abbrev pub Finds : Option Parsed → List (List ℕ) → Type 0
Finds r ws = (os : List ℕ) × (buf : List ℕ) × ((r ≡ some (parsed os buf)) × Points buf os ws)

-- One round that finds a word.
parse-word :
    (fuel x c : ℕ) (front bs w t argv : List ℕ)
    → Blanks bs
    → All (λ c. is_word c ≡ true) (x ∷ w)
    → is_word c ≡ false
    → length argv < maxargs - 1
    → (let here = front ++ replicate (length bs) 0 in
        parse (suc fuel) front (bs ++ (x ∷ (w ++ (c ∷ t)))) argv
        ≡ parse fuel (here ++ (x ∷ w)) (c ∷ t) (argv ++ (length here ∷ [])))
unfolding parse take_argument
parse-word fuel x c front bs w t argv blanks (hx, hw) stop room =
    let (not_blank, not_nul) = word_facts x hx in
    let full : (length argv == maxargs - 1) ≡ false = ground arith in
    let gobbled = gobble_lem bs (w ++ (c ∷ t)) x blanks not_blank in
    let scanned = scan_past_lem (x ∷ w) t c (hx, hw) stop in
    ap (take_argument (parse fuel) front argv) gobbled ∙ rw (scanned, not_nul, full) refl

-- The loop finds all the words, if there are at most 15.
parse-Finds :
    (first : Bool) (ps : List Piece) (front trail rest argv : List ℕ) (ws : List (List ℕ))
    (fuel : ℕ)
    → Separated first ps
    → Started first argv ws
    → AllFixed front argv ws
    → Blanks trail
    → length argv + length ps < maxargs
    → length ps ≤ fuel
    → Finds (parse (suc fuel) front (render ps (trail ++ (0 ∷ rest))) argv) (ws ++ words ps)
unfolding parse take_argument
parse-Finds first [] front trail rest argv ws fuel sep started all blanks room enough =
    let gobbled = gobble_lem trail rest 0 blanks refl in
    let here = front ++ replicate (length trail) 0 in
    (
      argv,
      here ++ (0 ∷ rest),
      (
        ap (take_argument (parse fuel) front argv) gobbled,
        subst (Points (here ++ (0 ∷ rest)) argv) (sym (append-nil ws))
            (AllFixed-end front rest argv ws (length trail) all),
      ),
    )
parse-Finds first ((bs, []) ∷ ps) front trail rest argv ws fuel (s, b, (ne, h), sep) started all
      blanks room enough =
    absurd (ne refl)
parse-Finds first ((bs, x ∷ w) ∷ ps) front trail rest argv ws zero sep started all blanks room
      enough =
    absurd (omega arith)
parse-Finds first ((bs, x ∷ w) ∷ ps) front trail rest argv ws (suc fuel)
      (some_blank, b, (ne, h), sep) started all blanks room enough =
    let here = front ++ replicate (length bs) 0 in
    let argv' = argv ++ (length here ∷ []) in
    let ws' = ws ++ ((x ∷ w) ∷ []) in
    let (c, t, (shape, stop)) = boundary ps trail rest sep blanks in
    let word_first : parse (suc (suc fuel)) front
          (bs ++ (x ∷ (w ++ render ps (trail ++ (0 ∷ rest))))) argv
        ≡ parse (suc fuel) (here ++ (x ∷ w)) (render ps (trail ++ (0 ∷ rest))) argv' =
      rw shape (parse-word (suc fuel) x c front bs w t argv b h stop (omega (arith, room))) in
    let all' =
      AllFixed-snoc here (x ∷ w) argv ws
        (AllFixed-word first bs (x ∷ w) front argv ws some_blank started all) in
    let (os, buf, (e, strings)) =
      parse-Finds false ps (here ++ (x ∷ w)) trail rest argv' ws' fuel sep tt all' blanks
        (omega (arith, room, length-append argv (length here ∷ []))) (omega (arith, enough)) in
    (
      os,
      buf,
      (word_first ∙ e, subst (Points buf os) (append_assoc ws ((x ∷ w) ∷ []) (words ps)) strings),
    )

-- A command of at most 15 words is parsed into them: the entries of argv point to strings in the
-- buffer that are the words, in order. Blanks stand before each word but perhaps the first, blanks
-- may stand behind the last, and then a NUL, behind which anything may be.
pub parse-words :
    (ps : List Piece) (trail rest : List ℕ)
    → Separated true ps
    → Blanks trail
    → length ps < maxargs
    → Finds (parse maxargs [] (render ps (trail ++ (0 ∷ rest))) []) (words ps)
parse-words ps trail rest sep blanks few =
    parse-Finds true ps [] trail rest [] [] 15 sep (refl, refl) (λ t. tt) blanks
      (omega (arith, few)) (omega (arith, few))

-- The round that finds one word more than there is room for.
parse-full :
    (fuel x c : ℕ) (front bs w t argv : List ℕ)
    → Blanks bs
    → All (λ c. is_word c ≡ true) (x ∷ w)
    → length argv ≡ maxargs - 1
    → parse (suc fuel) front (bs ++ (x ∷ (w ++ (c ∷ t)))) argv ≡ some too_many
unfolding parse take_argument
parse-full fuel x c front bs w t argv blanks (hx, hw) full =
    let (not_blank, not_nul) = word_facts x hx in
    let test : (length argv == maxargs - 1) ≡ true = ground arith in
    ap (take_argument (parse fuel) front argv) (gobble_lem bs (w ++ (c ∷ t)) x blanks not_blank)
    ∙ rw (not_nul, test) refl

parse-many :
    (first : Bool) (ps : List Piece) (front trail rest argv : List ℕ) (fuel : ℕ)
    → Separated first ps
    → Blanks trail
    → length argv < maxargs
    → maxargs ≤ length argv + length ps
    → maxargs ≤ length argv + suc fuel
    → parse (suc fuel) front (render ps (trail ++ (0 ∷ rest))) argv ≡ some too_many
parse-many first [] front trail rest argv fuel sep blanks room many enough = absurd (omega arith)
parse-many first ((bs, []) ∷ ps) front trail rest argv fuel (s, b, (ne, h), sep) blanks room many
      enough =
    absurd (ne refl)
parse-many first ((bs, x ∷ w) ∷ ps) front trail rest argv zero (s, b, (ne, h), sep) blanks room many
      enough =
    let (c, t, (shape, stop)) = boundary ps trail rest sep blanks in
    rw shape (parse-full 0 x c front bs w t argv b h (omega (arith, room, enough)))
parse-many first ((bs, x ∷ w) ∷ ps) front trail rest argv (suc fuel) (s, b, (ne, h), sep) blanks
      room many enough =
    let here = front ++ replicate (length bs) 0 in
    let argv' = argv ++ (length here ∷ []) in
    let longer = length-append argv (length here ∷ []) in
    let (c, t, (shape, stop)) = boundary ps trail rest sep blanks in
    elim (ℕ_discrete (length argv) (maxargs - 1)) [
      | yes full ↦ rw shape (parse-full (suc fuel) x c front bs w t argv b h full)
      | no not_full ↦
          let step : parse (suc (suc fuel)) front
                (bs ++ (x ∷ (w ++ render ps (trail ++ (0 ∷ rest))))) argv
              ≡ parse (suc fuel) (here ++ (x ∷ w)) (render ps (trail ++ (0 ∷ rest))) argv' =
            rw shape (
              parse-word (suc fuel) x c front bs w t argv b h stop
                (omega (arith, not_full, room))) in
          step
          ∙ parse-many false ps (here ++ (x ∷ w)) trail rest argv' fuel sep blanks
              (omega (arith, longer, not_full, room)) (omega (arith, longer, many))
              (omega (arith, longer, enough))
    ]

-- runcmd reports a command of more than 15 words as having too many arguments, and runs nothing.
-- The words are separated by blanks; blanks may stand before and behind them.
pub runcmd_refuses :
    (ps : List Piece) (trail rest : List ℕ)
    → Separated true ps
    → Blanks trail
    → maxargs ≤ length ps
    → runcmd (render ps (trail ++ (0 ∷ rest))) ≡ some too_many_arguments
unfolding runcmd
runcmd_refuses ps trail rest sep blanks many =
    ap (λ r. r >>= dispatch command_names)
      (parse-many true ps [] trail rest [] 15 sep blanks (omega arith) (omega (arith, many))
        (omega arith))
