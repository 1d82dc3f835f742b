-- ===== src/Readline/Edit.antt =====
-- The text that readline returns, as the editing of a list.
use tp_prom.Prelude.{
  ℕ, zero, suc, ◌+◌, ◌-◌, ◌%◌, ◌≤◌, ◌<◌, ◌≡◌, refl, subst, ap, sym, ◌∙◌, Bool, true, false, not,
  ◌&&◌, ◌||◌, Option, none, some, List, [], ◌∷◌, ◌++◌, ◌==◌, ltb, leb, set, take, length,
  length-set, length-take, get_or, get_or-set_self, if◌then◌else◌, Bool-cases, inl, inr, arith,
}
use tp_prom.Prelude.Int.{ℤ, pos, negsuc}
use tp_prom.Readline.{buffer_length, Line, Result, returned, erase, append, read_loop, readline}

-- The text after one character that does not end the line: backspace and delete take the last
-- character away, if there is one; a printable character is added, up to 1023 of them.
abbrev pub is_erasing : ℕ → List ℕ → Bool
is_erasing c text = (c == 8 || c == 127) && ltb 0 (length text)

abbrev pub is_adding : ℕ → List ℕ → Bool
is_adding c text = leb 32 c && ltb (length text) 1023

abbrev pub edited : ℕ → List ℕ → List ℕ
edited c text =
    if is_erasing c text
    then take (length text - 1) text
    else if is_adding c text
    then text ++ (c % 256 ∷ [])
    else text

-- A new line or carriage return ends the line.
abbrev pub ends : ℕ → List ℕ → Bool
ends c text = not (is_erasing c text) && (not (is_adding c text) && (c == 10 || c == 13))

-- The text of the line that the input holds, if it holds all of it and no read error before its end.
abbrev pub line_of : List ℤ → List ℕ → Option (List ℕ)
line_of [] text = none
line_of (negsuc n ∷ cs) text = none
line_of (pos c ∷ cs) text =
    let rest = line_of cs (edited c text) in if ends c text then some text else rest

-- `text` is what the buffer holds before `i`.
record Holds (text : List ℕ) (l : Line) : Type 0 where
  size : length l.buf ≡ buffer_length
  prefix : take l.i l.buf ≡ text
  bound : l.i < buffer_length

take-set :
    (xs : List ℕ) (i v : ℕ) → i < length xs → take (suc i) (set xs i v) ≡ take i xs ++ (v ∷ [])
take-set [] i v h = absurd (omega arith)
take-set (x ∷ xs) zero v h = refl
take-set (x ∷ xs) (suc i) v h = ap (λ l. x ∷ l) (take-set xs i v (omega arith))

take-set_same : (xs : List ℕ) (i v : ℕ) → take i (set xs i v) ≡ take i xs
take-set_same [] i v = refl
take-set_same (x ∷ xs) zero v = refl
take-set_same (x ∷ xs) (suc i) v = ap (λ l. x ∷ l) (take-set_same xs i v)

take-take : (xs : List ℕ) (i j : ℕ) → i ≤ j → take i (take j xs) ≡ take i xs
take-take xs zero j h = refl
take-take [] (suc i) zero h = absurd (omega arith)
take-take (x ∷ xs) (suc i) zero h = absurd (omega arith)
take-take [] (suc i) (suc j) h = refl
take-take (x ∷ xs) (suc i) (suc j) h = ap (λ l. x ∷ l) (take-take xs i j (omega arith))

module _ (text : List ℕ) (l : Line) (v : Holds text l) where
  length-Holds : length text ≡ l.i
  length-Holds =
      let size = v.size in
      let bound = v.bound in omega (arith, ap length (v.prefix), length-take l.i l.buf, size, bound)

  erase-Holds : (echoing : Bool) → Holds (take (length text - 1) text) (erase echoing l)
  erase-Holds echoing =
      let bound = v.bound in
      let fewer : l.i - 1 ≡ length text - 1 = omega (arith, length-Holds) in
      record {
        size = v.size;
        prefix =
            sym (take-take l.buf (l.i - 1) l.i (omega arith))
            ∙ ap (take (l.i - 1)) (v.prefix)
            ∙ ap (λ n. take n text) fewer;
        bound = omega (arith, bound);
      }

  append-Holds :
      (echoing : Bool) (c : ℕ) → l.i < 1023 → Holds (text ++ (c % 256 ∷ [])) (append echoing c l)
  append-Holds echoing c room =
      let size = v.size in
      let one : l.i + 1 ≡ suc l.i = omega arith in
      record {
        size = length-set l.buf l.i (c % 256) ∙ size;
        prefix =
            ap (λ n. take n (set l.buf l.i (c % 256))) one
            ∙ take-set l.buf l.i (c % 256) (omega (arith, size))
            ∙ ap (λ t. t ++ (c % 256 ∷ [])) (v.prefix);
        bound = omega (arith, room);
      }

-- What readline returns for the text of a line: a buffer of 1024 bytes, with the text and a NUL
-- behind it.
pub record IsLine (text : List ℕ) (buf : List ℕ) : Type 0 where
  size : length buf ≡ buffer_length
  prefix : take (length text) buf ≡ text
  terminator : get_or buf (length text) 1 ≡ 0
  bound : length text < buffer_length

abbrev pub Reads : Option (List ℕ) → Result → Type 0
Reads (some text) (returned buf out) = IsLine text buf
Reads (some text) r = ⊥
Reads none (returned buf out) = ⊥
Reads none r = Unit

entered_IsLine : (text : List ℕ) (l : Line) → Holds text l → IsLine text (set l.buf l.i 0)
entered_IsLine text l v =
    let size = v.size in
    let bound = v.bound in
    let len = length-Holds text l v in
    record {
      size = length-set l.buf l.i 0 ∙ size;
      prefix = ap (λ n. take n (set l.buf l.i 0)) len ∙ take-set_same l.buf l.i 0 ∙ v.prefix;
      terminator =
          ap (λ n. get_or (set l.buf l.i 0) n 1) len
          ∙ get_or-set_self l.buf l.i 0 1 (omega (arith, size, bound));
      bound = omega (arith, len, bound);
    }

adding_room : (c i : ℕ) → (leb 32 c && ltb i 1023) ≡ true → i < 1023
adding_room c i h = ground arith

read_loop-Reads :
    (echoing : Bool) (input : List ℤ) (text : List ℕ) (l : Line)
    → Holds text l
    → Reads (line_of input text) (read_loop echoing input l)
unfolding read_loop
read_loop-Reads echoing [] text l v = tt
read_loop-Reads echoing (negsuc n ∷ cs) text l v = tt
read_loop-Reads echoing (pos c ∷ cs) text l v =
    let len = length-Holds text l v in
    elim (Bool-cases (is_erasing c text)) [
      | inl e ↦
          let e' : ((c == 8 || c == 127) && ltb 0 l.i) ≡ true =
            subst (λ n. ((c == 8 || c == 127) && ltb 0 n) ≡ true) len e in
          rw (e, e') (read_loop-Reads echoing cs _ _ (erase-Holds text l v echoing))
      | inr e ↦
          let e' : ((c == 8 || c == 127) && ltb 0 l.i) ≡ false =
            subst (λ n. ((c == 8 || c == 127) && ltb 0 n) ≡ false) len e in
          elim (Bool-cases (is_adding c text)) [
            | inl f ↦
                let f' : (leb 32 c && ltb l.i 1023) ≡ true =
                  subst (λ n. (leb 32 c && ltb n 1023) ≡ true) len f in
                rw (e, e', f, f')
                  (read_loop-Reads echoing cs _ _
                    (append-Holds text l v echoing c (adding_room c l.i f')))
            | inr f ↦
                let f' : (leb 32 c && ltb l.i 1023) ≡ false =
                  subst (λ n. (leb 32 c && ltb n 1023) ≡ false) len f in
                elim (Bool-cases (c == 10 || c == 13)) [
                  | inl g ↦ rw (e, e', f, f', g) (entered_IsLine text l v)
                  | inr g ↦ rw (e, e', f, f', g) (read_loop-Reads echoing cs text l v)
                ]
          ]
    ]

-- With its buffer of 1024 bytes, readline returns the buffer exactly if the input holds a line
-- with no read error before its end. The buffer keeps its size; its first bytes are the text of
-- the line, at most 1023 characters, as the editing of the line gives it, and a NUL is behind
-- them.
pub readline-Reads :
    (buf : List ℕ) (prompt : Option (List ℕ)) (input : List ℤ)
    → length buf ≡ buffer_length
    → Reads (line_of input []) (readline buf prompt input)
unfolding readline
readline-Reads buf prompt input size =
    read_loop-Reads true input [] _ (record { size = size; prefix = refl; bound = omega arith })
