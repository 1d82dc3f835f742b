-- ===== src/Strings/Compare.antt =====
-- lib/string.c: strcmp, strncmp and memcmp, against the lexicographic order of the bytes.
use tp_prom.Prelude.{
  ℕ, zero, suc, ◌≤◌, ◌≡◌, ◌↔◌, refl, ◌&&◌, not, Option, none, some, List, [], ◌∷◌, ◌==◌,
  if◌then◌else◌, arith, length, take, ltb,
}
use tp_prom.Prelude.Int.{ℤ, pos, negsuc, sub_ℕ}
use tp_prom.Strings.Scan.{c_string, NoNul}

-- `while (*p && *p == *q)`, then the difference of the bytes.
unfoldable pub strcmp : List ℕ → List ℕ → Option ℤ
strcmp [] q = none
strcmp (x ∷ p) [] = none
strcmp (x ∷ p) (y ∷ q) = if not (x == 0) && x == y then strcmp p q else some (sub_ℕ x y)

pub strncmp : List ℕ → List ℕ → ℕ → Option ℤ
strncmp p q zero = some (pos 0)
strncmp [] q (suc n) = none
strncmp (x ∷ p) [] (suc n) = none
strncmp (x ∷ p) (y ∷ q) (suc n) = if not (x == 0) && x == y then strncmp p q n else some (sub_ℕ x y)

pub memcmp : List ℕ → List ℕ → ℕ → Option ℤ
memcmp p q zero = some (pos 0)
memcmp [] q (suc n) = none
memcmp (x ∷ p) [] (suc n) = none
memcmp (x ∷ p) (y ∷ q) (suc n) = if x == y then memcmp p q n else some (sub_ℕ x y)

pub data Order : Type 0 where
  below same above : Order

-- The lexicographic order, in which a proper beginning of a string is below it.
pub lexicographic : List ℕ → List ℕ → Order
lexicographic [] [] = same
lexicographic [] (y ∷ t) = below
lexicographic (x ∷ s) [] = above
lexicographic (x ∷ s) (y ∷ t) =
    if ltb x y then below else if ltb y x then above else lexicographic s t

-- What the sign of the result says.
abbrev pub sign : ℤ → Order
sign (pos zero) = same
sign (pos (suc n)) = above
sign (negsuc n) = below

-- `strcmp` ends on strings, and the sign of its result is the lexicographic order.
pub strcmp-lexicographic :
    (s t rest rest' : List ℕ)
    → NoNul s
    → NoNul t
    → (r : ℤ) × (strcmp (c_string s rest) (c_string t rest') ≡ some r)
      × (sign r ≡ lexicographic s t)
unfolding strcmp lexicographic
strcmp-lexicographic [] [] rest rest' hs ht = (pos 0, ground arith, refl)
strcmp-lexicographic [] (y ∷ t) rest rest' hs (h, ht) = (sub_ℕ 0 y, ground arith, ground arith)
strcmp-lexicographic (x ∷ s) [] rest rest' (h, hs) ht = (sub_ℕ x 0, ground arith, ground arith)
strcmp-lexicographic (x ∷ s) (y ∷ t) rest rest' (hx, hs) (hy, ht) =
    let (r, e, o) = strcmp-lexicographic s t rest rest' hs ht in
    (if x == y then r else sub_ℕ x y, ground arith, ground arith)

-- `strncmp` ends on strings, and the sign of its result is the lexicographic order of their first
-- `n` characters.
pub strncmp-lexicographic :
    (s t rest rest' : List ℕ) (n : ℕ)
    → NoNul s
    → NoNul t
    → (r : ℤ) × (strncmp (c_string s rest) (c_string t rest') n ≡ some r)
      × (sign r ≡ lexicographic (take n s) (take n t))
unfolding strncmp lexicographic
strncmp-lexicographic s t rest rest' zero hs ht = (pos 0, refl, refl)
strncmp-lexicographic [] [] rest rest' (suc n) hs ht = (pos 0, ground arith, refl)
strncmp-lexicographic [] (y ∷ t) rest rest' (suc n) hs (h, ht) =
    (sub_ℕ 0 y, ground arith, ground arith)
strncmp-lexicographic (x ∷ s) [] rest rest' (suc n) (h, hs) ht =
    (sub_ℕ x 0, ground arith, ground arith)
strncmp-lexicographic (x ∷ s) (y ∷ t) rest rest' (suc n) (hx, hs) (hy, ht) =
    let (r, e, o) = strncmp-lexicographic s t rest rest' n hs ht in
    (if x == y then r else sub_ℕ x y, ground arith, ground arith)

-- On two blocks of at least `n` bytes, NULs included, `memcmp` ends, and the sign of its result is
-- the lexicographic order of their first `n` bytes.
pub memcmp-lexicographic :
    (p q : List ℕ) (n : ℕ)
    → n ≤ length p
    → n ≤ length q
    → (r : ℤ) × (memcmp p q n ≡ some r) × (sign r ≡ lexicographic (take n p) (take n q))
unfolding memcmp lexicographic
memcmp-lexicographic p q zero hp hq = (pos 0, refl, refl)
memcmp-lexicographic [] q (suc n) hp hq = absurd (omega arith)
memcmp-lexicographic (x ∷ p) [] (suc n) hp hq = absurd (omega arith)
memcmp-lexicographic (x ∷ p) (y ∷ q) (suc n) hp hq =
    let (r, e, o) = memcmp-lexicographic p q n (omega arith) (omega arith) in
    (if x == y then r else sub_ℕ x y, ground arith, ground arith)

lexicographic_same : (s t : List ℕ) → lexicographic s t ≡ same → s ≡ t
unfolding lexicographic
lexicographic_same [] [] h = refl
lexicographic_same [] (y ∷ t) h = cc
lexicographic_same (x ∷ s) [] h = cc
lexicographic_same (x ∷ s) (y ∷ t) h = ground (arith, lexicographic_same s t)

lexicographic_refl : (s : List ℕ) → lexicographic s s ≡ same
unfolding lexicographic
lexicographic_refl [] = refl
lexicographic_refl (x ∷ s) = ground (arith, lexicographic_refl s)

-- `strcmp` of two strings is 0 exactly if the strings are equal.
pub strcmp_zero :
    (s t rest rest' : List ℕ)
    → NoNul s
    → NoNul t
    → (strcmp (c_string s rest) (c_string t rest') ≡ some (pos 0)) ↔ (s ≡ t)
strcmp_zero s t rest rest' hs ht =
    let (r, e, o) = strcmp-lexicographic s t rest rest' hs ht in
    (
      λ zero_result. lexicographic_same s t (ground (arith, zero_result, e, o)),
      λ equal. ground (arith, equal, e, o, lexicographic_refl s),
    )
