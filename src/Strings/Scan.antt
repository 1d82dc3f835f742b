-- ===== src/Strings/Scan.antt =====
-- lib/string.c: the functions that walk one string, strlen, strnlen, strchr and strfind.
use tp_prom.Prelude.{
  ℕ, zero, suc, ◌+◌, ◌≡◌, ◌≢◌, refl, ◌∙◌, Option, none, some, List, [], ◌∷◌, ◌++◌, ◌==◌,
  if◌then◌else◌, arith, length, min, All, ap,
}

-- A string of C with these characters, and what lies behind its NUL.
abbrev pub c_string : List ℕ → List ℕ → List ℕ
c_string s rest = s ++ (0 ∷ rest)

abbrev pub NoNul : List ℕ → Type 0
NoNul s = All (λ c. c ≢ 0) s

strlen_from : ℕ → List ℕ → Option ℕ
strlen_from n [] = none
strlen_from n (c ∷ s) = if c == 0 then some n else strlen_from (n + 1) s

pub strlen : List ℕ → Option ℕ
strlen s = strlen_from 0 s

strnlen_from : ℕ → ℕ → List ℕ → Option ℕ
strnlen_from n zero s = some n
strnlen_from n (suc size) [] = none
strnlen_from n (suc size) (c ∷ s) = if c == 0 then some n else strnlen_from (n + 1) size s

pub strnlen : List ℕ → ℕ → Option ℕ
strnlen s size = strnlen_from 0 size s

-- The inner `none` is the null pointer.
unfoldable pub strchr : List ℕ → ℕ → Option (Option (List ℕ))
strchr [] c = none
strchr (x ∷ s) c = if x == 0 then some none else if x == c then some (some (x ∷ s)) else strchr s c

unfoldable pub strfind : List ℕ → ℕ → Option (List ℕ)
strfind [] c = none
strfind (x ∷ s) c = if x == 0 then some (x ∷ s) else if x == c then some (x ∷ s) else strfind s c

strlen_from-c_string :
    (s rest : List ℕ) (n : ℕ) → NoNul s → strlen_from n (c_string s rest) ≡ some (n + length s)
unfolding strlen_from
strlen_from-c_string [] rest n h = ground arith
strlen_from-c_string (c ∷ s) rest n (h, t) = ground (arith, strlen_from-c_string s rest (n + 1) t)

-- `strlen` returns the number of characters in front of the NUL.
pub strlen-c_string : (s rest : List ℕ) → NoNul s → strlen (c_string s rest) ≡ some (length s)
unfolding strlen
strlen-c_string s rest h = strlen_from-c_string s rest 0 h ∙ ap some (omega arith)

strnlen_from-c_string :
    (s rest : List ℕ) (n size : ℕ)
    → NoNul s
    → strnlen_from n size (c_string s rest) ≡ some (n + min size (length s))
unfolding strnlen_from
strnlen_from-c_string s rest n zero h = ap some (omega arith)
strnlen_from-c_string [] rest n (suc size) h = ground arith
strnlen_from-c_string (c ∷ s) rest n (suc size) (h, t) =
    ground (arith, strnlen_from-c_string s rest (n + 1) size t)

-- `strnlen` returns that number, or the bound, if that is less.
pub strnlen-c_string :
    (s rest : List ℕ) (size : ℕ)
    → NoNul s
    → strnlen (c_string s rest) size ≡ some (min size (length s))
unfolding strnlen
strnlen-c_string s rest size h = strnlen_from-c_string s rest 0 size h ∙ ap some (omega arith)

-- A string with the character after a part without it, or a string without it.
abbrev pub Lacks : ℕ → List ℕ → Type 0
Lacks c s = All (λ x. x ≢ c) s

pub strchr_found :
    (s t : List ℕ) (c : ℕ)
    → c ≢ 0
    → NoNul s
    → Lacks c s
    → strchr (s ++ (c ∷ t)) c ≡ some (some (c ∷ t))
unfolding strchr
strchr_found [] t c nz h k = ground arith
strchr_found (x ∷ s) t c nz (h, hs) (k, ks) = ground (arith, strchr_found s t c nz hs ks)

pub strchr_missing :
    (s rest : List ℕ) (c : ℕ) → NoNul s → Lacks c s → strchr (c_string s rest) c ≡ some none
unfolding strchr
strchr_missing [] rest c h k = refl
strchr_missing (x ∷ s) rest c (h, hs) (k, ks) = ground (arith, strchr_missing s rest c hs ks)

pub strfind_found :
    (s t : List ℕ) (c : ℕ) → c ≢ 0 → NoNul s → Lacks c s → strfind (s ++ (c ∷ t)) c ≡ some (c ∷ t)
unfolding strfind
strfind_found [] t c nz h k = ground arith
strfind_found (x ∷ s) t c nz (h, hs) (k, ks) = ground (arith, strfind_found s t c nz hs ks)

pub strfind_missing :
    (s rest : List ℕ) (c : ℕ) → NoNul s → Lacks c s → strfind (c_string s rest) c ≡ some (0 ∷ rest)
unfolding strfind
strfind_missing [] rest c h k = refl
strfind_missing (x ∷ s) rest c (h, hs) (k, ks) = ground (arith, strfind_missing s rest c hs ks)
