-- ===== src/Strings/Copy.antt =====
-- lib/string.c: strcpy, strcat, strncpy and strlcpy. Each returns the destination's object after
-- the call, `strlcpy` with the number it returns beside it. Source and destination do not overlap.
use tp_prom.Prelude.{
  ℕ, zero, suc, ◌+◌, ◌-◌, ◌≤◌, ◌<◌, ◌≡◌, refl, Option, none, some, List, [], ◌∷◌, ◌++◌, ◌==◌,
  if◌then◌else◌, ◌>>=◌, arith, length, min, take, drop, replicate, take-nil,
}
use tp_prom.Strings.Scan.{c_string, NoNul, strlen, strlen-c_string}

-- `*dst++ = c`, in front of what the later writes leave.
abbrev stored : ℕ → Option (List ℕ) → Option (List ℕ)
stored c none = none
stored c (some dst) = some (c ∷ dst)

pub strcpy : List ℕ → List ℕ → Option (List ℕ)
strcpy dst [] = none
strcpy [] (c ∷ src) = none
strcpy (d ∷ dst) (c ∷ src) = if c == 0 then some (0 ∷ dst) else stored c (strcpy dst src)

-- The bytes in front of `dst + len` stay.
pub strcat : List ℕ → List ℕ → Option (List ℕ)
strcat dst src = do len ← strlen dst; tail ← strcpy (drop len dst) src; some (take len dst ++ tail)

abbrev next : ℕ → List ℕ → List ℕ
next c src = if c == 0 then c ∷ src else src

pub strncpy : List ℕ → List ℕ → ℕ → Option (List ℕ)
strncpy dst src zero = some dst
strncpy dst [] (suc size) = none
strncpy [] (c ∷ src) (suc size) = none
strncpy (d ∷ dst) (c ∷ src) (suc size) = stored c (strncpy dst (next c src) size)

abbrev counted : ℕ → Option (List ℕ × ℕ) → Option (List ℕ × ℕ)
counted c none = none
counted c (some (dst, n)) = some (c ∷ dst, n + 1)

-- `while (--size > 0 && *src != '\0')`, and the store of the NUL behind it; `k` is `size - 1`.
strlcpy_loop : List ℕ → List ℕ → ℕ → Option (List ℕ × ℕ)
strlcpy_loop [] src k = none
strlcpy_loop (d ∷ dst) src zero = some (0 ∷ dst, 0)
strlcpy_loop (d ∷ dst) [] (suc k) = none
strlcpy_loop (d ∷ dst) (c ∷ src) (suc k) =
    if c == 0 then some (0 ∷ dst, 0) else counted c (strlcpy_loop dst src k)

pub strlcpy : List ℕ → List ℕ → ℕ → Option (List ℕ × ℕ)
unfolding strlcpy_loop
strlcpy dst src zero = some (dst, 0)
strlcpy dst src (suc size) = strlcpy_loop dst src size

-- Where the destination has room for the string and its NUL, `strcpy` writes these and nothing
-- else.
pub strcpy_fits :
    (dst s rest : List ℕ)
    → NoNul s
    → length s < length dst
    → strcpy dst (c_string s rest) ≡ some (s ++ (0 ∷ drop (length s + 1) dst))
unfolding strcpy
strcpy_fits [] s rest h room = absurd (omega arith)
strcpy_fits (d ∷ dst) [] rest h room = refl
strcpy_fits (d ∷ dst) (c ∷ s) rest (h, t) room = ground (arith, strcpy_fits dst s rest t)

-- Where it has not, `strcpy` writes past the end of the destination.
pub strcpy_overflow :
    (dst s rest : List ℕ) → NoNul s → length dst ≤ length s → strcpy dst (c_string s rest) ≡ none
unfolding strcpy
strcpy_overflow [] [] rest h small = refl
strcpy_overflow [] (c ∷ s) rest h small = refl
strcpy_overflow (d ∷ dst) [] rest h small = absurd (omega arith)
strcpy_overflow (d ∷ dst) (c ∷ s) rest (h, t) small = ground (arith, strcpy_overflow dst s rest t)

take_front : (s t : List ℕ) → take (length s) (s ++ t) ≡ s
take_front [] t = refl
take_front (x ∷ s) t = ground (arith, take_front s t)

drop_front : (s t : List ℕ) → drop (length s) (s ++ t) ≡ t
drop_front [] t = refl
drop_front (x ∷ s) t = drop_front s t

-- `strcat` puts the second string and a NUL behind the first, and writes nothing else, where the
-- destination has room for them.
pub strcat_fits :
    (d s behind rest : List ℕ)
    → NoNul d
    → NoNul s
    → length s ≤ length behind
    → strcat (c_string d behind) (c_string s rest) ≡ some (d ++ (s ++ (0 ∷ drop (length s) behind)))
unfolding strcat
strcat_fits d s behind rest hd hs room =
    rw (strlen-c_string d behind hd, drop_front d (0 ∷ behind), take_front d (0 ∷ behind))
      (rw (strcpy_fits (0 ∷ behind) s rest hs (omega arith)) (ground arith))

-- With a size up to the length of the destination, `strncpy` writes the first characters of the
-- string, NULs for what it lacks of the size, and nothing else.
pub strncpy_lem :
    (dst s rest : List ℕ) (size : ℕ)
    → NoNul s
    → size ≤ length dst
    → strncpy dst (c_string s rest) size
      ≡ some (take size s ++ (replicate (size - length s) 0 ++ drop size dst))
unfolding strncpy
strncpy_lem dst s rest zero h room = ground arith
strncpy_lem [] s rest (suc size) h room = absurd (omega arith)
strncpy_lem (d ∷ dst) [] rest (suc size) h room =
    let pad : suc size - 0 ≡ suc (size - 0) = omega arith in
    rw pad (ground (arith, strncpy_lem dst [] rest size tt, take-nil ℕ size))
strncpy_lem (d ∷ dst) (c ∷ s) rest (suc size) (h, t) room =
    ground (arith, strncpy_lem dst s rest size t)

strlcpy_loop_lem :
    (dst s rest : List ℕ) (k : ℕ)
    → NoNul s
    → k < length dst
    → strlcpy_loop dst (c_string s rest) k
      ≡ some (take k s ++ (0 ∷ drop (min k (length s) + 1) dst), min k (length s))
unfolding strlcpy_loop
strlcpy_loop_lem [] s rest k h room = absurd (omega arith)
strlcpy_loop_lem (d ∷ dst) s rest zero h room = ground arith
strlcpy_loop_lem (d ∷ dst) [] rest (suc k) h room = ground arith
strlcpy_loop_lem (d ∷ dst) (c ∷ s) rest (suc k) (h, t) room =
    ground (arith, strlcpy_loop_lem dst s rest k t)

-- With a size from 1 up to the length of the destination, `strlcpy` writes the first characters of
-- the string, fewer than the size, and a NUL behind them, and nothing else; it returns how many
-- characters it copied.
pub strlcpy_lem :
    (dst s rest : List ℕ) (size : ℕ)
    → NoNul s
    → suc size ≤ length dst
    → strlcpy dst (c_string s rest) (suc size)
      ≡ some (take size s ++ (0 ∷ drop (min size (length s) + 1) dst), min size (length s))
unfolding strlcpy
strlcpy_lem dst s rest size h room = strlcpy_loop_lem dst s rest size h room
