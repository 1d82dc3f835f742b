-- ===== src/Strings/Memory.antt =====
-- lib/string.c: memmove and memcpy, with the string instructions of the assembly
-- path. Memory is a function from addresses to bytes; blocks do not wrap round the address space.
use tp_prom.Prelude.{
  ℕ, zero, suc, ◌+◌, ◌-◌, ◌*◌, ◌/◌, ◌%◌, ◌≤◌, ◌<◌, ◌≡◌, Bool, true, false, ◌&&◌, ltb, leb, ◌==◌,
  if◌then◌else◌, arith, Bool-cases, inl, inr, ◌⊎◌,
}

abbrev pub Mem : Type 0
Mem = ℕ → ℕ

abbrev pub store : Mem → ℕ → ℕ → Mem
store m a v b = if b == a then v else m b

-- `rep movsb` with the direction flag clear, and then with it set, from the addresses of the last
-- bytes down.
movsb_up : ℕ → ℕ → ℕ → Mem → Mem
movsb_up zero d s m = m
movsb_up (suc n) d s m = movsb_up n (d + 1) (s + 1) (store m d (m s))

-- The bytes at d + n, .., d are written in this order, each read from s on just before.
movsb_down : ℕ → ℕ → ℕ → Mem → Mem
movsb_down zero d s m = m
movsb_down (suc n) d s m = movsb_down n d s (store m (d + n) (m (s + n)))

-- One little-endian word: four bytes are read before four are written.
abbrev move_word : ℕ → ℕ → Mem → Mem
move_word d s m =
    store (store (store (store m d (m s)) (d + 1) (m (s + 1))) (d + 2) (m (s + 2))) (d + 3)
      (m (s + 3))

movsl_up : ℕ → ℕ → ℕ → Mem → Mem
movsl_up zero d s m = m
movsl_up (suc n) d s m = movsl_up n (d + 4) (s + 4) (move_word d s m)

movsl_down : ℕ → ℕ → ℕ → Mem → Mem
movsl_down zero d s m = m
movsl_down (suc n) d s m = movsl_down n d s (move_word (d + 4 * n) (s + 4 * n) m)

-- Both paths of `memmove`, by the overlap and by the alignment of the block.
pub memmove : ℕ → ℕ → ℕ → Mem → Mem
memmove dst src n m =
    let aligned = (src % 4 == 0) && (dst % 4 == 0) && (n % 4 == 0) in
    if ltb src dst && ltb dst (src + n)
    then (if aligned then movsl_down (n / 4) dst src m else movsb_down n dst src m)
    else (if aligned then movsl_up (n / 4) dst src m else movsb_up n dst src m)

abbrev pub memcpy : ℕ → ℕ → ℕ → Mem → Mem
memcpy dst src n m = memmove dst src n m

-- In memory `m'` the block at `dst` holds what the block at `src` held, and all else is as it was.
abbrev pub Moved : ℕ → ℕ → ℕ → Mem → Mem → Type 0
Moved dst src n m m' =
    (a : ℕ) → m' a ≡ (if leb dst a && ltb a (dst + n) then m (src + (a - dst)) else m a)

-- One byte first, then a block behind it.
pub byte_first :
    (n d s : ℕ) (m m' : Mem)
    → ltb s d && ltb d (s + suc n) ≡ false
    → Moved (d + 1) (s + 1) n (store m d (m s)) m'
    → Moved d s (suc n) m m'
byte_first n d s m m' apart h a = ground (arith, h a)

movsb_up-Moved :
    (n d s : ℕ) (m : Mem) → ltb s d && ltb d (s + n) ≡ false → Moved d s n m (movsb_up n d s m)
unfolding movsb_up
movsb_up-Moved zero d s m apart = λ a. ground arith
movsb_up-Moved (suc n) d s m apart =
    byte_first n d s m (movsb_up n (d + 1) (s + 1) (store m d (m s))) apart
      (movsb_up-Moved n (d + 1) (s + 1) (store m d (m s)) (ground arith))

pub byte_last :
    (n d s : ℕ) (m m' : Mem)
    → s < d
    → Moved d s n (store m (d + n) (m (s + n))) m'
    → Moved d s (suc n) m m'
byte_last n d s m m' above h a = ground (arith, h a)

movsb_down-Moved : (n d s : ℕ) (m : Mem) → s < d → Moved d s n m (movsb_down n d s m)
unfolding movsb_down
movsb_down-Moved zero d s m above = λ a. ground arith
movsb_down-Moved (suc n) d s m above =
    byte_last n d s m (movsb_down n d s (store m (d + n) (m (s + n)))) above
      (movsb_down-Moved n d s (store m (d + n) (m (s + n))) above)

move_word-Moved : (d s : ℕ) (m : Mem) → Moved d s 4 m (move_word d s m)
move_word-Moved d s m a = ground arith

-- A block of words, and the word in front of it, where the two do not overlap at a part of a word.
abbrev Clear : ℕ → ℕ → ℕ → Type 0
Clear d s n = (s ≡ d) ⊎ ((d + 4 ≤ s) ⊎ (s + n ≤ d))

word_first :
    (n d s : ℕ) (m mid m' : Mem)
    → Clear d s (4 + n)
    → Moved d s 4 m mid
    → Moved (d + 4) (s + 4) n mid m'
    → Moved d s (4 + n) m m'
word_first n d s m mid m' apart w h a = ground (arith, h a, w a, w (s + (a - d)))

movsl_up-Moved : (n d s : ℕ) (m : Mem) → Clear d s (4 * n) → Moved d s (4 * n) m (movsl_up n d s m)
unfolding movsl_up
movsl_up-Moved zero d s m apart = λ a. ground arith
movsl_up-Moved (suc n) d s m apart =
    let four : 4 * suc n ≡ 4 + 4 * n = omega arith in
    rw four (
      word_first (4 * n) d s m (move_word d s m) (movsl_up n (d + 4) (s + 4) (move_word d s m))
        (omega arith) (move_word-Moved d s m)
        (movsl_up-Moved n (d + 4) (s + 4) (move_word d s m) (omega arith)))

word_last :
    (n d s : ℕ) (m mid m' : Mem)
    → s + 4 ≤ d
    → Moved (d + n) (s + n) 4 m mid
    → Moved d s n mid m'
    → Moved d s (4 + n) m m'
word_last n d s m mid m' above w h a = ground (arith, h a, w a, w (s + (a - d)))

movsl_down-Moved : (n d s : ℕ) (m : Mem) → s + 4 ≤ d → Moved d s (4 * n) m (movsl_down n d s m)
unfolding movsl_down
movsl_down-Moved zero d s m above = λ a. ground arith
movsl_down-Moved (suc n) d s m above =
    let four : 4 * suc n ≡ 4 + 4 * n = omega arith in
    let word = move_word (d + 4 * n) (s + 4 * n) m in
    rw four (
      word_last (4 * n) d s m word (movsl_down n d s word) above
        (move_word-Moved (d + 4 * n) (s + 4 * n) m) (movsl_down-Moved n d s word above))

overlaps : ℕ → ℕ → ℕ → Bool
overlaps dst src n = ltb src dst && ltb dst (src + n)

whole_words :
    (n dst src : ℕ) (m m' : Mem)
    → (n % 4 == 0) ≡ true
    → Moved dst src (4 * (n / 4)) m m'
    → Moved dst src n m m'
whole_words n dst src m m' even h = let exact : 4 * (n / 4) ≡ n = ground arith in rw exact at h

-- `memmove` moves the block, whether or not source and destination overlap, on each of its four
-- paths, and changes no byte outside the destination.
pub memmove-Moved : (dst src n : ℕ) (m : Mem) → Moved dst src n m (memmove dst src n m)
unfolding memmove
memmove-Moved dst src n m = elim (Bool-cases (ltb src dst && ltb dst (src + n))) [
  | inl over ↦ elim (Bool-cases ((src % 4 == 0) && (dst % 4 == 0) && (n % 4 == 0))) [
    | inl words ↦
        rw (over, words)
          (whole_words n dst src m _ (ground arith)
            (movsl_down-Moved (n / 4) dst src m (ground arith)))
    | inr bytes ↦ rw (over, bytes) (movsb_down-Moved n dst src m (ground arith))
  ]
  | inr clear ↦ elim (Bool-cases ((src % 4 == 0) && (dst % 4 == 0) && (n % 4 == 0))) [
    | inl words ↦
        rw (clear, words)
          (whole_words n dst src m _ (ground arith)
            (movsl_up-Moved (n / 4) dst src m (ground arith)))
    | inr bytes ↦ rw (clear, bytes) (movsb_up-Moved n dst src m clear)
  ]
]
