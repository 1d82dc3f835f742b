-- ===== src/Strings/Fill.antt =====
-- lib/string.c: memset and memfind, over the memory of Strings/Memory.
use tp_prom.Prelude.{
  ℕ, zero, suc, ◌+◌, ◌*◌, ◌/◌, ◌%◌, ◌≤◌, ◌<◌, ◌≡◌, ◌≢◌, ◌⊎◌, ◌&&◌, ltb, leb, ◌==◌, if◌then◌else◌,
  arith, Bool-cases, inl, inr,
}
use tp_prom.Strings.Memory.{Mem, store}

-- `rep stosb` and `rep stosl`; a word is stored with its low byte first.
stosb : ℕ → ℕ → ℕ → Mem → Mem
stosb zero p c m = m
stosb (suc n) p c m = stosb n (p + 1) c (store m p (c % 256))

abbrev store_word : Mem → ℕ → ℕ → Mem
store_word m p w =
    store
      (store (store (store m p (w % 256)) (p + 1) (w / 0x100 % 256)) (p + 2) (w / 0x1_0000 % 256))
      (p + 3) (w / 0x100_0000 % 256)

stosl : ℕ → ℕ → ℕ → Mem → Mem
stosl zero p w m = m
stosl (suc n) p w m = stosl n (p + 4) w (store_word m p w)

-- `c` four times over. The bytes do not overlap, so that `|` is a sum.
abbrev spread : ℕ → ℕ
spread c = c * 0x100_0000 + c * 0x1_0000 + c * 0x100 + c

pub memset : ℕ → ℕ → ℕ → Mem → Mem
memset v c zero m = m
memset v c (suc k) m =
    let n = suc k in
    if (v % 4 == 0) && (n % 4 == 0) then stosl (n / 4) v (spread (c % 256)) m else stosb n v c m

-- `for (; s < ends; s++)` over the `n` bytes from `s` on; the result is the last `s`.
pub memfind : Mem → ℕ → ℕ → ℕ → ℕ
memfind m s c zero = s
memfind m s c (suc n) = if m s == c % 256 then s else memfind m (s + 1) c n

-- In memory `m'` the `n` bytes at `v` are `c`, and all else is as it was.
abbrev pub Filled : ℕ → ℕ → ℕ → Mem → Mem → Type 0
Filled v c n m m' = (a : ℕ) → m' a ≡ (if leb v a && ltb a (v + n) then c else m a)

pub fill_more :
    (k n v c : ℕ) (m mid m' : Mem)
    → Filled v c k m mid
    → Filled (v + k) c n mid m'
    → Filled v c (k + n) m m'
fill_more k n v c m mid m' first rest a = ground (arith, rest a, first a)

stosb-Filled : (n v c : ℕ) (m : Mem) → Filled v (c % 256) n m (stosb n v c m)
unfolding stosb
stosb-Filled zero v c m = λ a. ground arith
stosb-Filled (suc n) v c m =
    let one : suc n ≡ 1 + n = omega arith in
    rw one (
      fill_more 1 n v (c % 256) m (store m v (c % 256)) (stosb n (v + 1) c (store m v (c % 256)))
        (λ a. ground arith) (stosb-Filled n (v + 1) c (store m v (c % 256))))

store_word-Filled : (v c : ℕ) (m : Mem) → c < 256 → Filled v c 4 m (store_word m v (spread c))
store_word-Filled v c m h a = ground arith

stosl-Filled : (n v c : ℕ) (m : Mem) → c < 256 → Filled v c (4 * n) m (stosl n v (spread c) m)
unfolding stosl
stosl-Filled zero v c m h = λ a. ground arith
stosl-Filled (suc n) v c m h =
    let four : 4 * suc n ≡ 4 + 4 * n = omega arith in
    let word = store_word m v (spread c) in
    rw four (
      fill_more 4 (4 * n) v c m word (stosl n (v + 4) (spread c) word) (store_word-Filled v c m h)
        (stosl-Filled n (v + 4) c word h))

-- `memset` fills the block with the low byte of `c`, by words or by bytes, and nothing else.
pub memset-Filled : (v c n : ℕ) (m : Mem) → Filled v (c % 256) n m (memset v c n m)
unfolding memset
memset-Filled v c zero m = λ a. ground arith
memset-Filled v c (suc k) m = elim (Bool-cases ((v % 4 == 0) && (suc k % 4 == 0))) [
  | inr bytes ↦ rw bytes (stosb-Filled (suc k) v c m)
  | inl words ↦
      let exact : 4 * (suc k / 4) ≡ suc k = ground arith in
      rw words (rw exact at (stosl-Filled (suc k / 4) v (c % 256) m (omega arith)))
]

-- `memfind` stops at the first byte of the block that is the low byte of `c`, or at the end of the
-- block, and no byte before is.
pub memfind_lem :
    (m : Mem) (s c n : ℕ)
    → (s ≤ memfind m s c n)
      × (memfind m s c n ≤ s + n)
      × ((a : ℕ) → s ≤ a → a < memfind m s c n → m a ≢ c % 256)
      × ((memfind m s c n ≡ s + n) ⊎ (m (memfind m s c n) ≡ c % 256))
unfolding memfind
memfind_lem m s c zero = (omega arith, omega arith, λ a p q. absurd (omega arith), omega arith)
memfind_lem m s c (suc n) =
    let (from, to, before, at_end) = memfind_lem m (s + 1) c n in
    elim (Bool-cases (m s == c % 256)) [
      | inl found ↦
          rw found (omega arith, omega arith, λ a p q. absurd (omega arith), inr (ground arith))
      | inr other ↦
          rw other (omega arith, omega arith, λ a p q. ground (arith, before a), ground arith)
    ]
