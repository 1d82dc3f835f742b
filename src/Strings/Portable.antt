-- ===== src/Strings/Portable.antt =====
-- lib/string.c: memset and memmove of the path without assembly, over the memory of Strings/Memory.
use tp_prom.Prelude.{
  ℕ, zero, suc, ◌+◌, ◌-◌, ◌^◌, ◌%◌, ◌<◌, ◌≡◌, ◌&&◌, sym, ◌∙◌, ltb, lt→ltb, if◌then◌else◌, arith,
  Bool-cases, inl, inr, false,
}
use tp_prom.Strings.Memory.{Mem, store, Moved, byte_first, byte_last, memmove, memmove-Moved}
use tp_prom.Strings.Fill.{Filled, fill_more, memset, memset-Filled}

-- `while (--m >= 0) *p++ = c`
unfoldable pub set_loop : ℕ → ℕ → ℕ → Mem → Mem
set_loop zero p c mem = mem
set_loop (suc m) p c mem = set_loop m (p + 1) c (store mem p (c % 256))

-- `m` is an `int`: a count of 2 ^ 31 or more is negative there.
unfoldable pub portable_memset : ℕ → ℕ → ℕ → Mem → Mem
portable_memset v c n mem = set_loop (if ltb n (2 ^ 31) then n else 0) v c mem

-- `while (n-- > 0) *--d = *--s`, and `*d++ = *s++`.
unfoldable pub copy_down : ℕ → ℕ → ℕ → Mem → Mem
copy_down zero d s mem = mem
copy_down (suc n) d s mem = copy_down n (d - 1) (s - 1) (store mem (d - 1) (mem (s - 1)))

unfoldable pub copy_up : ℕ → ℕ → ℕ → Mem → Mem
copy_up zero d s mem = mem
copy_up (suc n) d s mem = copy_up n (d + 1) (s + 1) (store mem d (mem s))

unfoldable pub portable_memmove : ℕ → ℕ → ℕ → Mem → Mem
portable_memmove dst src n mem =
    if ltb src dst && ltb dst (src + n)
    then copy_down n (dst + n) (src + n) mem
    else copy_up n dst src mem

set_loop-Filled : (n v c : ℕ) (m : Mem) → Filled v (c % 256) n m (set_loop n v c m)
unfolding set_loop
set_loop-Filled zero v c m = λ a. ground arith
set_loop-Filled (suc n) v c m =
    let one : suc n ≡ 1 + n = omega arith in
    let first = store m v (c % 256) in
    rw one (
      fill_more 1 n v (c % 256) m first (set_loop n (v + 1) c first) (λ a. ground arith)
        (set_loop-Filled n (v + 1) c first))

copy_up-Moved :
    (n d s : ℕ) (m : Mem) → ltb s d && ltb d (s + n) ≡ false → Moved d s n m (copy_up n d s m)
unfolding copy_up
copy_up-Moved zero d s m apart = λ a. ground arith
copy_up-Moved (suc n) d s m apart =
    let first = store m d (m s) in
    byte_first n d s m (copy_up n (d + 1) (s + 1) first) apart
      (copy_up-Moved n (d + 1) (s + 1) first (ground arith))

copy_down-Moved : (n d s : ℕ) (m : Mem) → s < d → Moved d s n m (copy_down n (d + n) (s + n) m)
unfolding copy_down
copy_down-Moved zero d s m above = λ a. ground arith
copy_down-Moved (suc n) d s m above =
    let at_d : d + suc n - 1 ≡ d + n = omega arith in
    let at_s : s + suc n - 1 ≡ s + n = omega arith in
    let last = store m (d + n) (m (s + n)) in
    rw at_d (
      rw at_s (
        byte_last n d s m (copy_down n (d + n) (s + n) last) above
          (copy_down-Moved n d s last above)))

portable_memmove-Moved :
    (dst src n : ℕ) (m : Mem) → Moved dst src n m (portable_memmove dst src n m)
unfolding portable_memmove
portable_memmove-Moved dst src n m = elim (Bool-cases (ltb src dst && ltb dst (src + n))) [
  | inl over ↦ rw over (copy_down-Moved n dst src m (ground arith))
  | inr clear ↦ rw clear (copy_up-Moved n dst src m clear)
]

-- memmove leaves the same memory on the path without assembly as on the path with it.
pub portable_memmove-memmove :
    (dst src n : ℕ) (m : Mem) (a : ℕ) → portable_memmove dst src n m a ≡ memmove dst src n m a
portable_memmove-memmove dst src n m a =
    portable_memmove-Moved dst src n m a ∙ sym (memmove-Moved dst src n m a)

-- memset of less than 2 ^ 31 bytes leaves the same memory on both paths.
pub portable_memset-memset :
    (v c n : ℕ) (m : Mem) (a : ℕ) → n < 2 ^ 31 → portable_memset v c n m a ≡ memset v c n m a
unfolding portable_memset
portable_memset-memset v c n m a small =
    rw (lt→ltb n (2 ^ 31) small) (set_loop-Filled n v c m a ∙ sym (memset-Filled v c n m a))
