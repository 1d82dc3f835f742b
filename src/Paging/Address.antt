-- ===== src/Paging/Address.antt =====
-- inc/mmu.h, inc/memlayout.h and inc/types.h: the parts of a linear address, the entries of page
-- tables, the layout of the address space, and rounding. A shift and a mask of low bits are `/` and
-- `%`; all is arithmetic of 32 bits.
use native.Mathlib.Nat.{div-add-mod, mod-lt, mul-mod_right}
use tp_prom.Prelude.{ℕ, ◌+◌, ◌-◌, ◌*◌, ◌/◌, ◌%◌, ◌^◌, ◌≤◌, ◌<◌, ◌≡◌, Bool, ◌==◌, not, arith}

abbrev pub word : ℕ
word = 2 ^ 32

abbrev pub page_size : ℕ
page_size = 4096

abbrev pub entries_per_table : ℕ
entries_per_table = 1024

abbrev pub table_size : ℕ
table_size = page_size * entries_per_table

-- PGNUM, PDX, PTX and PGOFF.
abbrev pub page_number : ℕ → ℕ
page_number la = la / 2 ^ 12

abbrev pub directory_index : ℕ → ℕ
directory_index la = la / 2 ^ 22 % 1024

abbrev pub table_index : ℕ → ℕ
table_index la = la / 2 ^ 12 % 1024

abbrev pub page_offset : ℕ → ℕ
page_offset la = la % 4096

-- PGADDR, of an index, an index and an offset in their ranges: `|` of fields that do not overlap
-- is their sum.
abbrev pub page_address : ℕ → ℕ → ℕ → ℕ
page_address d t o = (d * 2 ^ 22 + t * 2 ^ 12 + o) % word

-- PTE_ADDR, and the flags PTE_P, PTE_W and PTE_PS.
abbrev pub entry_address : ℕ → ℕ
entry_address pte = pte - pte % 4096

abbrev pub is_present : ℕ → Bool
is_present pte = not (pte % 2 == 0)

abbrev pub is_writable : ℕ → Bool
is_writable pte = not (pte / 2 % 2 == 0)

abbrev pub is_large : ℕ → Bool
is_large pte = not (pte / 2 ^ 7 % 2 == 0)

-- PTE_P and PTE_W as numbers.
abbrev pub present : ℕ
present = 1

abbrev pub writable : ℕ
writable = 2

-- The layout of the virtual address space.
abbrev pub kernbase : ℕ
kernbase = 0xF000_0000

abbrev pub kstacktop : ℕ
kstacktop = kernbase

abbrev pub mmiolim : ℕ
mmiolim = kstacktop - table_size

abbrev pub mmiobase : ℕ
mmiobase = mmiolim - table_size

abbrev pub ulim : ℕ
ulim = mmiobase

abbrev pub uvpt : ℕ
uvpt = ulim - table_size

abbrev pub upages : ℕ
upages = uvpt - table_size

abbrev pub uenvs : ℕ
uenvs = upages - table_size

-- ROUNDDOWN and ROUNDUP.
unfoldable pub rounddown : ℕ → ℕ → ℕ
rounddown a n = a - a % n

unfoldable pub roundup : ℕ → ℕ → ℕ
unfolding rounddown
roundup a n = rounddown ((a + n + word - 1) % word) n

-- PGADDR puts the three parts of a 32-bit address together again.
pub page_address_parts :
    (la : ℕ) → la < word → page_address (directory_index la) (table_index la) (page_offset la) ≡ la
page_address_parts la h = omega arith

-- For three parts in their ranges, PDX, PTX and PGOFF give the parts of their PGADDR.
pub parts_of_page_address :
    (d t o : ℕ)
    → d < 1024
    → t < 1024
    → o < 4096
    → (directory_index (page_address d t o) ≡ d)
      × (table_index (page_address d t o) ≡ t)
      × (page_offset (page_address d t o) ≡ o)
parts_of_page_address d t o hd ht ho = omega arith

-- Where `n` is not 0 and `a + n` is at most 2 ^ 32, ROUNDUP gives a multiple of `n`, which is at
-- least `a` and less than `a + n`.
pub roundup_lem :
    (a n : ℕ)
    → 0 < n
    → a + n ≤ word
    → (a ≤ roundup a n) × (roundup a n < a + n) × (roundup a n % n ≡ 0)
unfolding roundup
roundup_lem a n h fits =
    let x = a + n - 1 in
    let plain : (a + n + word - 1) % word ≡ x = omega arith in
    let whole : x - x % n ≡ n * (x / n) = omega (arith, div-add-mod x n) in
    rw plain (omega arith, omega (arith, mod-lt x {m = n} h), rw whole (mul-mod_right n (x / n)))
