-- ===== src/Paging/Physical.antt =====
-- kern/pmap.h: between kernel virtual addresses, physical addresses and physical pages. A page is
-- its index in `pages`; a panic is `none`.
use tp_prom.Prelude.{
  ℕ, ◌+◌, ◌-◌, ◌*◌, ◌%◌, ◌^◌, ◌≤◌, ◌<◌, ◌≡◌, Option, none, some, ltb, leb, if◌then◌else◌, ◌>>=◌,
  arith,
}
use tp_prom.Paging.Address.{word, page_size, kernbase, page_number}

-- _paddr and _kaddr, the functions behind PADDR and KADDR.
unfoldable pub paddr : ℕ → Option ℕ
paddr kva = if ltb kva kernbase then none else some (kva - kernbase)

unfoldable pub kaddr : ℕ → ℕ → Option ℕ
kaddr npages pa = if leb npages (page_number pa) then none else some ((pa + kernbase) % word)

unfoldable pub page2pa : ℕ → ℕ
page2pa pp = pp * 2 ^ 12 % word

unfoldable pub pa2page : ℕ → ℕ → Option ℕ
pa2page npages pa = if leb npages (page_number pa) then none else some (page_number pa)

unfoldable pub page2kva : ℕ → ℕ → Option ℕ
page2kva npages pp = kaddr npages (page2pa pp)

-- The physical addresses that fit above KERNBASE.
abbrev pub max_mapped : ℕ
max_mapped = word - kernbase

-- For a memory of `npages` pages that fits above KERNBASE and an address in it, KADDR gives the
-- address plus KERNBASE, from which PADDR gives the address again.
pub paddr-kaddr :
    (npages pa : ℕ)
    → npages * page_size ≤ max_mapped
    → pa < npages * page_size
    → (kaddr npages pa ≡ some (pa + kernbase)) × ((kaddr npages pa >>= paddr) ≡ some pa)
unfolding paddr kaddr
paddr-kaddr npages pa small inside = (ground arith, ground arith)

-- KADDR panics on all other physical addresses.
pub kaddr_panics : (npages pa : ℕ) → npages * page_size ≤ pa → kaddr npages pa ≡ none
unfolding kaddr
kaddr_panics npages pa outside = ground arith

-- For a 32-bit physical address of the memory that does not fit above KERNBASE, from 256 MB on,
-- KADDR wraps round, and PADDR panics on what it returns.
pub paddr_wrapped :
    (npages pa : ℕ)
    → max_mapped ≤ pa
    → pa < word
    → page_number pa < npages
    → (kaddr npages pa >>= paddr) ≡ none
unfolding paddr kaddr
paddr_wrapped npages pa large wide inside = ground arith

-- Where the memory has at most 2 ^ 20 pages, pa2page gives a page for each of the addresses in it,
-- from page2pa of the page on.
pub pa2page-page2pa :
    (npages pp o : ℕ)
    → npages ≤ 2 ^ 20
    → pp < npages
    → o < page_size
    → pa2page npages (page2pa pp + o) ≡ some pp
unfolding page2pa pa2page
pa2page-page2pa npages pp o small inside ho = ground arith
