-- ===== src/Pages.antt =====
-- kern/pmap.c and inc/memlayout.h: the array of pages, the list of the free ones, and the functions
-- that set them up and check them. A page is its index in `pages`, and NULL is `none`. The memory
-- is the one above KERNBASE; `pages` is kept beside it, so that it is taken to lie apart from the
-- bytes of the pages on the list that check_page_free_list fills. This is not so after page_init,
-- which puts all pages on the list.
pub mod Chain
pub mod Init
pub mod Trail
pub mod Split
pub mod Fill
pub mod Check
pub mod Verdict
pub mod Count
pub mod Order
mod Tests
use tp_prom.Prelude.{
  ℕ, zero, suc, ◌+◌, ◌-◌, ◌*◌, ◌/◌, ◌%◌, ◌^◌, Bool, true, false, not, ◌&&◌, ◌||◌, Option, none,
  some, List, [], ◌∷◌, ltb, leb, ◌==◌, if◌then◌else◌, ◌>>=◌, get_elem?, set, length,
}
use tp_prom.Paging.Address.{page_size, directory_index, roundup}
use tp_prom.Strings.Memory.{Mem}
use tp_prom.Strings.Fill.{memset}
use tp_prom.Paging.Physical.{page2pa, page2kva}

pub record PageInfo : Type 0 where
  pub pp_link : Option ℕ
  pub pp_ref : ℕ

-- The variables of kern/pmap.c. `memory` is the rest of the memory, by virtual addresses.
pub record Manager : Type 0 where
  pub npages : ℕ
  pub npages_basemem : ℕ
  pub pages : List PageInfo
  pub page_free_list : Option ℕ
  pub nextfree : ℕ
  pub memory : Mem

-- A store to an element of the array.
unfoldable pub store : List PageInfo → ℕ → PageInfo → Option (List PageInfo)
store pages i p = if ltb i (length pages) then some (set pages i p) else none

-- boot_alloc: it allocates nothing yet, and returns NULL. `end` is the linker's symbol.
unfoldable pub boot_alloc : ℕ → ℕ → Manager → ℕ × Manager
boot_alloc end n m =
    (0, record m { nextfree = if m.nextfree == 0 then roundup end page_size else m.nextfree })

-- The loop of page_init over the last `k` pages, from `i` on.
unfoldable pub page_init_loop : ℕ → ℕ → Manager → Option Manager
page_init_loop zero i m = some m
page_init_loop (suc k) i m = do
  pages ← store m.pages i (record { pp_link = m.page_free_list; pp_ref = 0 })
  page_init_loop k (i + 1) (record m { pages = pages; page_free_list = some i })

unfoldable pub page_init : Manager → Option Manager
page_init m = page_init_loop m.npages 0 m

-- The functions that the exercise leaves to be written, as they are.
abbrev pub page_alloc : ℕ → Manager → Option ℕ × Manager
page_alloc flags m = (none, m)

abbrev pub page_free : ℕ → Manager → Manager
page_free pp m = m

-- `--pp->pp_ref`, in 16 bits.
unfoldable pub page_decref : ℕ → Manager → Option Manager
page_decref pp m = do
  p ← get_elem? m.pages pp
  let ref = (p.pp_ref + 2 ^ 16 - 1) % 2 ^ 16
  pages ← store m.pages pp (record p { pp_ref = ref })
  let m' = record m { pages = pages }
  some (if ref == 0 then page_free pp m' else m')

-- Where the next element of a list goes: one of the two local variables, or a page's link.
pub data Slot : Type 0 where
  pp1_slot : Slot
  pp2_slot : Slot
  link_slot : ℕ → Slot

pub record Lists : Type 0 where
  pub pages : List PageInfo
  pub pp1 : Option ℕ
  pub pp2 : Option ℕ
  pub tp0 : Slot
  pub tp1 : Slot

-- `*slot = v`
unfoldable pub put : Slot → Option ℕ → Lists → Option Lists
put pp1_slot v s = some (record s { pp1 = v })
put pp2_slot v s = some (record s { pp2 = v })
put (link_slot x) v s = do
  p ← get_elem? s.pages x
  pages ← store s.pages x (record p { pp_link = v })
  some (record s { pages = pages })

abbrev pub is_high : ℕ → ℕ → Bool
is_high pdx_limit pp = leb pdx_limit (directory_index (page2pa pp))

-- The body of the loop that takes the list apart: `*tp[pagetype] = pp; tp[pagetype] = &pp->pp_link`.
unfoldable pub move : ℕ → ℕ → Lists → Option Lists
move pdx_limit pp s = elim (is_high pdx_limit pp) [
  | true ↦ do t ← put s.tp1 (some pp) s; some (record t { tp1 = link_slot pp })
  | false ↦ do t ← put s.tp0 (some pp) s; some (record t { tp0 = link_slot pp })
]

-- The loop; `fuel` bounds its passes, and is enough for a list without cycles.
unfoldable pub split_loop : ℕ → ℕ → Option ℕ → Lists → Option Lists
split_loop pdx_limit zero pp s = none
split_loop pdx_limit (suc fuel) none s = some s
split_loop pdx_limit (suc fuel) (some pp) s = do
  t ← move pdx_limit pp s
  p ← get_elem? t.pages pp
  split_loop pdx_limit fuel p.pp_link t

-- The pages with lower addresses first. What `pp1` and `pp2` hold before is never read.
unfoldable pub low_first : ℕ → Manager → Option Manager
low_first pdx_limit m = do
  s ←
      split_loop pdx_limit (length m.pages + 1) m.page_free_list
        (record { pages = m.pages; pp1 = none; pp2 = none; tp0 = pp1_slot; tp1 = pp2_slot })
  t ← put s.tp1 none s
  u ← put t.tp0 t.pp2 t
  some (record m { pages = u.pages; page_free_list = u.pp1 })

-- The loop that fills the first bytes of the free pages below the limit. The inner `none` is the
-- panic of page2kva.
unfoldable pub fill_loop : ℕ → ℕ → Option ℕ → Manager → Option (Option Manager)
fill_loop pdx_limit zero pp m = none
fill_loop pdx_limit (suc fuel) none m = some (some m)
fill_loop pdx_limit (suc fuel) (some pp) m = get_elem? m.pages pp >>= λ p.
    elim (is_high pdx_limit pp) [
      | true ↦ fill_loop pdx_limit fuel p.pp_link m
      | false ↦ elim (page2kva m.npages pp) [
        | none ↦ some none
        | some kva ↦
            fill_loop pdx_limit fuel p.pp_link (record m { memory = memset kva 0x97 128 m.memory })
      ]
    ]

-- IOPHYSMEM and EXTPHYSMEM.
abbrev pub iophysmem : ℕ
iophysmem = 0xA_0000

abbrev pub extphysmem : ℕ
extphysmem = 0x10_0000

-- The assertions on one page of the list; those on its alignment hold of every index.
unfoldable pub is_free_page : ℕ → ℕ → ℕ → Bool
is_free_page npages first_free_page pp =
    ltb pp npages
    && not (page2pa pp == 0)
    && not (page2pa pp == iophysmem)
    && not (page2pa pp == extphysmem - page_size)
    && not (page2pa pp == extphysmem)
    && (ltb (page2pa pp) extphysmem
        || elim (page2kva npages pp) [ none ↦ false | some kva ↦ leb first_free_page kva ])

-- nfree_basemem and nfree_extmem; the inner `none` is a failed assertion.
unfoldable pub check_loop : ℕ → ℕ → Option ℕ → Manager → ℕ → ℕ → Option (Option (ℕ × ℕ))
check_loop first_free_page zero pp m nfree_basemem nfree_extmem = none
check_loop first_free_page (suc fuel) none m nfree_basemem nfree_extmem =
    some (some (nfree_basemem, nfree_extmem))
check_loop first_free_page (suc fuel) (some pp) m nfree_basemem nfree_extmem =
    get_elem? m.pages pp >>= λ p. elim (is_free_page m.npages first_free_page pp) [
      | false ↦ some none
      | true ↦ elim (ltb (page2pa pp) extphysmem) [
        | true ↦ check_loop first_free_page fuel p.pp_link m (nfree_basemem + 1) nfree_extmem
        | false ↦ check_loop first_free_page fuel p.pp_link m nfree_basemem (nfree_extmem + 1)
      ]
    ]

-- check_page_free_list; the inner `none` is a panic.
unfoldable pub check_filled : ℕ → Manager → Option (Option Manager)
check_filled end m =
    let (first_free_page, m') = boot_alloc end 0 m in
    check_loop first_free_page (length m'.pages + 1) m'.page_free_list m' 0 0 >>= λ counts.
    elim counts [
      | none ↦ some none
      | some n ↦ some (if ltb 0 n.0 && ltb 0 n.1 then some m' else none)
    ]

abbrev pub limit_of : Bool → ℕ
limit_of only_low_memory = if only_low_memory then 1 else 1024

unfoldable pub check_page_free_list : ℕ → Bool → Manager → Option (Option Manager)
check_page_free_list end only_low_memory m = elim m.page_free_list [
  | none ↦ some none
  | some pp ↦ (if only_low_memory then low_first 1 m else some m) >>= λ m1.
      fill_loop (limit_of only_low_memory) (length m1.pages + 1) m1.page_free_list m1 >>= λ o.
      elim o [ none ↦ some none | some m2 ↦ check_filled end m2 ]
]
