-- ===== src/Paging/Directory.antt =====
-- kern/pmap.c: check_kern_pgdir, the check of the kernel's page directory.
pub mod Loop
pub mod Correct
mod Tests
use tp_prom.Prelude.{
  ℕ, zero, suc, ◌+◌, ◌-◌, ◌*◌, ◌/◌, ◌%◌, ◌^◌, Bool, true, false, ◌||◌, Option, none, some, ltb, leb,
  ◌==◌, if◌then◌else◌, ◌>>=◌, ◌>>◌,
}
use tp_prom.Paging.Address.{
  word, page_size, table_size, directory_index, entry_address, is_present, is_writable, is_large,
  kernbase, kstacktop, uvpt, upages, roundup,
}
use tp_prom.Paging.Physical.{paddr}
use tp_prom.Paging.Walk.{Words, unmapped, at_index, check_va2pa}

-- A failed assertion, like every panic, is `none`.
abbrev pub assert : Bool → Option (Unit {0})
assert b = if b then some tt else none

-- `for (i = ...; i < n; i += step)`; `fuel` bounds the passes.
unfoldable pub for_loop : ℕ → (ℕ → Option (Unit {0})) → ℕ → ℕ → ℕ → Option (Unit {0})
for_loop step body zero i n = none
for_loop step body (suc fuel) i n = elim (ltb i n) [
  | true ↦ body i >>= λ _. for_loop step body fuel ((i + step) % word) n
  | false ↦ some tt
]

-- The variables of the kernel that are checked. `pages`, `bootstack` and `kern_pgdir` are addresses.
pub record Kernel : Type 0 where
  pub npages : ℕ
  pub pages : ℕ
  pub bootstack : ℕ
  pub kern_pgdir : ℕ
  pub memory : Words

-- KSTKSIZE and `sizeof(struct PageInfo)`.
abbrev pub kstksize : ℕ
kstksize = 8 * page_size

abbrev pub page_info_size : ℕ
page_info_size = 8

module _ (k : Kernel) where
  abbrev pub translate : ℕ → Option ℕ
  translate va = check_va2pa k.npages k.memory k.kern_pgdir va

  abbrev pub pde : ℕ → ℕ
  pde i = at_index k.memory k.kern_pgdir i

  abbrev pub pages_body : ℕ → Option (Unit {0})
  pages_body i =
      translate ((upages + i) % word) >>= λ v. paddr k.pages >>= λ p. assert (v == (p + i) % word)

  abbrev pub memory_body : ℕ → Option (Unit {0})
  memory_body i = translate ((kernbase + i) % word) >>= λ v. assert (v == i)

  abbrev pub stack_body : ℕ → Option (Unit {0})
  stack_body i = translate (kstacktop - kstksize + i) >>= λ v.
      paddr k.bootstack >>= λ p. assert (v == (p + i) % word)

  abbrev pub guard_body : Option (Unit {0})
  guard_body = translate (kstacktop - table_size) >>= λ v. assert (v == unmapped)

  abbrev pub is_shared : ℕ → Bool
  is_shared i =
      (i == directory_index uvpt)
      || (i == directory_index (kstacktop - 1))
      || (i == directory_index upages)

  abbrev pub pde_body : ℕ → Option (Unit {0})
  pde_body i =
      if is_shared i
      then assert (is_present (pde i))
      else if leb (directory_index kernbase) i
      then (assert (is_present (pde i)) >> assert (is_writable (pde i)))
      else assert (pde i == 0)

  -- Only where the kernel is compiled with TP1_PSE.
  abbrev pub large_body : ℕ → Option (Unit {0})
  large_body i =
      assert (is_large (pde i))
      >> assert (entry_address (pde i) == (i - directory_index kernbase) * 2 ^ 22 % word)

  -- The number of bytes of `pages`, rounded up, and that of the physical memory.
  abbrev pub pages_end : ℕ
  pages_end = roundup (k.npages * page_info_size % word) page_size

  abbrev pub memory_end : ℕ
  memory_end = k.npages * page_size % word

  unfoldable pub check_kern_pgdir : Bool → Option (Unit {0})
  check_kern_pgdir tp1_pse =
      for_loop page_size pages_body (pages_end / page_size + 2) 0 pages_end
      >> (for_loop page_size memory_body (memory_end / page_size + 2) 0 memory_end
          >> (for_loop page_size stack_body (kstksize / page_size + 2) 0 kstksize
              >> (guard_body
                  >> (for_loop 1 pde_body 1025 0 1024
                      >> (if tp1_pse
                          then for_loop 1 large_body 1025 (directory_index kernbase) 1024
                          else some tt)))))
