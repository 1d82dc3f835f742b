-- ===== src/Paging/Walk.antt =====
-- kern/pmap.c: check_va2pa, the translation of a virtual address through a two-level page table.
-- Memory is read by words, at kernel virtual addresses.
use tp_prom.Prelude.{ℕ, ◌+◌, ◌-◌, ◌*◌, ◌%◌, Option, some, not, if◌then◌else◌, ◌>>=◌}
use tp_prom.Paging.Address.{
  word, directory_index, table_index, page_offset, page_address, entry_address, is_present,
  is_large,
}
use tp_prom.Paging.Physical.{kaddr}

abbrev pub Words : Type 0
Words = ℕ → ℕ

-- `~0`
abbrev pub unmapped : ℕ
unmapped = word - 1

-- `p[i]` of an array of words.
abbrev pub at_index : Words → ℕ → ℕ → ℕ
at_index mem p i = mem ((p + 4 * i) % word)

unfoldable pub check_va2pa : ℕ → Words → ℕ → ℕ → Option ℕ
check_va2pa npages mem pgdir va =
    let pde = at_index mem pgdir (directory_index va) in
    if not (is_present pde)
    then some unmapped
    else if is_large pde
    then some (page_address (directory_index pde) (table_index va) (page_offset va))
    else (do
      p ← kaddr npages (entry_address pde)
      let pte = at_index mem p (table_index va)
      some (if is_present pte then entry_address pte else unmapped))
