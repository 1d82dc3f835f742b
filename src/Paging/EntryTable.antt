-- ===== src/Paging/EntryTable.antt =====
-- kern/entrypgdir.c: the page directory and the page table with which the kernel starts.
mod Low
mod High
pub mod Identity
use Prim.Native.Nat.{bit_or}
use Low.{entries_0, entries_1, entries_2, entries_3}
use High.{entries_4, entries_5, entries_6, entries_7}
use tp_prom.Prelude.{ℕ, ◌+◌, ◌-◌, ◌*◌, ◌/◌, ◌^◌, List, [], ◌∷◌, ◌++◌, map, ◌==◌, if◌then◌else◌}
use tp_prom.Paging.Address.{kernbase, present, writable}

frames : List ℕ
unfolding entries_0 entries_1 entries_2 entries_3 entries_4 entries_5 entries_6 entries_7
frames =
    entries_0
    ++ (entries_1
        ++ (entries_2 ++ (entries_3 ++ (entries_4 ++ (entries_5 ++ (entries_6 ++ entries_7))))))

-- `address | PTE_P | PTE_W`, for each of them.
pub entry_pgtable : List ℕ
unfolding frames
entry_pgtable = map (λ a. bit_or (bit_or a present) writable) frames

-- Entry `i` of the directory; `table` is the address at which the page table is linked. Entries
-- with no initialiser are 0.
unfoldable pub entry_pgdir : ℕ → ℕ → ℕ
entry_pgdir table i =
    if i == 0
    then table - kernbase + present
    else if i == kernbase / 2 ^ 22
    then table - kernbase + present + writable
    else 0
