-- ===== src/Paging/Tests.antt =====
-- Tests of addresses and page tables.
use tp_prom.Prelude.{
  ◌+◌, ◌-◌, ◌*◌, ◌%◌, ◌/◌, ◌≡◌, refl, some, true, false, ltb, leb, ◌&&◌, if◌then◌else◌, get_or,
  arith,
}
use tp_prom.Paging.Address.{word}
use tp_prom.Paging.Walk.{Words, check_va2pa}
use tp_prom.Paging.EntryTable.{entry_pgdir, entry_pgtable}
use tp_prom.Paging.EntryTable.Identity.{Loaded, entry_map, check_va2pa-entry_map}

-- The directory at KERNBASE + 0x2000, and the table behind it.
abbrev boot_memory : Words
boot_memory a =
    if leb 0xf0002000 a && ltb a 0xf0003000
    then entry_pgdir 0xf0003000 ((a - 0xf0002000) / 4)
    else if leb 0xf0003000 a && ltb a 0xf0004000
    then get_or entry_pgtable ((a - 0xf0003000) / 4) 0
    else 0

boot_memory-Loaded : Loaded 1024 boot_memory 0xf0002000 0xf0003000
boot_memory-Loaded = record {
  directory = λ i h.
      let low : leb 0xf0002000 ((0xf0002000 + 4 * i) % word) ≡ true = ground arith in
      let high : ltb ((0xf0002000 + 4 * i) % word) 0xf0003000 ≡ true = ground arith in
      let index : ((0xf0002000 + 4 * i) % word - 0xf0002000) / 4 ≡ i = omega arith in
      rw (low, high, index) refl;
  entries = λ i h.
      let outside : ltb ((0xf0003000 + 4 * i) % word) 0xf0003000 ≡ false = ground arith in
      let before : leb 0xf0002000 ((0xf0003000 + 4 * i) % word) ≡ true = ground arith in
      let low : leb 0xf0003000 ((0xf0003000 + 4 * i) % word) ≡ true = ground arith in
      let high : ltb ((0xf0003000 + 4 * i) % word) 0xf0004000 ≡ true = ground arith in
      let index : ((0xf0003000 + 4 * i) % word - 0xf0003000) / 4 ≡ i = omega arith in
      rw (outside, before, low, high, index) refl;
  aligned = refl;
  above = omega arith;
  below = omega arith;
  inside = omega arith;
}

check_va2pa-entry_map_example :
    check_va2pa 1024 boot_memory 0xf0002000 0xf0123456 ≡ some (entry_map 0xf0123456)
check_va2pa-entry_map_example =
    check_va2pa-entry_map 1024 boot_memory 0xf0002000 0xf0003000 0xf0123456 boot_memory-Loaded
      (omega arith)
