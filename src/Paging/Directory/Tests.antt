-- ===== src/Paging/Directory/Tests.antt =====
-- Tests of check_kern_pgdir.
use mathlib.Core.Logic.{◌↔◌}
use tp_prom.Prelude.{
  ℕ, ◌+◌, ◌-◌, ◌*◌, ◌/◌, refl, true, false, ltb, leb, ◌&&◌, ◌==◌, if◌then◌else◌, arith,
}
use tp_prom.Paging.Address.{roundup, rounddown}
use tp_prom.Paging.Physical.{paddr, kaddr}
use tp_prom.Paging.Walk.{Words, check_va2pa}
use tp_prom.Paging.Directory.{Kernel, for_loop, check_kern_pgdir}
use tp_prom.Paging.Directory.Loop.{Ends}
use tp_prom.Paging.Directory.Correct.{IsKernelDirectory, check_kern_pgdir-IsKernelDirectory}

-- A directory with tables for UPAGES and for the stack, and large pages from KERNBASE on.
abbrev directory_entry : ℕ → ℕ
directory_entry i =
    if i == 956
    then 0x20_1001
    else if i == 957
    then 0x20_0001
    else if i == 959
    then 0x20_2003
    else if leb 960 i
    then (i - 960) * 0x40_0000 + 0x83
    else 0

abbrev table_entry : ℕ → ℕ
table_entry j = if leb 1016 j then 0x40_0003 + (j - 1016) * 4096 else 0

abbrev memory : Words
memory a =
    if leb 0xf020_0000 a && ltb a 0xf020_1000
    then directory_entry ((a - 0xf020_0000) / 4)
    else if leb 0xf020_1000 a && ltb a 0xf020_2000
    then (a - 0xf020_1000) / 4 * 4096 + 0x30_0001
    else if leb 0xf020_2000 a && ltb a 0xf020_3000
    then table_entry ((a - 0xf020_2000) / 4)
    else 0

abbrev kernel : Kernel
kernel = record {
  npages = 1024;
  pages = 0xf030_0000;
  bootstack = 0xf040_0000;
  kern_pgdir = 0xf020_0000;
  memory = memory;
}

check_kern_pgdir_passes : Ends (check_kern_pgdir kernel true)
unfolding check_kern_pgdir for_loop check_va2pa paddr kaddr roundup rounddown
check_kern_pgdir_passes = refl

check_kern_pgdir-IsKernelDirectory_example :
    Ends (check_kern_pgdir kernel false) ↔ IsKernelDirectory kernel
check_kern_pgdir-IsKernelDirectory_example =
    check_kern_pgdir-IsKernelDirectory kernel (omega arith) (omega arith) (omega arith)
