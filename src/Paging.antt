-- ===== src/Paging.antt =====
-- inc/mmu.h, inc/memlayout.h, kern/pmap.h, kern/pmap.c and kern/entrypgdir.c: addresses, their
-- translation, and the page tables of the boot.
pub mod Address
pub mod Physical
pub mod Walk
pub mod Directory
pub mod EntryTable
mod Tests
