-- ===== src/Paging/EntryTable/Identity.antt =====
-- What the page tables of kern/entrypgdir.c map, under check_va2pa.
use tp_prom.Prelude.{
  ℕ, zero, suc, ◌+◌, ◌-◌, ◌*◌, ◌/◌, ◌%◌, ◌^◌, ◌≤◌, ◌<◌, ◌≡◌, refl, ap, Bool, true, some, ◌&&◌, List,
  [], ◌∷◌, length, get_or, ◌==◌, ltb, leb, if◌then◌else◌, ℕ_discrete, ◌≢◌, sym, arith, ◌⊎◌, ◌∙◌,
  inl, inr,
}
use tp_prom.Paging.Address.{rounddown, entry_address, word, kernbase, directory_index, table_index}
use tp_prom.Paging.Physical.{kaddr}
use tp_prom.Paging.Walk.{Words, unmapped, at_index, check_va2pa}
use tp_prom.Paging.EntryTable.{entry_pgtable, entry_pgdir}

-- Each entry is that of its own page, from page `i` on.
is_identity : ℕ → List ℕ → Bool
is_identity i [] = true
is_identity i (e ∷ es) = e == i * 4096 + 3 && is_identity (i + 1) es

is_identity_sound :
    (es : List ℕ) (i j : ℕ)
    → is_identity i es ≡ true
    → j < length es
    → get_or es j 0 ≡ (i + j) * 4096 + 3
unfolding is_identity
is_identity_sound [] i j h lt = absurd (omega arith)
is_identity_sound (e ∷ es) i zero h lt = ground arith
is_identity_sound (e ∷ es) i (suc j) h lt = ground (arith, is_identity_sound es (i + 1) j)

entry_pgtable-is_identity : (is_identity 0 entry_pgtable ≡ true) × (length entry_pgtable ≡ 1024)
unfolding is_identity entry_pgtable
entry_pgtable-is_identity = (refl, refl)

entry_pgtable_lem : (i : ℕ) → i < 1024 → get_or entry_pgtable i 0 ≡ i * 4096 + 3
entry_pgtable_lem i h =
    let (ordered, size) = entry_pgtable-is_identity in
    omega (arith, is_identity_sound entry_pgtable 0 i ordered (omega (arith, size)))

-- A page directory that lies at `pgdir` is `entry_pgdir`, with the page table `entry_pgtable` linked
-- at `table`, in the memory that KADDR reaches.
pub record Loaded (npages : ℕ) (mem : Words) (pgdir : ℕ) (table : ℕ) : Type 0 where
  pub directory : (i : ℕ) → i < 1024 → at_index mem pgdir i ≡ entry_pgdir table i
  pub entries : (i : ℕ) → i < 1024 → at_index mem table i ≡ get_or entry_pgtable i 0
  pub aligned : table % 4096 ≡ 0
  pub above : kernbase ≤ table
  pub below : table < word
  pub inside : (table - kernbase) / 4096 < npages

-- The translation that the directory stands for.
abbrev pub entry_map : ℕ → ℕ
entry_map va =
    if ltb va (2 ^ 22)
    then rounddown va 4096
    else if leb kernbase va && ltb va (kernbase + 2 ^ 22)
    then rounddown (va - kernbase) 4096
    else unmapped

module _ (npages : ℕ) (mem : Words) (pgdir table : ℕ) (l : Loaded npages mem pgdir table) where
  kaddr-table : (a : ℕ) → a ≡ table - kernbase → kaddr npages a ≡ some table
  unfolding kaddr
  kaddr-table a e =
      let above = l.above in
      let below = l.below in let inside = l.inside in ground (arith, e, above, below, inside)

  -- Behind an entry that points to the table.
  through_table :
      (va pde : ℕ)
      → at_index mem pgdir (directory_index va) ≡ pde
      → (pde ≡ table - kernbase + 1) ⊎ (pde ≡ table - kernbase + 3)
      → check_va2pa npages mem pgdir va ≡ some (table_index va * 4096)
  unfolding check_va2pa
  through_table va pde h shape =
      let aligned = l.aligned in
      let above = l.above in
      let bit : pde % 2 ≡ 1 = elim shape [
        | inl e ↦ omega (arith, e, aligned, above)
        | inr e ↦ omega (arith, e, aligned, above)
      ] in
      let small : pde / 2 ^ 7 % 2 ≡ 0 = elim shape [
        | inl e ↦ omega (arith, e, aligned, above)
        | inr e ↦ omega (arith, e, aligned, above)
      ] in
      let address : pde - pde % 4096 ≡ table - kernbase = elim shape [
        | inl e ↦ omega (arith, e, aligned, above)
        | inr e ↦ omega (arith, e, aligned, above)
      ] in
      let near : table_index va < 1024 = omega arith in
      let entry : at_index mem table (table_index va) ≡ table_index va * 4096 + 3 =
        l.entries (table_index va) near ∙ entry_pgtable_lem (table_index va) near in
      let odd : (table_index va * 4096 + 3) % 2 ≡ 1 = omega arith in
      let found = kaddr-table (entry_address pde) address in
      rw (h, bit, small, found, entry, odd) (ap some (omega arith))

  -- Elsewhere the entries of the directory are 0.
  through_nothing :
      (va : ℕ)
      → at_index mem pgdir (directory_index va) ≡ 0
      → check_va2pa npages mem pgdir va ≡ some unmapped
  unfolding check_va2pa
  through_nothing va h = rw h refl

entry_map-low : (va : ℕ) → directory_index va ≡ 0 → va < word → entry_map va ≡ table_index va * 4096
unfolding rounddown
entry_map-low va e h = ground arith

entry_map-high :
    (va : ℕ) → directory_index va ≡ 960 → va < word → entry_map va ≡ table_index va * 4096
unfolding rounddown
entry_map-high va e h = ground arith

entry_map-else :
    (va : ℕ)
    → directory_index va ≢ 0
    → directory_index va ≢ 960
    → va < word
    → entry_map va ≡ unmapped
entry_map-else va low high h = ground arith

entry_pgdir-high : (table d : ℕ) → d ≡ 960 → entry_pgdir table d ≡ table - kernbase + 3
unfolding entry_pgdir
entry_pgdir-high table d high = ground arith

entry_pgdir-else : (table d : ℕ) → d ≢ 0 → d ≢ 960 → entry_pgdir table d ≡ 0
unfolding entry_pgdir
entry_pgdir-else table d low high = ground arith

-- Where the entry page directory and table are loaded, every address of 32 bits below 4 MB is
-- translated to its own page, an address less than 4 MB above KERNBASE to the page of its distance
-- from KERNBASE, and nothing else is mapped.
pub check_va2pa-entry_map :
    (npages : ℕ) (mem : Words) (pgdir table va : ℕ)
    → Loaded npages mem pgdir table
    → va < word
    → check_va2pa npages mem pgdir va ≡ some (entry_map va)
unfolding entry_pgdir
check_va2pa-entry_map npages mem pgdir table va l h =
    let d = directory_index va in
    let at = l.directory d (omega arith) in
    elim (ℕ_discrete d 0) [
      | yes low ↦
          through_table npages mem pgdir table l va (entry_pgdir table d) at
            (inl (ap (entry_pgdir table) low))
          ∙ ap some (sym (entry_map-low va low h))
      | no low ↦ elim (ℕ_discrete d 960) [
        | yes high ↦
            through_table npages mem pgdir table l va (entry_pgdir table d) at
              (inr (entry_pgdir-high table d high))
            ∙ ap some (sym (entry_map-high va high h))
        | no high ↦
            through_nothing npages mem pgdir table l va (at ∙ entry_pgdir-else table d low high)
            ∙ ap some (sym (entry_map-else va low high h))
      ]
    ]
