-- ===== src/Clock/Detect.antt =====
-- i386_detect_memory on the cells of the clock.
use tp_prom.Prelude.{
  ℕ, zero, suc, not, ◌==◌, if◌then◌else◌, ◌+◌, ◌*◌, ◌/◌, ◌^◌, ◌≤◌, ◌<◌, ◌≡◌, refl, ◌∙◌, arith,
}
use tp_prom.Ports.{Ports}
use tp_prom.Clock.{nvram_read, sizes, i386_detect_memory}
use tp_prom.Clock.Cells.{IsClock, nvram_read_lem}

-- The two cells from `r` on, as a number.
abbrev pub pair_at : (ℕ → ℕ) → ℕ → ℕ
pair_at cells r = cells r + cells (r + 1) * 2 ^ 8

-- The whole memory in kilobytes: 16 MB and 64 KB for each unit that the clock counts above them; or
-- 1 MB and what it counts above that; or the base memory.
pub data IsTotal (base ext ext16 total : ℕ) : Type 0 where
  above_16m : 0 < ext16 → total ≡ 16384 + 64 * ext16 → IsTotal base ext ext16 total
  above_1m : ext16 ≡ 0 → 0 < ext → total ≡ 1024 + ext → IsTotal base ext ext16 total
  base_only : ext16 ≡ 0 → ext ≡ 0 → total ≡ base → IsTotal base ext ext16 total

sizes-IsTotal : (base ext ext16 : ℕ) → IsTotal base ext ext16 (sizes base ext (ext16 * 64)).totalmem
unfolding sizes
sizes-IsTotal base ext zero = rest ext
  where
    rest : (ext : ℕ) → IsTotal base ext 0 (if not (ext == 0) then 1 * 1024 + ext else base)
    rest zero = base_only refl refl refl
    rest (suc ext) = above_1m refl (omega arith) (ground arith)
sizes-IsTotal base ext (suc n) = above_16m (omega arith) (ground arith)

sizes_lem :
    (base ext ext16 : ℕ)
    → base ≤ 1024
    → ext < 2 ^ 16
    → ext16 < 2 ^ 16
    → let d = sizes base ext (ext16 * 64) in
      (d.basemem ≡ base)
      × IsTotal base ext ext16 d.totalmem
      × (d.npages ≡ d.totalmem / 4)
      × (d.npages ≤ 1052656)
      × (d.npages_basemem ≤ d.npages)
      × (d.printed_extended + base ≡ d.totalmem)
unfolding sizes
sizes_lem base ext ext16 small a b =
    (refl, sizes-IsTotal base ext ext16, refl, ground arith, ground arith, ground arith)

module _ {S : Type 0} (ports : Ports S) (clock : IsClock ports) where
  detect_memory_cells :
      (s : S)
      → (i386_detect_memory ports s).0
        ≡ sizes
            (pair_at (clock.cells s) 0x15)
            (pair_at (clock.cells s) 0x17)
            (pair_at (clock.cells s) 0x34 * 64)
  unfolding i386_detect_memory
  detect_memory_cells s =
      let a = nvram_read_lem ports clock 21 s (omega arith) (omega arith) in
      let t = (nvram_read ports 21 s).1 in
      let b = nvram_read_lem ports clock 23 t (omega arith) (omega arith) in
      let u = (nvram_read ports 23 t).1 in
      let c = nvram_read_lem ports clock 52 u (omega arith) (omega arith) in
      let kept : (i : ℕ) → 14 ≤ i → clock.cells u i ≡ clock.cells s i =
        λ i le. b.1 i le ∙ a.1 i le in
      let ext : (nvram_read ports 23 t).0 ≡ pair_at (clock.cells s) 23 =
        omega (arith, b.0, a.1 23 (omega arith), a.1 24 (omega arith)) in
      let ext16 : (nvram_read ports 52 u).0 ≡ pair_at (clock.cells s) 52 =
        omega (arith, c.0, kept 52 (omega arith), kept 53 (omega arith)) in
      λ i. sizes (a.0 i) (ext i) (ext16 i * 64)

  -- For a base memory of at most 1 MB: it is what the cells from 0x15 on say, in kilobytes, and the
  -- whole memory follows from it, the cells from 0x17 on and those from 0x34 on as in `IsTotal`.
  -- There are a quarter as many pages as the whole has kilobytes, at most 1052656, and no fewer than
  -- those of the base memory; and the extended memory that is printed is what the base memory leaves
  -- of the whole.
  pub i386_detect_memory_lem :
      (s : S)
      → pair_at (clock.cells s) 0x15 ≤ 1024
      → let d = (i386_detect_memory ports s).0 in
        let base = pair_at (clock.cells s) 0x15 in
        (d.basemem ≡ base)
        × IsTotal base (pair_at (clock.cells s) 0x17) (pair_at (clock.cells s) 0x34) d.totalmem
        × (d.npages ≡ d.totalmem / 4)
        × (d.npages ≤ 1052656)
        × (d.npages_basemem ≤ d.npages)
        × (d.printed_extended + base ≡ d.totalmem)
  i386_detect_memory_lem s small =
      let b = clock.bytes s in
      rw (detect_memory_cells s) (
        sizes_lem (pair_at (clock.cells s) 0x15) (pair_at (clock.cells s) 0x17)
          (pair_at (clock.cells s) 0x34) small (omega (arith, b 0x17, b 0x18))
          (omega (arith, b 0x34, b 0x35)))
