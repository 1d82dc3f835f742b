-- ===== src/Clock.antt =====
-- kern/kclock.c, and nvram_read and i386_detect_memory of kern/pmap.c: the memory of the real-time
-- clock, and the size of the machine's memory that is read from it.
pub mod Cells
pub mod Detect
mod Tests
use tp_prom.Prelude.{ℕ, ◌+◌, ◌-◌, ◌*◌, ◌/◌, ◌%◌, ◌^◌, Bool, not, ltb, ◌==◌, if◌then◌else◌}
use tp_prom.Ports.{Ports}
use tp_prom.Paging.Address.{page_size}

-- What i386_detect_memory finds: the two variables that it sets, and the sizes in kilobytes, whose
-- `totalmem`, `basemem` and `totalmem - basemem` it prints.
pub record Detected : Type 0 where
  pub npages : ℕ
  pub npages_basemem : ℕ
  pub totalmem : ℕ
  pub basemem : ℕ
  pub printed_extended : ℕ

-- The sizes from the three numbers that are read.
unfoldable pub sizes : ℕ → ℕ → ℕ → Detected
sizes basemem extmem ext16mem =
    let totalmem =
      if not (ext16mem == 0)
      then 16 * 1024 + ext16mem
      else if not (extmem == 0)
      then 1 * 1024 + extmem
      else basemem in
    record {
      npages = totalmem / (page_size / 1024);
      npages_basemem = basemem / (page_size / 1024);
      totalmem = totalmem;
      basemem = basemem;
      printed_extended = (totalmem + 2 ^ 32 - basemem) % 2 ^ 32;
    }

module _ {S : Type 0} (ports : Ports S) where
  unfoldable pub mc146818_read : ℕ → S → ℕ × S
  mc146818_read reg s = ports.inb 0x71 (ports.outb 0x70 (reg % 2 ^ 8) s)

  unfoldable pub mc146818_write : ℕ → ℕ → S → S
  mc146818_write reg datum s = ports.outb 0x71 (datum % 2 ^ 8) (ports.outb 0x70 (reg % 2 ^ 8) s)

  -- `|` of two bytes at different places is their sum. The low byte is read first.
  unfoldable pub nvram_read : ℕ → S → ℕ × S
  nvram_read r s =
      let (low, s) = mc146818_read r s in
      let (high, s) = mc146818_read (r + 1) s in (low + high * 2 ^ 8, s)

  -- NVRAM_BASELO, NVRAM_EXTLO and NVRAM_EXT16LO.
  unfoldable pub i386_detect_memory : S → Detected × S
  i386_detect_memory s =
      let (basemem, s) = nvram_read (14 + 7) s in
      let (extmem, s) = nvram_read (14 + 9) s in
      let (ext16mem, s) = nvram_read (14 + 38) s in (sizes basemem extmem (ext16mem * 64), s)
