-- ===== src/Clock/Cells.antt =====
-- What kern/kclock.c relies on of the clock, and its two functions.
use tp_prom.Prelude.{ℕ, ◌+◌, ◌*◌, ◌%◌, ◌^◌, ◌≤◌, ◌<◌, ◌≡◌, ◌≢◌, sym, ap, ◌∙◌, arith}
use tp_prom.Ports.{Ports}
use tp_prom.Clock.{mc146818_read, mc146818_write, nvram_read}

-- The cells of the clock's memory: they are bytes, and an access at port 0x71 is to the one whose
-- number was last written at port 0x70. The first 14 registers are the clock's own, and change.
pub record IsClock {S : Type 0} (ports : Ports S) : Type 0 where
  pub cells : S → ℕ → ℕ
  pub selected : S → ℕ
  pub bytes : (s : S) (r : ℕ) → cells s r < 2 ^ 8
  pub select :
      (s : S) (r : ℕ)
      → 14 ≤ r
      → r < 2 ^ 7
      → (selected (ports.outb 0x70 r s) ≡ r)
        × ((i : ℕ) → 14 ≤ i → cells (ports.outb 0x70 r s) i ≡ cells s i)
  pub read_cell :
      (s : S)
      → 14 ≤ selected s
      → ((ports.inb 0x71 s).0 ≡ cells s (selected s))
        × ((i : ℕ) → 14 ≤ i → cells (ports.inb 0x71 s).1 i ≡ cells s i)
  pub write_cell :
      (s : S) (v : ℕ)
      → 14 ≤ selected s
      → v < 2 ^ 8
      → (cells (ports.outb 0x71 v s) (selected s) ≡ v)
        × ((i : ℕ) → 14 ≤ i → i ≢ selected s → cells (ports.outb 0x71 v s) i ≡ cells s i)

module _ {S : Type 0} (ports : Ports S) (clock : IsClock ports) where
  -- A read gives the cell, and changes none.
  pub mc146818_read_lem :
      (reg : ℕ) (s : S)
      → 14 ≤ reg
      → reg < 2 ^ 7
      → ((mc146818_read ports reg s).0 ≡ clock.cells s reg)
        × ((i : ℕ) → 14 ≤ i → clock.cells (mc146818_read ports reg s).1 i ≡ clock.cells s i)
  unfolding mc146818_read
  mc146818_read_lem reg s lo hi =
      let plain : reg % 2 ^ 8 ≡ reg = omega arith in
      let a = clock.select s reg lo hi in
      let b = clock.read_cell (ports.outb 0x70 reg s) (omega (arith, a.0)) in
      rw (plain, mc146818_read)
        (
          b.0 ∙ ap (clock.cells (ports.outb 0x70 reg s)) a.0 ∙ a.1 reg lo,
          λ i le. b.1 i le ∙ a.1 i le,
        )

  -- For a register of the clock's memory and a byte: a read of the register after a write of the
  -- byte gives the byte, and a read of another register what it gave before.
  pub mc146818_read-mc146818_write :
      (reg other datum : ℕ) (s : S)
      → 14 ≤ reg
      → reg < 2 ^ 7
      → 14 ≤ other
      → other < 2 ^ 7
      → datum < 2 ^ 8
      → other ≢ reg
      → ((mc146818_read ports reg (mc146818_write ports reg datum s)).0 ≡ datum)
        × ((mc146818_read ports other (mc146818_write ports reg datum s)).0
            ≡ (mc146818_read ports other s).0)
  unfolding mc146818_write
  mc146818_read-mc146818_write reg other datum s lo hi lo' hi' byte apart =
      let a = clock.select s reg lo hi in
      let b = clock.write_cell (ports.outb 0x70 reg s) datum (omega (arith, a.0)) byte in
      let plain : reg % 2 ^ 8 ≡ reg = omega arith in
      let plain' : datum % 2 ^ 8 ≡ datum = omega arith in
      let t = ports.outb 0x71 datum (ports.outb 0x70 reg s) in
      rw (plain, plain', mc146818_write)
        (
          (mc146818_read_lem reg t lo hi).0 ∙ ap (clock.cells t) (sym a.0) ∙ b.0,
          (mc146818_read_lem other t lo' hi').0
              ∙ b.1 other lo' (λ e. apart (e ∙ a.0))
              ∙ a.1 other lo'
              ∙ sym (mc146818_read_lem other s lo' hi').0,
        )

  pub nvram_read_lem :
      (r : ℕ) (s : S)
      → 14 ≤ r
      → r + 1 < 2 ^ 7
      → ((nvram_read ports r s).0 ≡ clock.cells s r + clock.cells s (r + 1) * 2 ^ 8)
        × ((i : ℕ) → 14 ≤ i → clock.cells (nvram_read ports r s).1 i ≡ clock.cells s i)
  unfolding nvram_read
  nvram_read_lem r s lo hi =
      let a = mc146818_read_lem r s lo (omega arith) in
      let t = (mc146818_read ports r s).1 in
      let b = mc146818_read_lem (r + 1) t (omega arith) hi in
      (omega (arith, a.0, b.0, a.1 (r + 1) (omega arith)), λ i le. b.1 i le ∙ a.1 i le)
