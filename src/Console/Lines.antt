-- ===== src/Console/Lines.antt =====
-- kern/console.c: the serial line and the parallel port by their accesses to ports, the waiting
-- loops included.
mod Tests
use Prim.Native.Nat.{bit_and}
use tp_prom.Prelude.{
  ℕ, zero, suc, ◌+◌, ◌-◌, ◌*◌, ◌/◌, ◌%◌, ◌^◌, ◌≤◌, ◌<◌, ◌≡◌, ◌≢◌, ◌⊎◌, refl, sym, ap, ◌∙◌, Bool,
  true, false, not, Bool-cases, List, [], ◌∷◌, ◌++◌, ◌==◌, ==_refl, ne→==, if◌then◌else◌, arith,
  inl, inr,
}
use tp_prom.Prelude.Int.{ℤ, pos, negsuc}
use tp_prom.Ports.{Ports}

-- The `i` after which the waiting loops give up.
abbrev pub patience : ℕ
patience = 12800

module _ {S : Type 0} (ports : Ports S) where
  unfoldable pub delay : S → S
  delay s = (ports.inb 0x84 (ports.inb 0x84 (ports.inb 0x84 (ports.inb 0x84 s).1).1).1).1

  -- `for (...; !(inb(port) & bit) && i < 12800; i++) delay();` with `k` passes left.
  unfoldable pub wait : ℕ → ℕ → ℕ → S → S
  wait port bit zero s = (ports.inb port s).1
  wait port bit (suc k) s =
      let (status, s') = ports.inb port s in
      let rest = wait port bit k (delay s') in if bit_and status bit == 0 then rest else s'

  -- COM1 is 0x3F8.
  unfoldable pub serial_putc : ℕ → S → S
  serial_putc c s = ports.outb 0x3F8 (c % 2 ^ 8) (wait 0x3FD 0x20 patience s)

  unfoldable pub lpt_putc : ℕ → S → S
  lpt_putc c s =
      ports.outb 0x37A 0x08
        (ports.outb 0x37A 0x0D (ports.outb 0x378 (c % 2 ^ 8) (wait 0x379 0x80 patience s)))

  -- A byte, or -1.
  unfoldable pub serial_proc_data : S → ℤ × S
  serial_proc_data s =
      let (status, s) = ports.inb 0x3FD s in
      let (c, s') = ports.inb 0x3F8 s in
      if bit_and status 0x01 == 0 then (negsuc 0, s) else (pos c, s')

  -- serial_exists, and the devices.
  unfoldable pub serial_init : S → Bool × S
  serial_init s =
      let s = ports.outb 0x3FA 0 s in
      let s = ports.outb 0x3FB 0x80 s in
      let s = ports.outb 0x3F8 (115200 / 9600) s in
      let s = ports.outb 0x3F9 0 s in
      let s = ports.outb 0x3FB 0x03 s in
      let s = ports.outb 0x3FC 0 s in
      let s = ports.outb 0x3F9 0x01 s in
      let (status, s) = ports.inb 0x3FD s in
      (not (status == 0xFF), (ports.inb 0x3F8 (ports.inb 0x3FA s).1).1)

-- A transmitter behind a data port and a status port with a bit for "ready": what it has sent, and a
-- bound on the looks that find it busy.
pub record IsTransmitter {S : Type 0} (ports : Ports S) (data_port status_port bit : ℕ)
    : Type 0 where
  pub sent : S → List ℕ
  pub busy : S → ℕ
  pub look :
      (s : S)
      → (sent (ports.inb status_port s).1 ≡ sent s)
        × (((bit_and (ports.inb status_port s).0 bit ≢ 0) × (busy (ports.inb status_port s).1 ≡ 0))
            ⊎ ((bit_and (ports.inb status_port s).0 bit ≡ 0)
                × (busy (ports.inb status_port s).1 < busy s)))
  -- Port 0x84 is only read to pass the time.
  pub pause : (s : S) → (sent (ports.inb 0x84 s).1 ≡ sent s) × (busy (ports.inb 0x84 s).1 ≤ busy s)
  pub send :
      (s : S) (v : ℕ)
      → busy s ≡ 0
      → v < 2 ^ 8
      → sent (ports.outb data_port v s) ≡ sent s ++ (v ∷ [])

module _ {S : Type 0} (ports : Ports S) {data_port port bit : ℕ}
    (line : IsTransmitter ports data_port port bit) where
  delay_lem :
      (s : S)
      → (line.sent (delay ports s) ≡ line.sent s) × (line.busy (delay ports s) ≤ line.busy s)
  unfolding delay
  delay_lem s =
      let t = (ports.inb 0x84 s).1 in
      let u = (ports.inb 0x84 t).1 in
      let v = (ports.inb 0x84 u).1 in
      (
        (line.pause v).0 ∙ (line.pause u).0 ∙ (line.pause t).0 ∙ (line.pause s).0,
        omega (arith, (line.pause v).1, (line.pause u).1, (line.pause t).1, (line.pause s).1),
      )

  wait_lem :
      (k : ℕ) (s : S)
      → line.busy s ≤ k
      → (line.sent (wait ports port bit k s) ≡ line.sent s)
        × (line.busy (wait ports port bit k s) ≡ 0)
  unfolding wait
  wait_lem zero s le =
      let h = line.look s in
      elim h.1 [ inl ready ↦ (h.0, ready.1) | inr waits ↦ absurd (omega (arith, waits.1)) ]
  wait_lem (suc k) s le =
      let h = line.look s in
      elim h.1 [
        | inl ready ↦
            let go : bit_and (ports.inb port s).0 bit == 0 ≡ false =
              ne→== (bit_and (ports.inb port s).0 bit) 0 ready.0 in
            rw go (h.0, ready.1)
        | inr waits ↦
            let s' = (ports.inb port s).1 in
            let d = delay_lem s' in
            let again : bit_and (ports.inb port s).0 bit == 0 ≡ true = ap (λ z. z == 0) waits.0 in
            let r = wait_lem k (delay ports s') (omega (arith, waits.1, d.1)) in
            rw again (r.0 ∙ d.0 ∙ h.0, r.1)
      ]

module _ {S : Type 0} (ports : Ports S) where
  -- On a serial line that is ready within 12800 looks at its status: serial_putc sends the low byte
  -- of the character, once, and nothing else.
  pub serial_putc_lem :
      (line : IsTransmitter ports 0x3F8 0x3FD 0x20) (c : ℕ) (s : S)
      → line.busy s ≤ patience
      → line.sent (serial_putc ports c s) ≡ line.sent s ++ (c % 2 ^ 8 ∷ [])
  unfolding serial_putc
  serial_putc_lem line c s le =
      let h = wait_lem ports line patience s le in
      line.send (wait ports 0x3FD 0x20 patience s) (c % 2 ^ 8) h.1 (omega arith)
      ∙ ap (λ z. z ++ (c % 2 ^ 8 ∷ [])) h.0
