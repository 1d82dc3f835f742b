-- ===== src/Console/Lines/Tests.antt =====
-- Tests of the serial line, on a simulated one.
use Prim.Native.Nat.{bit_and}
use tp_prom.Prelude.{
  ℕ, zero, suc, ◌<◌, ◌≡◌, ◌≢◌, ◌⊎◌, refl, List, [], ◌∷◌, ◌++◌, ◌==◌, if◌then◌else◌, arith, inl, inr,
}
use tp_prom.Ports.{Ports}
use tp_prom.Console.Lines.{IsTransmitter, serial_putc, serial_putc_lem}

record Simulated : Type 0 where
  out : List ℕ
  looks : ℕ

abbrev status : Simulated → ℕ × Simulated
status s = elim s.looks as (λ n. ℕ × Simulated) [
  | zero ↦ (0x60, record s { looks = 0 })
  | suc n ↦ (0x00, record s { looks = n })
]

abbrev simulated_ports : Ports Simulated
simulated_ports = record {
  inb = λ port s. if port == 0x3FD then status s else (0xFF, s);
  outb = λ port v s. if port == 0x3F8 then record s { out = s.out ++ (v ∷ []) } else s;
  outw = λ port v s. s;
  insl = λ port n s. ([], s);
}

simulated-IsTransmitter : IsTransmitter simulated_ports 0x3F8 0x3FD 0x20
simulated-IsTransmitter = record {
  sent = λ s. s.out;
  busy = λ s. s.looks;
  look = λ s. look s.out s.looks;
  pause = λ s. (refl, omega arith);
  send = λ s v ready byte. refl;
}
  where
    look :
        (out : List ℕ) (n : ℕ)
        → let s : Simulated = record { out = out; looks = n } in
          ((status s).1.out ≡ out)
          × (((bit_and (status s).0 0x20 ≢ 0) × ((status s).1.looks ≡ 0))
              ⊎ ((bit_and (status s).0 0x20 ≡ 0) × ((status s).1.looks < n)))
    look out zero = (refl, inl ((λ e. absurd (omega (arith, e))), refl))
    look out (suc n) = (refl, inr (refl, omega arith))

abbrev line : Simulated
line = record { out = b'J' ∷ []; looks = 3 }

serial_putc_lem_example : (serial_putc simulated_ports 0x141 line).out ≡ b'J' ∷ 0x41 ∷ []
unfolding simulated-IsTransmitter
serial_putc_lem_example =
    serial_putc_lem simulated_ports simulated-IsTransmitter 0x141 line (omega arith)
