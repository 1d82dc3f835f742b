-- ===== src/Ports.antt =====
-- inc/x86.h: the accesses to input and output ports. The devices behind the ports are a parameter:
-- a state, and what each access answers and changes.
use tp_prom.Prelude.{ℕ, List}

-- `inb` and the outputs carry one number; `insl` reads `cnt` words of four bytes, as bytes.
pub record Ports (S : Type 0) : Type 0 where
  pub inb : ℕ → S → ℕ × S
  pub outb : ℕ → ℕ → S → S
  pub outw : ℕ → ℕ → S → S
  pub insl : ℕ → ℕ → S → List ℕ × S
