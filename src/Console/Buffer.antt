-- ===== src/Console/Buffer.antt =====
-- kern/console.c: the circular buffer of pending input, cons_intr, which fills it, and cons_getc.
pub mod Queue
use tp_prom.Prelude.{ℕ, ◌+◌, ◌%◌, List, [], ◌∷◌, ◌==◌, set, get_or, Bool, if◌then◌else◌}

-- CONSBUFSIZE
abbrev pub buffer_size : ℕ
buffer_size = 512

-- `cons`
pub record Cons : Type 0 where
  pub buf : List ℕ
  pub rpos : ℕ
  pub wpos : ℕ

-- `pos++`, back to 0 at the end of the buffer.
abbrev pub advance : ℕ → ℕ
advance pos = if pos + 1 == buffer_size then 0 else pos + 1

-- The body of the loop in cons_intr, for a character that is not 0.
abbrev pub put : ℕ → Cons → Cons
put c s = record { buf = set s.buf s.wpos (c % 256); rpos = s.rpos; wpos = advance s.wpos }

-- The list holds what `proc` returns before it returns -1.
unfoldable pub cons_intr : List ℕ → Cons → Cons
cons_intr [] s = s
cons_intr (c ∷ cs) s = cons_intr cs (if c == 0 then s else put c s)

-- `received` is what serial_proc_data returns.
unfoldable pub serial_intr : Bool → List ℕ → Cons → Cons
serial_intr serial_exists received s = if serial_exists then cons_intr received s else s

-- The part of cons_getc after it has polled the devices.
abbrev pub take_pending : Cons → ℕ × Cons
take_pending s =
    if s.rpos == s.wpos
    then (0, s)
    else (get_or s.buf s.rpos 0, record { buf = s.buf; rpos = advance s.rpos; wpos = s.wpos })

unfoldable pub cons_getc : Bool → List ℕ → List ℕ → Cons → ℕ × Cons
cons_getc serial_exists received typed s =
    take_pending (cons_intr typed (serial_intr serial_exists received s))
