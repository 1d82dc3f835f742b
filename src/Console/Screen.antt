-- ===== src/Console/Screen.antt =====
-- kern/console.c: output to the serial line, the parallel port and the text display, as what they
-- are sent. The waiting loops of the two ports change nothing here: Console/Lines has them.
pub mod Bounds
pub mod Text
use tp_prom.Prelude.{
  ℕ, ◌+◌, ◌-◌, ◌*◌, ◌/◌, ◌%◌, ◌^◌, List, [], ◌∷◌, ◌++◌, ◌==◌, ltb, leb, set, take, drop, replicate,
  if◌then◌else◌,
}

-- CRT_COLS and CRT_SIZE
abbrev pub crt_cols : ℕ
crt_cols = 80

abbrev pub crt_size : ℕ
crt_size = 25 * crt_cols

-- The bytes sent to the two ports, the display's memory, the position and the place of the cursor
-- that the controller shows.
pub record Terminal : Type 0 where
  pub serial : List ℕ
  pub parallel : List ℕ
  pub crt_buf : List ℕ
  pub crt_pos : ℕ
  pub cursor : ℕ

abbrev pub serial_putc : ℕ → Terminal → Terminal
serial_putc c t = record {
  serial = t.serial ++ (c % 256 ∷ []);
  parallel = t.parallel;
  crt_buf = t.crt_buf;
  crt_pos = t.crt_pos;
  cursor = t.cursor;
}

abbrev pub lpt_putc : ℕ → Terminal → Terminal
lpt_putc c t = record {
  serial = t.serial;
  parallel = t.parallel ++ (c % 256 ∷ []);
  crt_buf = t.crt_buf;
  crt_pos = t.crt_pos;
  cursor = t.cursor;
}

-- A cell of 16 bits is written, and the position of 16 bits is set.
abbrev pub at_cell : List ℕ → ℕ → Terminal → Terminal
at_cell buf pos t = record {
  serial = t.serial;
  parallel = t.parallel;
  crt_buf = buf;
  crt_pos = pos % 2 ^ 16;
  cursor = t.cursor;
}

-- Black on white, if no attribute is given.
abbrev pub with_attribute : ℕ → ℕ
with_attribute c = if c / 256 == 0 then c + 0x0700 else c

-- The cell of a blank: `0x0700 | ' '`
abbrev pub blank : ℕ
blank = 0x0720

-- The cases of the switch in cga_putc, but for the tab.
abbrev pub put_cell : ℕ → Terminal → Terminal
put_cell c t =
    if c % 256 == 8
    then (if ltb 0 t.crt_pos
        then at_cell (set t.crt_buf (t.crt_pos - 1) ((c - c % 256 + 32) % 2 ^ 16)) (t.crt_pos - 1) t
        else t)
    else if c % 256 == 10
    then at_cell t.crt_buf (t.crt_pos + crt_cols - (t.crt_pos + crt_cols) % crt_cols) t
    else if c % 256 == 13
    then at_cell t.crt_buf (t.crt_pos - t.crt_pos % crt_cols) t
    else at_cell (set t.crt_buf t.crt_pos (c % 2 ^ 16)) (t.crt_pos + 1) t

-- All rows go up by one, when the position is behind the last.
abbrev pub scroll : Terminal → Terminal
scroll t =
    if leb crt_size t.crt_pos
    then at_cell (take (crt_size - crt_cols) (drop crt_cols t.crt_buf) ++ replicate crt_cols blank)
        (t.crt_pos - crt_cols) t
    else t

-- The cursor is moved to the position.
abbrev pub move_cursor : Terminal → Terminal
move_cursor t = record {
  serial = t.serial;
  parallel = t.parallel;
  crt_buf = t.crt_buf;
  crt_pos = t.crt_pos;
  cursor = t.crt_pos / 256 % 256 * 256 + t.crt_pos % 256;
}

-- cga_putc of a character that is not a tab.
unfoldable pub put_character : ℕ → Terminal → Terminal
put_character c t = move_cursor (scroll (put_cell (with_attribute c) t))

-- cons_putc of a blank, which a tab calls.
abbrev pub put_blank : Terminal → Terminal
put_blank t = put_character 32 (lpt_putc 32 (serial_putc 32 t))

unfoldable pub cga_putc : ℕ → Terminal → Terminal
cga_putc c t =
    if with_attribute c % 256 == 9
    then move_cursor (scroll (put_blank (put_blank (put_blank (put_blank (put_blank t))))))
    else put_character c t

unfoldable pub cons_putc : ℕ → Terminal → Terminal
cons_putc c t = cga_putc c (lpt_putc c (serial_putc c t))
