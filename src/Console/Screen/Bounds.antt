-- ===== src/Console/Screen/Bounds.antt =====
-- The size of the display's memory and the position on the display, under cons_putc.
use native.Mathlib.Nat.{mod-lt}
use tp_prom.Prelude.{
  ◌∙◌, ℕ, ◌+◌, ◌-◌, ◌*◌, ◌/◌, ◌%◌, ◌^◌, ◌<◌, ◌≡◌, List, ◌++◌, ◌==◌, ltb, leb, take, drop, replicate,
  length, length-set, length-take, length-drop, length-append, length-replicate, Bool-cases, inl,
  inr, arith,
}
use tp_prom.Console.Screen.{
  blank, crt_cols, crt_size, Terminal, serial_putc, lpt_putc, at_cell, with_attribute, put_cell,
  scroll, move_cursor, put_character, put_blank, cga_putc, cons_putc,
}

pub record OnScreen (t : Terminal) : Type 0 where
  pub size : length t.crt_buf ≡ crt_size
  pub position : t.crt_pos < crt_size
  pub shown : t.cursor ≡ t.crt_pos

-- Before the rows are moved up, the position may be on the row behind the last.
record NearScreen (t : Terminal) : Type 0 where
  size : length t.crt_buf ≡ crt_size
  position : t.crt_pos < crt_size + crt_cols

at_cell-NearScreen :
    (buf : List ℕ) (pos : ℕ) (t : Terminal)
    → length buf ≡ crt_size
    → pos < crt_size + crt_cols
    → NearScreen (at_cell buf pos t)
at_cell-NearScreen buf pos t size position = record {
  size = size;
  position = omega (arith, position);
}

put_cell-NearScreen : (c : ℕ) (t : Terminal) → OnScreen t → NearScreen (put_cell c t)
put_cell-NearScreen c t v =
    let size = v.size in
    let position = v.position in
    let column = mod-lt (t.crt_pos + crt_cols) {m = crt_cols} (omega arith) in
    elim (Bool-cases (c % 256 == 8)) [
      | inl e ↦ rw e (elim (Bool-cases (ltb 0 t.crt_pos)) [
        | inl g ↦ rw g (
            at_cell-NearScreen _ _ t (length-set t.crt_buf (t.crt_pos - 1) _ ∙ size)
              (omega (arith, position)))
        | inr g ↦ rw g (record { size = size; position = omega (arith, position) })
      ])
      | inr e ↦ rw e (elim (Bool-cases (c % 256 == 10)) [
        | inl g ↦ rw g (at_cell-NearScreen _ _ t size (omega (arith, position)))
        | inr g ↦ rw g (elim (Bool-cases (c % 256 == 13)) [
          | inl h ↦ rw h (at_cell-NearScreen _ _ t size (omega (arith, position)))
          | inr h ↦ rw h (
              at_cell-NearScreen _ _ t (length-set t.crt_buf t.crt_pos _ ∙ size)
                (omega (arith, position)))
        ])
      ])
    ]

length-scrolled :
    (buf : List ℕ)
    → length buf ≡ crt_size
    → length (take (crt_size - crt_cols) (drop crt_cols buf) ++ replicate crt_cols blank) ≡ crt_size
length-scrolled buf size =
    let kept = take (crt_size - crt_cols) (drop crt_cols buf) in
    omega (
      arith,
      size,
      length-append kept (replicate crt_cols blank),
      length-take (crt_size - crt_cols) (drop crt_cols buf),
      length-drop crt_cols buf,
      length-replicate crt_cols blank,
    )

whole_cursor : (p : ℕ) → p < 2 ^ 16 → p / 256 % 256 * 256 + p % 256 ≡ p
whole_cursor p h = omega arith

scroll-OnScreen : (t : Terminal) → NearScreen t → OnScreen (move_cursor (scroll t))
scroll-OnScreen t v =
    let size = v.size in
    let position = v.position in
    elim (Bool-cases (leb crt_size t.crt_pos)) [
      | inl e ↦ rw e (record {
        size = length-scrolled t.crt_buf size;
        position = omega (arith, position);
        shown = whole_cursor _ (omega (arith, position));
      })
      | inr e ↦ rw e (record {
        size = size;
        position = ground (arith, e);
        shown = whole_cursor _ (omega (arith, position));
      })
    ]

put_character-OnScreen : (c : ℕ) (t : Terminal) → OnScreen t → OnScreen (put_character c t)
unfolding put_character
put_character-OnScreen c t v =
    scroll-OnScreen (put_cell (with_attribute c) t) (put_cell-NearScreen (with_attribute c) t v)

sent-OnScreen : (c : ℕ) (t : Terminal) → OnScreen t → OnScreen (lpt_putc c (serial_putc c t))
sent-OnScreen c t v = record { size = v.size; position = v.position; shown = v.shown }

put_blank-OnScreen : (t : Terminal) → OnScreen t → OnScreen (put_blank t)
put_blank-OnScreen t v =
    put_character-OnScreen 32 (lpt_putc 32 (serial_putc 32 t)) (sent-OnScreen 32 t v)

OnScreen-NearScreen : (t : Terminal) → OnScreen t → NearScreen t
OnScreen-NearScreen t v =
    let position = v.position in record { size = v.size; position = omega (arith, position) }

-- Whatever is written to the console, the display's memory keeps its size of 2000 cells, the
-- position stays on the display, and the cursor is shown at the position.
pub cons_putc-OnScreen : (c : ℕ) (t : Terminal) → OnScreen t → OnScreen (cons_putc c t)
unfolding cons_putc cga_putc
cons_putc-OnScreen c t v =
    let t₀ = lpt_putc c (serial_putc c t) in
    let v₀ = sent-OnScreen c t v in
    elim (Bool-cases (with_attribute c % 256 == 9)) [
      | inl e ↦ rw e (
          let v₁ = put_blank-OnScreen t₀ v₀ in
          let v₂ = put_blank-OnScreen _ v₁ in
          let v₃ = put_blank-OnScreen _ v₂ in
          let v₄ = put_blank-OnScreen _ v₃ in
          let v₅ = put_blank-OnScreen _ v₄ in scroll-OnScreen _ (OnScreen-NearScreen _ v₅))
      | inr e ↦ rw e (put_character-OnScreen c t₀ v₀)
    ]
