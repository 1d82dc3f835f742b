-- ===== src/Console/Screen/Text.antt =====
-- Plain text on the display, and the way a new line moves the rows up.
use mathlib.Core.List.{append_assoc, append-nil}
use tp_prom.Prelude.{
  ℕ, zero, suc, ◌+◌, ◌-◌, ◌/◌, ◌%◌, ◌^◌, ◌≤◌, ◌<◌, ◌≡◌, refl, ap, sym, ◌∙◌, ◌⊎◌, List, [], ◌∷◌,
  ◌++◌, ◌==◌, leb, set, take, drop, replicate, get_or, length, length-take, length-drop,
  get_or-drop, get_or-take, get_or-append_left, get_or-append_right, get_or-replicate,
  get_or-set_self, get_or-set_ne, true, false, inl, inr, arith, All,
}
use tp_prom.Console.Screen.{blank, crt_cols, crt_size, Terminal, put_character, cga_putc, cons_putc}
use tp_prom.Console.Screen.Bounds.{OnScreen, cons_putc-OnScreen}

-- The characters of a string, written one after the other.
abbrev pub put_text : List ℕ → Terminal → Terminal
put_text [] t = t
put_text (c ∷ cs) t = put_text cs (cons_putc c t)

pub put_text-append :
    (a b : List ℕ) (t : Terminal) → put_text b (put_text a t) ≡ put_text (a ++ b) t
put_text-append [] b t = refl
put_text-append (c ∷ a) b t = put_text-append a b (cons_putc c t)

-- One plain character, not on the last place of the display.
cons_putc_plain :
    (c : ℕ) (t : Terminal)
    → 32 ≤ c
    → c < 256
    → t.crt_pos + 1 < crt_size
    → ((cons_putc c t).crt_buf ≡ set t.crt_buf t.crt_pos (c + 0x0700))
      × ((cons_putc c t).crt_pos ≡ t.crt_pos + 1)
      × ((cons_putc c t).serial ≡ t.serial ++ (c ∷ []))
unfolding cons_putc cga_putc put_character
cons_putc_plain c t low high room =
    let plain : (c / 256 == 0) ≡ true = ground arith in
    let tab : ((c + 0x0700) % 256 == 9) ≡ false = ground arith in
    let back : ((c + 0x0700) % 256 == 8) ≡ false = ground arith in
    let line : ((c + 0x0700) % 256 == 10) ≡ false = ground arith in
    let start : ((c + 0x0700) % 256 == 13) ≡ false = ground arith in
    let cell : (c + 0x0700) % 2 ^ 16 ≡ c + 0x0700 = omega arith in
    let next : (t.crt_pos + 1) % 2 ^ 16 ≡ t.crt_pos + 1 = omega arith in
    let stays : leb crt_size (t.crt_pos + 1) ≡ false = ground arith in
    let byte : c % 256 ≡ c = omega arith in
    rw (plain, tab, back, line, start, cell, next, stays, byte) (refl, refl, refl)

-- What text that is written from position `pos` of `buf` on leaves behind.
pub record Written (cs : List ℕ) (before after : Terminal) : Type 0 where
  inside :
      (i : ℕ) → i < length cs → get_or after.crt_buf (before.crt_pos + i) 0 ≡ get_or cs i 0 + 0x0700
  outside :
      (j : ℕ)
      → (j < before.crt_pos) ⊎ (before.crt_pos + length cs ≤ j)
      → get_or after.crt_buf j 0 ≡ get_or before.crt_buf j 0
  position : after.crt_pos ≡ before.crt_pos + length cs
  sent : after.serial ≡ before.serial ++ cs

Written-step :
    (c : ℕ) (cs : List ℕ) (t u v : Terminal)
    → t.crt_pos < length t.crt_buf
    → u.crt_buf ≡ set t.crt_buf t.crt_pos (c + 0x0700)
    → u.crt_pos ≡ t.crt_pos + 1
    → u.serial ≡ t.serial ++ (c ∷ [])
    → Written cs u v
    → Written (c ∷ cs) t v
Written-step c cs t u v room buf pos serial w =
    let moved = w.position in
    record {
      inside = inside;
      outside = λ j h.
          w.outside j
            (elim h [ inl b ↦ inl (omega (arith, pos, b)) | inr b ↦ inr (omega (arith, pos, b)) ])
          ∙ ap (λ l. get_or l j 0) buf
          ∙ get_or-set_ne t.crt_buf (c + 0x0700) 0 (λ e. elim h [
            | inl b ↦ absurd (omega (arith, b, e))
            | inr b ↦ absurd (omega (arith, b, e))
          ]);
      position = omega (arith, moved, pos);
      sent = w.sent ∙ rw serial (append_assoc t.serial (c ∷ []) cs);
    }
  where
    inside :
        (i : ℕ)
        → i < suc (length cs)
        → get_or v.crt_buf (t.crt_pos + i) 0 ≡ get_or (c ∷ cs) i 0 + 0x0700
    inside zero h =
        let same : t.crt_pos + 0 ≡ t.crt_pos = omega arith in
        ap (λ p. get_or v.crt_buf p 0) same
        ∙ w.outside t.crt_pos (inl (omega (arith, pos)))
        ∙ ap (λ l. get_or l t.crt_pos 0) buf
        ∙ get_or-set_self t.crt_buf t.crt_pos (c + 0x0700) 0 room
    inside (suc i) h =
        let same : t.crt_pos + suc i ≡ u.crt_pos + i = omega (arith, pos) in
        rw same (w.inside i (omega arith))

-- Text of plain characters (codes 32 to 255) that ends before the last place of the display stands
-- in the cells from the position on, in order, black on white; the other cells are as before, the
-- position is behind the text, and the serial line got the text.
pub put_text-Written :
    (cs : List ℕ) (t : Terminal)
    → OnScreen t
    → All (λ c. (32 ≤ c) × (c < 256)) cs
    → t.crt_pos + length cs < crt_size
    → Written cs t (put_text cs t)
put_text-Written [] t v plain room = record {
  inside = λ i h. absurd (omega arith);
  outside = λ j h. refl;
  position = omega arith;
  sent = sym (append-nil t.serial);
}
put_text-Written (c ∷ cs) t v ((low, high), plain) room =
    let size = v.size in
    let (buf, pos, serial) = cons_putc_plain c t low high (omega (arith, room)) in
    Written-step c cs t (cons_putc c t) (put_text cs (cons_putc c t)) (omega (arith, size, room))
      buf pos serial
      (put_text-Written cs (cons_putc c t) (cons_putc-OnScreen c t v) plain
        (omega (arith, pos, room)))

-- After a new line on the last row, each row is what the row below it was, the last row is blank
-- and the position is at its start.
pub newline_scrolls :
    (t : Terminal)
    → OnScreen t
    → crt_size - crt_cols ≤ t.crt_pos
    → ((i : ℕ)
        → i < crt_size - crt_cols
        → get_or (cons_putc 10 t).crt_buf i 0 ≡ get_or t.crt_buf (crt_cols + i) 0)
      × ((i : ℕ)
          → i < crt_cols
          → get_or (cons_putc 10 t).crt_buf (crt_size - crt_cols + i) 0 ≡ blank)
      × ((cons_putc 10 t).crt_pos ≡ crt_size - crt_cols)
unfolding cons_putc cga_putc put_character
newline_scrolls t v low =
    let position = v.position in
    let size = v.size in
    let kept = take (crt_size - crt_cols) (drop crt_cols t.crt_buf) in
    let rows : length kept ≡ crt_size - crt_cols = omega (
      arith,
      size,
      length-take (crt_size - crt_cols) (drop crt_cols t.crt_buf),
      length-drop crt_cols t.crt_buf,
    ) in
    let bottom : (t.crt_pos + 80 - (t.crt_pos + 80) % 80) % 2 ^ 16 ≡ crt_size =
      omega (arith, position, low) in
    rw bottom (
      (λ i h.
          get_or-append_left kept (replicate crt_cols blank) i 0 (omega (arith, rows, h))
          ∙ get_or-take (crt_size - crt_cols) (drop crt_cols t.crt_buf) i 0 h
          ∙ get_or-drop crt_cols t.crt_buf i 0),
      (λ i h.
          ap (λ n. get_or (kept ++ replicate crt_cols blank) (n + i) 0) (sym rows)
          ∙ get_or-append_right kept (replicate crt_cols blank) i 0
          ∙ get_or-replicate crt_cols blank i 0 h),
      refl,
    )
