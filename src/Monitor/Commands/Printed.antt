-- ===== src/Monitor/Commands/Printed.antt =====
-- What the calls of cprintf of the commands print.
use mathlib.Core.List.{append-nil}
use tp_prom.Prelude.{
  ℕ, suc, ◌+◌, ◌-◌, ◌/◌, ◌^◌, ◌%◌, ◌≤◌, ◌<◌, ◌≡◌, refl, ap, ◌∙◌, false, ltb, if◌then◌else◌, ne→==,
  some, List, [], ◌∷◌, ◌++◌, map, length, arith,
}
use tp_prom.Prelude.Int.{pos, negsuc, pos_part, minus}
use tp_prom.Strings.Scan.{c_string, NoNul}
use tp_prom.Format.Flags.{Arg, text, plain, scan, next_char}
use tp_prom.Format.Convert.{convert, extend, print_chars, print_string, pad_left}
use tp_prom.Format.Print.{print, vprintfmt, resume, prefixed}
use tp_prom.Format.Print.Laws.{vprintfmt_text}
use tp_prom.Paging.Address.{kernbase, roundup, roundup_lem}
use tp_prom.Console.Screen.{Terminal}
use tp_prom.Console.Screen.Bounds.{OnScreen}
use tp_prom.Console.Screen.Text.{put_text, put_text-append}
use tp_prom.Console.Output.{cprintf-put_text}
use tp_prom.Monitor.Commands.{
  Symbols, name_1, name_2, desc_1, desc_2, print_lines, help_line, help_lines, mon_help,
  kerninfo_lines, mon_kerninfo, footprint, physical, unknown_line,
}
use tp_prom.Monitor.Commands.Items.{clean_text, Renders, line_of, joined, print_lines-Renders}
use tp_prom.Monitor.Commands.Texts.{IsLinked, kerninfo_items, help_line_1, help_line_2}

print_chars-c_string :
    (w u : List ℕ) → NoNul w → print_chars false (negsuc 0) (c_string w u) ≡ some (map extend w)
unfolding print_chars
print_chars-c_string [] u h = refl
print_chars-c_string (c ∷ w) u (h, hs) = rw (ne→== c 0 h, print_chars-c_string w u hs) refl

unpadded : (n : ℕ) → pos_part (minus (negsuc 0) n) ≡ 0
unpadded n = ground arith

pub print_string-c_string :
    (w u : List ℕ) → NoNul w → print_string plain (c_string w u) ≡ some (map extend w)
unfolding print_string pad_left
print_string-c_string w u h =
    rw (print_chars-c_string w u h, unpadded (length (map extend w)), append-nil (map extend w))
      refl

vprintfmt_string :
    (p out rest : List ℕ) (args : List Arg) (fuel : ℕ)
    → print_string plain p ≡ some out
    → vprintfmt (suc fuel) (b'%' ∷ b's' ∷ rest) (text (some p) ∷ args)
      ≡ prefixed out (vprintfmt fuel rest args)
unfolding vprintfmt scan next_char resume convert
vprintfmt_string p out rest args fuel e = rw e refl

pub print-unknown_line :
    (p out : List ℕ)
    → print_string plain p ≡ some out
    → print unknown_line (text (some p) ∷ [])
      ≡ some (
          (b'U' ∷ b'n' ∷ b'k' ∷ b'n' ∷ b'o' ∷ b'w' ∷ b'n' ∷ b' ' ∷ b'c' ∷ b'o' ∷ b'm' ∷ b'm' ∷ b'a'
            ∷ b'n' ∷ b'd' ∷ b' ' ∷ 39 ∷ [])
          ++ (out ++ (39 ∷ 10 ∷ [])))
unfolding print vprintfmt
print-unknown_line p out e =
    let front : List ℕ =
      (b'U' ∷ b'n' ∷ b'k' ∷ b'n' ∷ b'o' ∷ b'w' ∷ b'n' ∷ b' ' ∷ b'c' ∷ b'o' ∷ b'm' ∷ b'm' ∷ b'a'
        ∷ b'n' ∷ b'd' ∷ b' ' ∷ 39 ∷ []) in
    let back : List ℕ = (39 ∷ 10 ∷ []) in
    vprintfmt_text front (b'%' ∷ b's' ∷ back) (text (some p) ∷ []) 13 (clean_text front refl)
    ∙ ap (prefixed front) (vprintfmt_string p out back [] 12 e ∙ ap (prefixed out) back_printed)
  where
    back_printed : vprintfmt 12 (39 ∷ 10 ∷ []) [] ≡ some (39 ∷ 10 ∷ [])
    back_printed = refl

printed_1 : print help_line (text (some name_1) ∷ text (some desc_1) ∷ []) ≡ some help_line_1
unfolding print vprintfmt scan next_char resume convert print_string pad_left print_chars
printed_1 = refl

printed_2 : print help_line (text (some name_2) ∷ text (some desc_2) ∷ []) ≡ some help_line_2
unfolding print vprintfmt scan next_char resume convert print_string pad_left print_chars
printed_2 = refl

pub mon_help_lem :
    (t : Terminal) → OnScreen t → mon_help t ≡ some (pos 0, put_text (help_line_1 ++ help_line_2) t)
unfolding mon_help help_lines print_lines
mon_help_lem t v =
    let a =
      cprintf-put_text help_line (text (some name_1) ∷ text (some desc_1) ∷ []) help_line_1 t
        printed_1 v in
    let b =
      cprintf-put_text help_line (text (some name_2) ∷ text (some desc_2) ∷ []) help_line_2
        (put_text help_line_1 t) printed_2 a.1 in
    rw a.0 (rw b.0 (ap (λ z. some (pos 0, z)) (put_text-append help_line_1 help_line_2 t)))

module _ (s : Symbols) (linked : IsLinked s) where
  physical_lem : (a : ℕ) → kernbase ≤ a → a < 2 ^ 32 → physical a ≡ a - kernbase
  physical_lem a h k = omega arith

  footprint_lem : footprint s.entry s.end ≡ (s.end - s.entry + 1023) / 1024
  footprint_lem =
      let n = s.end - s.entry in
      let wrapped : (s.end + 2 ^ 32 - s.entry) % 2 ^ 32 ≡ n =
        omega (arith, linked.low, linked.ordered, linked.top) in
      let r = roundup_lem n 1024 (omega arith) (omega (arith, linked.low, linked.top)) in
      rw wrapped (kilobytes (roundup n 1024) n r.0 r.1 r.2 (omega (arith, linked.low, linked.top)))
    where
      kilobytes :
          (size n : ℕ)
          → n ≤ size
          → size < n + 1024
          → size % 1024 ≡ 0
          → n < 2 ^ 28
          → (if ltb size (2 ^ 31) then size / 1024 else 2 ^ 32 - (2 ^ 32 - size) / 1024)
            ≡ (n + 1023) / 1024
      kilobytes size n low high whole fits = ground arith

  lines_lem : kerninfo_lines s ≡ map line_of (kerninfo_items s)
  lines_lem =
      rw
        (
          physical_lem s.entry linked.low (omega (arith, linked.ordered, linked.top)),
          physical_lem s.etext linked.text_end.0 linked.text_end.1,
          physical_lem s.edata linked.data_end.0 linked.data_end.1,
          physical_lem s.end (omega (arith, linked.low, linked.ordered)) linked.top,
          footprint_lem,
        )
        refl

  pub mon_kerninfo_lem :
      (t : Terminal)
      → OnScreen t
      → (out : List ℕ) × Renders (joined (kerninfo_items s)) out
        × (mon_kerninfo s t ≡ some (pos 0, put_text out t))
  unfolding mon_kerninfo
  mon_kerninfo_lem t v =
      let entry : s.entry < 2 ^ 32 = omega (arith, linked.ordered, linked.top) in
      let small : (s.end - s.entry + 1023) / 1024 < 2 ^ 31 = omega (arith, linked.top) in
      let (out, r, e) =
        print_lines-Renders (kerninfo_items s) t
          (
            (refl, tt),
            (
              (refl, (linked.start, (refl, tt))),
              (
                (refl, (entry, (refl, (omega (arith, entry), (refl, tt))))),
                (
                  (
                    refl,
                    (linked.text_end.1, (refl, (omega (arith, linked.text_end.1), (refl, tt)))),
                  ),
                  (
                    (
                      refl,
                      (linked.data_end.1, (refl, (omega (arith, linked.data_end.1), (refl, tt)))),
                    ),
                    (
                      (refl, (linked.top, (refl, (omega (arith, linked.top), (refl, tt))))),
                      ((refl, (small, (refl, tt))), tt),
                    ),
                  ),
                ),
              ),
            ),
          )
          v in
      (out, r, rw lines_lem (rw e refl))
