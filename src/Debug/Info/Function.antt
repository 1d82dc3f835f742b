-- ===== src/Debug/Info/Function.antt =====
-- debuginfo_eip on a table whose entries are in order.
use tp_prom.Prelude.{
  ℕ, ◌+◌, ◌-◌, ◌%◌, ◌^◌, ◌≤◌, ◌<◌, ◌≡◌, refl, ap, List, inl, inr, arith, length, Returns,
  Returns_bind, le→ltb, true, false, get_elem?,
}
use tp_prom.Prelude.Int.{pos, sub_ℕ}
use tp_prom.Paging.Address.{ulim}
use tp_prom.Debug.{Stab, Region}
use tp_prom.Debug.Scan.{entry}
use tp_prom.Debug.First.{stop_of-sub_ℕ}
use tp_prom.Debug.Info.{
  Info, Outcome, returned, unknown, initial, n_fun, n_sline, n_so, ends_in_nul, is_region, indices,
  binsearch, name_at, Place, place_function, name_length, line_number, file_back, parameters,
  describe, is_first, whole, debuginfo_eip,
}
use tp_prom.Debug.Info.Parts.{
  parameters_total, file_back_total, name_length_total, get_elem?-Returns, name_at-ends_in_nul,
}
use tp_prom.Debug.Info.Total.{back_fits, parameters_fit}
use tp_prom.Debug.Info.Search.{Holds, IsSearchable, region, binsearch-Holds}

-- What `*info` says: the function of the entry at `fn`, and the line of the entry at `line`.
pub record Describes (stabs : List Stab) (stabstr : List ℕ) (fn line : ℕ) (info : Info)
    : Type 0 where
  pub fn_addr : info.eip_fn_addr ≡ (entry stabs fn).n_value
  pub fn_name : info.eip_fn_name ≡ name_at stabstr (entry stabs fn).n_strx unknown
  pub line_of : info.eip_line ≡ (entry stabs line).n_desc

abbrev pub IsFound : List Stab → List ℕ → ℕ → ℕ → Outcome → Type 0
IsFound stabs stabstr fn line o =
    (info : Info) × (o ≡ returned (pos 0) info) × Describes stabs stabstr fn line info

is_region-region : (m next : ℕ) → m < next → is_region (region m next) ≡ true
is_region-region m next lt = ground arith

found_place : List Stab → List ℕ → ℕ → ℕ → ℕ → Place
found_place stabs stabstr addr fn fn_end = record {
  info = record (initial addr) {
    eip_fn_name = name_at stabstr (entry stabs fn).n_strx unknown;
    eip_fn_addr = (entry stabs fn).n_value;
  };
  addr = addr - (entry stabs fn).n_value;
  lines = region fn fn_end;
}

offset : (addr v : ℕ) → v ≤ addr → addr < 2 ^ 32 → (addr + 2 ^ 32 - v) % 2 ^ 32 ≡ addr - v
offset addr v le lt = ground arith

module _ (stabs : List Stab) (stabstr : List ℕ) (addr : ℕ) (fn fn_end : ℕ) (lt : fn < fn_end)
    (fits : fn_end ≤ length stabs) where
  place_function_found :
      (file : Region)
      → (entry stabs fn).n_value ≤ addr
      → addr < 2 ^ 32
      → Returns
          (place_function stabs stabstr addr file (region fn fn_end))
          (λ p. p ≡ found_place stabs stabstr addr fn fn_end)
  unfolding place_function found_place
  place_function_found file le small = rw (is_region-region fn fn_end lt) (
      Returns_bind (λ s. s ≡ entry stabs fn) (λ p. p ≡ found_place stabs stabstr addr fn fn_end)
        (get_elem? stabs fn) _
        (λ s e. rw e (rw (offset addr (entry stabs fn).n_value le small) refl))
        (get_elem?-Returns stabs fn (omega arith)))

line_number_found :
    (stabs : List Stab) (line line_end : ℕ)
    → line < line_end
    → line_end ≤ length stabs
    → Returns (line_number stabs (region line line_end)) (λ n. n ≡ (entry stabs line).n_desc)
unfolding line_number
line_number_found stabs line line_end lt fits = rw (is_region-region line line_end lt) (
    Returns_bind (λ s. s ≡ entry stabs line) (λ n. n ≡ (entry stabs line).n_desc)
      (get_elem? stabs line) _ (λ s e. ap (λ s. s.n_desc) e)
      (get_elem?-Returns stabs line (omega arith)))

up_to :
    {stabs : List Stab} {type left stop addr m next : ℕ}
    → Holds stabs type left stop addr m next
    → (m < next) × (next ≤ stop)
up_to h = elim h.ends [ inl e ↦ (h.before, omega arith) | inr lt ↦ (h.before, omega (arith, lt.0)) ]

module _ (stabs : List Stab) (stabstr : List ℕ) (addr so so_end fn fn_end line line_end : ℕ) where
  describe-IsFound :
      ends_in_nul stabstr ≡ true
      → addr + 1 < 2 ^ 32
      → so_end ≤ length stabs
      → so < so_end
      → Holds stabs n_fun so so_end addr fn fn_end
      → IsSearchable stabs n_sline fn fn_end (addr - (entry stabs fn).n_value)
      → Holds stabs n_sline fn fn_end (addr - (entry stabs fn).n_value) line line_end
      → Returns
          (describe stabs stabstr addr (region so so_end) (region fn fn_end))
          (IsFound stabs stabstr fn line)
  unfolding describe found_place
  describe-IsFound nul small fits so_lt h ok_line h_line =
      Returns_bind (λ p. p ≡ found_place stabs stabstr addr fn fn_end) Found _ _
        (λ p e. rw e (
          Returns_bind (λ n. Unit {0}) Found (name_length name) _
            (λ n u.
              Returns_bind (λ r. r ≡ region line line_end) Found
                (binsearch stabs (region fn fn_end) n_sline (addr - (entry stabs fn).n_value)) _
                (λ lines e. rw e (
                  Returns_bind (λ n. n ≡ (entry stabs line).n_desc) Found
                    (line_number stabs (region line line_end)) _
                    (λ l e.
                      Returns_bind (λ o. Unit {0}) Found
                        (file_back stabs so (indices (pos so) (pos line))) _
                        (λ source u.
                          Returns_bind (λ m. m ≤ indices (pos fn) (sub_ℕ fn_end 1) - 2) Found
                            (parameters stabs (fn + 1) (indices (pos fn) (sub_ℕ fn_end 1) - 2)) _
                            (λ m le.
                              (_, refl, record { fn_addr = refl; fn_name = refl; line_of = e }))
                            (parameters_total stabs _ _ (
                              parameters_fit (region fn fn_end) fn (length stabs) refl (omega arith)
                                (rw (stop_of-sub_ℕ fn_end) (omega arith)))))
                        (file_back_total stabs _ _ (
                          back_fits (region so so_end) (region line line_end) so line (length stabs)
                            refl refl (omega arith) (omega arith))))
                    (line_number_found stabs line line_end at_line.0 (omega arith))))
                (binsearch-Holds ok_line (region fn fn_end) refl (stop_of-sub_ℕ fn_end)
                  (omega arith) (omega arith) h_line))
            (name_length_total name (name_at-ends_in_nul stabstr (entry stabs fn).n_strx nul))))
        (place_function_found stabs stabstr addr fn fn_end at_fn.0 (omega arith) (region so so_end)
          h.begins (omega arith))
    where
      name : List ℕ
      name = name_at stabstr (entry stabs fn).n_strx unknown

      Found : Outcome → Type 0
      Found = IsFound stabs stabstr fn line

      at_fn : (fn < fn_end) × (fn_end ≤ so_end)
      at_fn = up_to h

      at_line : (line < line_end) × (line_end ≤ fn_end)
      at_line = up_to h_line

  -- For a kernel address, a string table that ends in a zero, and entries in order, none of which
  -- begins just behind the address (or behind its offset in the function): if the last source file
  -- that begins at or before the address is not entry 0, the last function of that file that does
  -- is entry `fn`, and the last line of that function that begins at or before the offset is entry
  -- `line`, then debuginfo_eip returns 0, with that function's address and name and that line's
  -- number.
  pub debuginfo_eip-IsFound :
      ulim ≤ addr
      → addr + 1 < 2 ^ 32
      → ends_in_nul stabstr ≡ true
      → IsSearchable stabs n_so 0 (length stabs) addr
      → Holds stabs n_so 0 (length stabs) addr so so_end
      → 0 < so
      → IsSearchable stabs n_fun so so_end addr
      → Holds stabs n_fun so so_end addr fn fn_end
      → IsSearchable stabs n_sline fn fn_end (addr - (entry stabs fn).n_value)
      → Holds stabs n_sline fn fn_end (addr - (entry stabs fn).n_value) line line_end
      → Returns (debuginfo_eip stabs stabstr addr) (IsFound stabs stabstr fn line)
  unfolding debuginfo_eip
  debuginfo_eip-IsFound kernel small nul ok_so h_so later ok_fn h_fn ok_line h_line =
      let at_so = up_to h_so in
      simp (le→ltb _ _ kernel, nul)
        (Returns_bind (λ r. r ≡ region so so_end) (IsFound stabs stabstr fn line)
          (binsearch stabs (whole stabs) n_so addr) _
          (λ file e. rw e (
            rw (not_first so later) (
              Returns_bind (λ r. r ≡ region fn fn_end) (IsFound stabs stabstr fn line)
                (binsearch stabs (region so so_end) n_fun addr) _
                (λ r e. rw e (describe-IsFound nul small at_so.1 at_so.0 h_fn ok_line h_line))
                (binsearch-Holds ok_fn (region so so_end) refl (stop_of-sub_ℕ so_end)
                  (omega (arith, at_so)) small h_fn))))
          (binsearch-Holds ok_so (whole stabs) refl (stop_of-sub_ℕ (length stabs)) (omega arith)
            small h_so))
    where
      not_first : (i : ℕ) → 0 < i → is_first (pos i) ≡ false
      not_first i lt = ground arith
