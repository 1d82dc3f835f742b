-- ===== src/Debug/Info/Total.antt =====
-- debuginfo_eip on tables that need not be sorted.
use tp_prom.Prelude.{
  ℕ, zero, suc, ◌+◌, ◌-◌, ◌≤◌, ◌<◌, ◌≡◌, ◌≢◌, refl, subst, ap, ◌∙◌, ◌⊎◌, some, List, inl, inr,
  arith, length, Returns, Returns_bind, le→ltb, ◌==◌, if◌then◌else◌, Bool-cases, true, ◌>>=◌,
}
use tp_prom.Prelude.Int.{pos, negsuc, pos_part}
use tp_prom.Paging.Address.{ulim}
use tp_prom.Debug.{Stab, Region}
use tp_prom.Debug.Scan.{entry}
use tp_prom.Debug.First.{stop_of, stop_of-sub_ℕ, Narrowed}
use tp_prom.Debug.Info.{
  Info, Outcome, returned, initial, n_fun, n_sline, n_so, ends_in_nul, indices, binsearch,
  place_function, name_length, line_number, file_back, parameters, describe, is_first, whole,
  debuginfo_eip,
}
use tp_prom.Debug.Info.Parts.{
  Regions, IsPlace, parameters_total, file_back_total, name_length_total, binsearch-Narrowed,
  place_function_total, line_number_total,
}

-- The results: 0 with information, or -1 with the initial information.
pub data IsResult (addr : ℕ) (o : Outcome) : Type 0 where
  found : (info : Info) → o ≡ returned (pos 0) info → IsResult addr o
  not_found : o ≡ returned (negsuc 0) (initial addr) → IsResult addr o

first-or :
    (stabs : List Stab) (l type : ℕ)
    → (entry stabs 0).n_type ≢ type
    → (0 < l) ⊎ ((entry stabs l).n_type ≢ type)
first-or stabs zero type h = inr h
first-or stabs (suc l) type h = inl (omega arith)

pub back_fits :
    (file lines : Region) (a b n : ℕ)
    → file.left ≡ pos a
    → lines.left ≡ pos b
    → a < n
    → b < n
    → pos_part file.left + indices file.left lines.left ≤ n
back_fits file lines a b n e e' p q = rw e (rw e' (omega arith))

pub parameters_fit :
    (fn : Region) (a n : ℕ)
    → fn.left ≡ pos a
    → a < n
    → stop_of fn.right ≤ n
    → pos_part fn.left + 1 + (indices fn.left fn.right - 2) ≤ n
parameters_fit fn a n e p q = rw e (omega arith)

module _ (stabs : List Stab) (stabstr : List ℕ) (addr : ℕ) (file fn : Region) where
  describe_total :
      ends_in_nul stabstr ≡ true
      → (entry stabs 0).n_type ≢ n_sline
      → Regions stabs file fn
      → Returns (describe stabs stabstr addr file fn) (IsResult addr)
  unfolding describe
  describe_total nul first g =
      Returns_bind (IsPlace stabs) (IsResult addr) (place_function stabs stabstr addr file fn) _
        (λ p ip.
          Returns_bind (λ n. Unit {0}) (IsResult addr) (name_length p.info.eip_fn_name) _
            (λ n u.
              Returns_bind (Narrowed ip.at (stop_of p.lines.right)) (IsResult addr)
                (binsearch stabs p.lines n_sline p.addr) _
                (λ lines nar.
                  Returns_bind (λ n. Unit {0}) (IsResult addr) (line_number stabs lines) _
                    (λ line u.
                      Returns_bind (λ o. Unit {0}) (IsResult addr)
                        (file_back stabs (pos_part file.left) (indices file.left lines.left)) _
                        (λ source u.
                          Returns_bind (λ m. m ≤ indices fn.left fn.right - 2) (IsResult addr)
                            (parameters stabs (pos_part fn.left + 1) (indices fn.left fn.right - 2))
                            _ (λ m le. found _ refl)
                            (parameters_total stabs _ _ (
                              parameters_fit fn g.fn_at (length stabs) g.fn_left g.fn_bound
                                g.fn_inside)))
                        (file_back_total stabs _ _ (
                          back_fits file lines g.file_at nar.first (length stabs) g.file_left
                            nar.at_first (omega arith) (omega arith))))
                    (line_number_total stabs lines nar.first nar.at_first (omega arith)))
                (binsearch-Narrowed stabs p.lines ip.at n_sline p.addr ip.lines_left ip.lines_filled
                  ip.lines_inside (first-or stabs ip.at n_sline first)))
            (name_length_total _ ip.named))
        (place_function_total stabs stabstr addr file fn nul g)

later :
    (first : ℕ) {stop : ℕ} → 0 < first → (first < stop) ⊎ ((first ≡ 0) × (stop ≡ 0)) → first < stop
later first p (inl lt) = lt
later first p (inr (e, e')) = omega arith

module _ (stabs : List Stab) (stabstr : List ℕ) (addr : ℕ) where
  search_function :
      (entry stabs 0).n_type ≢ n_sline
      → ends_in_nul stabstr ≡ true
      → (file : Region) → Narrowed 0 (length stabs) file
      → Returns
          (if is_first file.left
            then some (returned (negsuc 0) (initial addr))
            else (binsearch stabs file n_fun addr >>= λ fn. describe stabs stabstr addr file fn))
          (IsResult addr)
  search_function no_sline nul file nar = elim (Bool-cases (nar.first == 0)) [
    | inl e ↦ rw nar.at_first (simp e (not_found refl))
    | inr e ↦
        let filled : nar.first < stop_of file.right = later nar.first (ground arith) nar.filled in
        rw (ap is_first nar.at_first ∙ e) (
          Returns_bind (Narrowed nar.first (stop_of file.right)) (IsResult addr)
            (binsearch stabs file n_fun addr) _
            (λ fn fn_nar. describe_total stabs stabstr addr file fn nul no_sline (record {
              file_at = nar.first;
              file_left = nar.at_first;
              file_filled = filled;
              file_inside = nar.inside;
              fn_at = fn_nar.first;
              fn_left = fn_nar.at_first;
              fn_inside = omega (arith, fn_nar.inside, nar.inside);
              fn_bound = omega (arith, fn_nar.below, nar.inside);
            }))
            (binsearch-Narrowed stabs file nar.first n_fun addr nar.at_first filled nar.inside
              (inl (ground arith))))
  ]

  -- With a first entry that is neither a source file nor a line: debuginfo_eip ends for an address
  -- of the kernel, and reads entries of the table and characters of the strings only. It returns 0,
  -- or -1 and the initial information.
  pub debuginfo_eip_total :
      ulim ≤ addr
      → (entry stabs 0).n_type ≢ n_so
      → (entry stabs 0).n_type ≢ n_sline
      → 0 < length stabs
      → Returns (debuginfo_eip stabs stabstr addr) (IsResult addr)
  unfolding debuginfo_eip
  debuginfo_eip_total kernel no_so no_sline filled =
      simp (le→ltb _ _ kernel) (elim (Bool-cases (ends_in_nul stabstr)) [
        | inr unended ↦ simp unended (not_found refl)
        | inl nul ↦ simp nul (
            Returns_bind (Narrowed 0 (length stabs)) (IsResult addr)
              (binsearch stabs (whole stabs) n_so addr) _
              (λ file nar. search_function no_sline nul file nar)
              (subst (λ n. Returns (binsearch stabs (whole stabs) n_so addr) (Narrowed 0 n))
                (stop_of-sub_ℕ (length stabs))
                (binsearch-Narrowed stabs (whole stabs) 0 n_so addr refl
                  (rw (stop_of-sub_ℕ (length stabs)) filled)
                  (rw (stop_of-sub_ℕ (length stabs)) (omega arith)) (inr no_so))))
      ])
