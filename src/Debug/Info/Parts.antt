-- ===== src/Debug/Info/Parts.antt =====
-- The parts of debuginfo_eip, on tables that need not be sorted.
use tp_prom.Prelude.{
  ℕ, zero, suc, ◌+◌, ◌≤◌, ◌<◌, ◌≡◌, ◌≢◌, refl, subst, ◌⊎◌, Option, some, List, [], ◌∷◌, inl, inr,
  arith, length, Returns, Returns_bind, ltb, leb, ◌==◌, get_elem?, get_elem?-eq-get_or, Bool,
  Bool-cases, true, false, drop, ◌>>=◌,
}
use tp_prom.Prelude.Int.{ℤ, pos, negsuc, pos_part, neg_part}
use tp_prom.Strings.Scan.{strfind}
use tp_prom.Debug.{Stab, Region}
use tp_prom.Debug.Scan.{no_stab, entry}
use tp_prom.Debug.First.{stop_of, Narrowed, stab_binsearch-Narrowed}
use tp_prom.Debug.Info.{
  unknown, n_psym, ends_in_nul, is_region, binsearch, name_at, Place, place_function, name_length,
  line_number, is_file, file_back, parameters,
}

pub get_elem?-Returns :
    (stabs : List Stab) (i : ℕ)
    → i < length stabs
    → Returns (get_elem? stabs i) (λ s. s ≡ entry stabs i)
get_elem?-Returns stabs i lt = rw (get_elem?-eq-get_or stabs i no_stab lt) refl

pub parameters_total :
    (stabs : List Stab) (i k : ℕ)
    → i + k ≤ length stabs
    → Returns (parameters stabs i k) (λ m. m ≤ k)
unfolding parameters
parameters_total stabs i zero fits = omega arith
parameters_total stabs i (suc k) fits =
    Returns_bind (λ s. s ≡ entry stabs i) (λ m. m ≤ suc k) (get_elem? stabs i) _
      (λ s e. next _ (parameters_total stabs (i + 1) k (omega arith)) (s.n_type == n_psym))
      (get_elem?-Returns stabs i (omega arith))
  where
    next :
        (rest : Option ℕ)
        → Returns rest (λ m. m ≤ k)
        → (b : Bool)
        → Returns
            (elim b as (λ x. Option ℕ) [ true ↦ rest >>= (λ n. some (n + 1)) | false ↦ some 0 ])
            (λ m. m ≤ suc k)
    next rest h false = omega arith
    next rest h true =
        Returns_bind (λ m. m ≤ k) (λ m. m ≤ suc k) rest (λ n. some (n + 1))
          (λ m h. omega (arith, h)) h

pub file_back_total :
    (stabs : List Stab) (lo k : ℕ)
    → lo + k ≤ length stabs
    → Returns (file_back stabs lo k) (λ o. Unit {0})
unfolding file_back
file_back_total stabs lo zero fits = tt
file_back_total stabs lo (suc k) fits =
    Returns_bind (λ s. s ≡ entry stabs (lo + k)) (λ o. Unit {0}) (get_elem? stabs (lo + k)) _
      (λ s e. next s _ (file_back_total stabs lo k (omega arith)) (is_file s))
      (get_elem?-Returns stabs (lo + k) (omega arith))
  where
    next :
        (s : Stab) (rest : Option (Option Stab))
        → Returns rest (λ o. Unit {0})
        → (b : Bool)
        → Returns
            (elim b as (λ x. Option (Option Stab)) [ true ↦ some (some s) | false ↦ rest ])
            (λ o. Unit {0})
    next s rest h false = h
    next s rest h true = tt

-- The names.
strfind_total :
    (name : List ℕ) (c : ℕ) → ends_in_nul name ≡ true → Returns (strfind name c) (λ t. Unit {0})
unfolding strfind
strfind_total [] c e = absurd (ground arith)
strfind_total (x ∷ []) c e = ground arith
strfind_total (x ∷ y ∷ name) c e = ground (arith, strfind_total (y ∷ name) c e)

ends_in_nul-drop :
    (n : ℕ) (s : List ℕ) → ends_in_nul s ≡ true → n < length s → ends_in_nul (drop n s) ≡ true
ends_in_nul-drop zero s e lt = e
ends_in_nul-drop (suc n) [] e lt = e
ends_in_nul-drop (suc n) (x ∷ []) e lt = absurd (omega arith)
ends_in_nul-drop (suc n) (x ∷ y ∷ s) e lt = ends_in_nul-drop n (y ∷ s) e (omega arith)

pub name_at-ends_in_nul :
    (stabstr : List ℕ) (strx : ℕ)
    → ends_in_nul stabstr ≡ true
    → ends_in_nul (name_at stabstr strx unknown) ≡ true
name_at-ends_in_nul stabstr strx e = elim (Bool-cases (ltb strx (length stabstr))) [
  | inl lt ↦ simp lt (ends_in_nul-drop strx stabstr e (ground arith))
  | inr over ↦ simp over refl
]

pub name_length_total :
    (name : List ℕ) → ends_in_nul name ≡ true → Returns (name_length name) (λ n. Unit {0})
unfolding name_length
name_length_total name e =
    Returns_bind (λ t. Unit {0}) (λ n. Unit {0}) (strfind name b':') _ (λ t h. tt)
      (strfind_total name b':' e)

-- A search in a region that is not empty.
pub binsearch-Narrowed :
    (stabs : List Stab) (r : Region) (l type addr : ℕ)
    → r.left ≡ pos l
    → l < stop_of r.right
    → stop_of r.right ≤ length stabs
    → (0 < l) ⊎ ((entry stabs l).n_type ≢ type)
    → Returns (binsearch stabs r type addr) (Narrowed l (stop_of r.right))
unfolding binsearch
binsearch-Narrowed stabs r l type addr e lt fits ok =
    rw e (stab_binsearch-Narrowed stabs l (stop_of r.right) type addr lt fits ok)

-- The regions of the file and of the function.
pub record Regions (stabs : List Stab) (file fn : Region) : Type 0 where
  pub file_at : ℕ
  pub file_left : file.left ≡ pos file_at
  pub file_filled : file_at < stop_of file.right
  pub file_inside : stop_of file.right ≤ length stabs
  pub fn_at : ℕ
  pub fn_left : fn.left ≡ pos fn_at
  pub fn_inside : stop_of fn.right ≤ length stabs
  pub fn_bound : fn_at < length stabs

-- The region of the lines is not empty.
pub record IsPlace (stabs : List Stab) (p : Place) : Type 0 where
  pub at : ℕ
  pub lines_left : p.lines.left ≡ pos at
  pub lines_filled : at < stop_of p.lines.right
  pub lines_inside : stop_of p.lines.right ≤ length stabs
  pub named : ends_in_nul p.info.eip_fn_name ≡ true

is_region-filled : (r : Region) (l : ℕ) → r.left ≡ pos l → is_region r ≡ true → l < stop_of r.right
is_region-filled r l e h =
    up_to r.right
      (subst (λ x. leb (pos_part x + neg_part r.right) (pos_part r.right + neg_part x) ≡ true) e h)
  where
    up_to :
        (i : ℤ)
        → leb (pos_part (pos l) + neg_part i) (pos_part i + neg_part (pos l)) ≡ true
        → l < stop_of i
    up_to (pos i) h = ground (arith, h)
    up_to (negsuc i) h = ground (arith, h)

pub place_function_total :
    (stabs : List Stab) (stabstr : List ℕ) (addr : ℕ) (file fn : Region)
    → ends_in_nul stabstr ≡ true
    → Regions stabs file fn
    → Returns (place_function stabs stabstr addr file fn) (IsPlace stabs)
unfolding place_function
place_function_total stabs stabstr addr file fn nul g = elim (Bool-cases (is_region fn)) [
  | inr empty ↦ simp empty (record {
    at = g.file_at;
    lines_left = g.file_left;
    lines_filled = g.file_filled;
    lines_inside = g.file_inside;
    named = refl;
  })
  | inl found ↦ rw found (
      rw g.fn_left (
        Returns_bind (λ s. s ≡ entry stabs g.fn_at) (IsPlace stabs) (get_elem? stabs g.fn_at) _
          (λ s e. record {
            at = g.fn_at;
            lines_left = refl;
            lines_filled = is_region-filled fn g.fn_at g.fn_left found;
            lines_inside = g.fn_inside;
            named = name_at-ends_in_nul stabstr s.n_strx nul;
          })
          (get_elem?-Returns stabs g.fn_at g.fn_bound)))
]

pub line_number_total :
    (stabs : List Stab) (lines : Region) (l : ℕ)
    → lines.left ≡ pos l
    → l < length stabs
    → Returns (line_number stabs lines) (λ n. Unit {0})
unfolding line_number
line_number_total stabs lines l e lt = elim (Bool-cases (is_region lines)) [
  | inr empty ↦ simp empty tt
  | inl found ↦ rw found (
      rw e (
        Returns_bind (λ s. s ≡ entry stabs l) (λ n. Unit {0}) (get_elem? stabs l) _ (λ s e. tt)
          (get_elem?-Returns stabs l lt)))
]
