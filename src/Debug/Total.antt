-- ===== src/Debug/Total.antt =====
-- `stab_binsearch` on tables that need not be sorted.
use tp_prom.Prelude.{
  ℕ, ◌⊎◌, ◌+◌, ◌-◌, ◌≤◌, ◌<◌, ◌≡◌, refl, Option, none, some, List, inl, inr, arith, length, Returns,
  Returns_bind, Returns_mono, ltb, ltb→lt, ◌∙◌, Bool-cases, true, false,
}
use tp_prom.Prelude.Int.{ℤ, pos, sub_ℕ}
use tp_prom.Debug.{
  Stab, Search, Region, narrow, midpoint, search_step, settle, start, enough, or_left,
  stab_binsearch, scan_back,
}
use tp_prom.Debug.Scan.{entry, IsLast, scan_back-IsLast}
use tp_prom.Debug.Rounds.{Round, measure, search_step-Round, search_loop_inv}

pub record InBounds (left stop : ℕ) (s : Search) : Type 0 where
  pub from : left ≤ s.l
  pub ordered : s.l ≤ s.stop
  pub to : s.stop ≤ stop
  pub same : s.right_stop ≡ s.stop
  pub left_from : left ≤ s.left
  pub left_to : s.left < stop

-- An index of [lo - 1, hi - 1], kept one higher.
abbrev pub IsIndex : ℕ → ℕ → ℤ → Type 0
IsIndex lo hi i = (x : ℕ) × (i ≡ sub_ℕ x 1) × (lo ≤ x) × (x ≤ hi)

narrow-InBounds :
    (stabs : List Stab) (left stop m : ℕ) (s : Search)
    → InBounds left stop s
    → s.l < s.stop
    → s.l ≤ m
    → m ≤ midpoint s
    → InBounds left stop (narrow (midpoint s) m (entry stabs m).n_value s)
unfolding narrow
narrow-InBounds stabs left stop m s h lt p q = ground arith

narrow-measure :
    (stabs : List Stab) (m : ℕ) (s : Search)
    → s.l < s.stop
    → s.l ≤ m
    → m ≤ midpoint s
    → measure stabs (narrow (midpoint s) m (entry stabs m).n_value s) < measure stabs s
unfolding narrow
narrow-measure stabs m s lt p q = ground arith

-- Every round lowers the measure.
pub Round-measure :
    (stabs : List Stab) (type : ℕ) (s s' : Search)
    → s.l < s.stop
    → Round stabs type s s'
    → measure stabs s' < measure stabs s
Round-measure stabs type s s' lt (inl (lacks, e)) = rw e (ground arith)
Round-measure stabs type s s' lt (inr (m, last, e)) =
    rw e (narrow-measure stabs m s lt last.0 (omega arith))

pub Round-InBounds :
    (stabs : List Stab) (type left stop : ℕ) (s s' : Search)
    → InBounds left stop s
    → s.l < s.stop
    → Round stabs type s s'
    → InBounds left stop s'
Round-InBounds stabs type left stop s s' h lt (inl (lacks, e)) = rw e (omega arith)
Round-InBounds stabs type left stop s s' h lt (inr (m, last, e)) =
    rw e (narrow-InBounds stabs left stop m s h lt last.0 (omega arith))

pos-sub_ℕ : (n : ℕ) → pos n ≡ sub_ℕ (n + 1) 1
pos-sub_ℕ n = ground arith

abbrev pub InRegion : ℕ → ℕ → Region → Type 0
InRegion left stop r = IsIndex left stop r.left × IsIndex left stop r.right

pub or_left-bounds :
    (stabs : List Stab) (type left lo hi : ℕ) (o : Option ℕ)
    → left < lo
    → IsLast stabs type lo hi o
    → (left ≤ or_left left o) × ((or_left left o ≡ left) ⊎ (or_left left o < hi))
or_left-bounds stabs type left lo hi none p h = (omega arith, inl refl)
or_left-bounds stabs type left lo hi (some m) p h = (omega arith, inr h.1)

-- What the end of `stab_binsearch` makes of the last state of its loop.
pub data Settled (stabs : List Stab) (type : ℕ) (s : Search) (r : Region) : Type 0 where
  missed :
      s.any_matches ≡ false
      → r.left ≡ pos s.left
      → r.right ≡ sub_ℕ s.left 1
      → Settled stabs type s r
  scanned :
      (o : Option ℕ)
      → s.any_matches ≡ true
      → s.left < s.right_stop
      → IsLast stabs type (s.left + 1) s.right_stop o
      → r.left ≡ pos (or_left s.left o)
      → r.right ≡ sub_ℕ s.right_stop 1
      → Settled stabs type s r
  fallen :
      s.any_matches ≡ true
      → s.right_stop ≤ s.left
      → r.left ≡ sub_ℕ s.right_stop 1
      → r.right ≡ sub_ℕ s.right_stop 1
      → Settled stabs type s r

pub settle-Settled :
    (stabs : List Stab) (type : ℕ) (s : Search)
    → s.right_stop ≤ length stabs
    → Returns (settle stabs type s) (Settled stabs type s)
unfolding settle
settle-Settled stabs type s fits = elim (Bool-cases s.any_matches) [
  | inr no_match ↦ simp no_match (missed no_match refl refl)
  | inl seen ↦ elim (Bool-cases (ltb s.left s.right_stop)) [
    | inr over ↦ simp (seen, over) (fallen seen (ground arith) refl refl)
    | inl inside ↦
        simp (seen, inside)
          (let k = s.right_stop - 1 - s.left in
            Returns_bind (IsLast stabs type (s.left + 1) s.right_stop) (Settled stabs type s)
              (scan_back stabs type (s.left + 1) k) _
              (λ o h. scanned o seen (ltb→lt _ _ inside) h refl refl)
              (scan_back-IsLast stabs type (s.left + 1) k s.right_stop (ground arith) fits))
  ]
]

Settled-InRegion :
    {stabs : List Stab} {type : ℕ} {s : Search} {r : Region} (left stop : ℕ)
    → left < stop
    → InBounds left stop s
    → Settled stabs type s r
    → InRegion left stop r
Settled-InRegion {s = s} left stop lt h (missed no_match a b) = (
  (s.left + 1, a ∙ pos-sub_ℕ s.left, omega arith, omega arith),
  (s.left, b, omega arith, omega arith),
)
Settled-InRegion {stabs} {type} {s} left stop lt h (scanned o seen inside last a b) =
    let p = or_left-bounds stabs type s.left (s.left + 1) s.right_stop o (omega arith) last in
    (
      (or_left s.left o + 1, a ∙ pos-sub_ℕ _, omega arith, omega arith),
      (s.right_stop, b, omega arith, omega arith),
    )
Settled-InRegion {s = s} left stop lt h (fallen seen over a b) =
    ((s.right_stop, a, omega arith, omega arith), (s.right_stop, b, omega arith, omega arith))

pub start-InBounds : (left stop addr : ℕ) → left < stop → InBounds left stop (start left stop addr)
start-InBounds left stop addr lt = omega arith

-- For a region of the table that is not empty, sorted or not, `stab_binsearch` ends and reads
-- entries of the table only, and both results are indices of the region, or the one below it.
pub stab_binsearch_total :
    (stabs : List Stab) (left stop type addr : ℕ)
    → left < stop
    → stop ≤ length stabs
    → Returns (stab_binsearch stabs left stop type addr) (InRegion left stop)
unfolding stab_binsearch
stab_binsearch_total stabs left stop type addr lt fits =
    Returns_bind (λ s. InBounds left stop s × (s.stop ≤ s.l)) (InRegion left stop) _ _
      (λ s h.
        Returns_mono (settle stabs type s) (λ r. Settled-InRegion left stop lt h.0)
          (settle-Settled stabs type s (omega arith)))
      (search_loop_inv stabs type (InBounds left stop)
        (λ s h more.
          Returns_mono (search_step stabs type s)
            {Q = λ s'. InBounds left stop s' × (measure stabs s' < measure stabs s)}
            (λ s' r. (
              Round-InBounds stabs type left stop s s' h more r,
              Round-measure stabs type s s' more r,
            ))
            (search_step-Round stabs type s more (omega arith)))
        (enough left stop) (start left stop addr) (ground arith) (omega arith))
