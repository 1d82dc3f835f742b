-- ===== src/Debug.antt =====
-- kern/kdebug.c and inc/stab.h: the search for the debugging entry of an instruction address.
pub mod Scan
pub mod Rounds
pub mod Total
pub mod First
pub mod Invariant
pub mod Correct
pub mod Info
mod Tests
use tp_prom.Prelude.{
  ℕ, zero, suc, ◌+◌, ◌-◌, ◌*◌, ◌/◌, ◌%◌, ◌^◌, Bool, true, false, Option, none, some, List, ltb,
  ◌==◌, if◌then◌else◌, ◌>>=◌, get_elem?,
}
use tp_prom.Prelude.Int.{ℤ, pos, sub_ℕ}

pub record Stab : Type 0 where
  pub n_strx : ℕ
  pub n_type : ℕ
  pub n_other : ℕ
  pub n_desc : ℕ
  pub n_value : ℕ

-- The variables of the search. An index of the source that may be -1 is kept one higher: `stop` is
-- `r + 1`, and `right_stop` is `*region_right + 1`.
pub record Search : Type 0 where
  pub l : ℕ
  pub stop : ℕ
  pub left : ℕ
  pub right_stop : ℕ
  pub any_matches : Bool
  pub addr : ℕ

-- `*region_left` and `*region_right` at the return.
pub record Region : Type 0 where
  pub left : ℤ
  pub right : ℤ

-- `while (m >= l && stabs[m].n_type != type) m--`, over the `k` entries from `l` on, the last of
-- them first. The inner `none` is `m < l`.
pub scan_back : List Stab → ℕ → ℕ → ℕ → Option (Option ℕ)
scan_back stabs type l zero = some none
scan_back stabs type l (suc k) = do
  stab ← get_elem? stabs (l + k)
  if stab.n_type == type then some (some (l + k)) else scan_back stabs type l k

-- The three ways of the comparison with the entry at `m`.
pub narrow : ℕ → ℕ → ℕ → Search → Search
narrow true_m m value s =
    if ltb value s.addr
    then record s { l = true_m + 1; left = m; any_matches = true }
    else if ltb s.addr value
    then record s { stop = m; right_stop = m; any_matches = true }
    else record s { l = m; left = m; any_matches = true; addr = (s.addr + 1) % 2 ^ 32 }

pub probe : List Stab → ℕ → Search → Option ℕ → Option Search
probe stabs true_m s none = some (record s { l = true_m + 1 })
probe stabs true_m s (some m) = do stab ← get_elem? stabs m; some (narrow true_m m stab.n_value s)

abbrev pub midpoint : Search → ℕ
midpoint s = (s.l + s.stop - 1) / 2

-- One round of `while (l <= r)`.
pub search_step : List Stab → ℕ → Search → Option Search
search_step stabs type s = do
  found ← scan_back stabs type s.l (midpoint s + 1 - s.l)
  probe stabs (midpoint s) s found

pub search_loop : List Stab → ℕ → ℕ → Search → Option Search
search_loop stabs type zero s = none
search_loop stabs type (suc fuel) s = elim (ltb s.l s.stop) [
  | true ↦ search_step stabs type s >>= search_loop stabs type fuel
  | false ↦ some s
]

-- The last `for`, whose bound `l > *region_left` is `l >= *region_left + 1`.
abbrev pub or_left : ℕ → Option ℕ → ℕ
or_left left none = left
or_left left (some m) = m

pub settle : List Stab → ℕ → Search → Option Region
settle stabs type s =
    if s.any_matches
    then (if ltb s.left s.right_stop
        then (do
          found ← scan_back stabs type (s.left + 1) (s.right_stop - 1 - s.left)
          some (record { left = pos (or_left s.left found); right = sub_ℕ s.right_stop 1 }))
        else some (record { left = sub_ℕ s.right_stop 1; right = sub_ℕ s.right_stop 1 }))
    else some (record { left = pos s.left; right = sub_ℕ s.left 1 })

abbrev pub start : ℕ → ℕ → ℕ → Search
start left stop addr = record {
  l = left;
  stop = stop;
  left = left;
  right_stop = stop;
  any_matches = false;
  addr = addr;
}

-- Twice the number of entries, and two: see Debug/Total.
abbrev pub enough : ℕ → ℕ → ℕ
enough left stop = 2 * (stop - left) + 2

-- `stop` is `*region_right + 1` at the call.
pub stab_binsearch : List Stab → ℕ → ℕ → ℕ → ℕ → Option Region
stab_binsearch stabs left stop type addr = do
  s ← search_loop stabs type (enough left stop) (start left stop addr)
  settle stabs type s
