-- ===== src/Debug/Rounds.antt =====
-- One round of `stab_binsearch`, and the rule for its loop.
use tp_prom.Prelude.{
  ℕ, zero, suc, ◌+◌, ◌-◌, ◌*◌, ◌≤◌, ◌<◌, ◌≡◌, refl, true, false, Option, none, some, List, ◌⊎◌, inl,
  inr, arith, length, Returns, Returns_bind, ltb, ◌==◌, ◌>>=◌, if◌then◌else◌, Bool-cases,
  get_elem?-eq-get_or,
}
use tp_prom.Debug.{Stab, Search, narrow, probe, midpoint, search_step, search_loop}
use tp_prom.Debug.Scan.{no_stab, entry, Lacks, IsLast, scan_back-IsLast}

-- What a round does to the variables: it drops the lower half, which holds no entry of the type,
-- or it compares the last entry of the type in it.
abbrev pub Round : List Stab → ℕ → Search → Search → Type 0
Round stabs type s s' =
    (Lacks stabs type s.l (midpoint s + 1) × (s' ≡ record s { l = midpoint s + 1 }))
    ⊎ ((m : ℕ) × IsLast stabs type s.l (midpoint s + 1) (some m)
        × (s' ≡ narrow (midpoint s) m (entry stabs m).n_value s))

probe-Round :
    (stabs : List Stab) (type : ℕ) (s : Search) (o : Option ℕ)
    → s.l < s.stop
    → s.stop ≤ length stabs
    → IsLast stabs type s.l (midpoint s + 1) o
    → Returns (probe stabs (midpoint s) s o) (Round stabs type s)
unfolding probe
probe-Round stabs type s none lt fits h = inl (h, refl)
probe-Round stabs type s (some m) lt fits h =
    rw (get_elem?-eq-get_or stabs m no_stab (omega arith)) (inr (m, h, refl))

pub search_step-Round :
    (stabs : List Stab) (type : ℕ) (s : Search)
    → s.l < s.stop
    → s.stop ≤ length stabs
    → Returns (search_step stabs type s) (Round stabs type s)
unfolding search_step
search_step-Round stabs type s lt fits =
    Returns_bind (IsLast stabs type s.l (midpoint s + 1)) (Round stabs type s) _ _
      (λ o h. probe-Round stabs type s o lt fits h)
      (scan_back-IsLast stabs type s.l (midpoint s + 1 - s.l) (midpoint s + 1) (omega arith)
        (omega arith))

-- A hit on the address itself may leave the range as it was, but then the address is another.
abbrev pub measure : List Stab → Search → ℕ
measure stabs s = 2 * (s.stop - s.l) + (if (entry stabs s.l).n_value == s.addr then 1 else 0)

module _ (stabs : List Stab) (type fuel : ℕ) (s : Search) where
  search_loop_over : ltb s.l s.stop ≡ false → search_loop stabs type (suc fuel) s ≡ some s
  unfolding search_loop
  search_loop_over h = rw (h, search_loop)

  search_loop_more :
      ltb s.l s.stop ≡ true
      → search_loop stabs type (suc fuel) s
        ≡ (search_step stabs type s >>= search_loop stabs type fuel)
  unfolding search_loop
  search_loop_more h = rw (h, search_loop)

-- With a measure below the fuel the loop ends by its test, and keeps what each round keeps.
pub search_loop_inv :
    (stabs : List Stab) (type : ℕ) (P : Search → Type 0)
    → ((s : Search)
        → P s
        → s.l < s.stop
        → Returns (search_step stabs type s) (λ s'. P s' × (measure stabs s' < measure stabs s)))
    → (fuel : ℕ) (s : Search) → measure stabs s < fuel
    → P s
    → Returns (search_loop stabs type fuel s) (λ s'. P s' × (s'.stop ≤ s'.l))
search_loop_inv stabs type P keep zero s m h = absurd (omega arith)
search_loop_inv stabs type P keep (suc fuel) s m h = elim (Bool-cases (ltb s.l s.stop)) [
  | inr over ↦ rw (search_loop_over stabs type fuel s over) (h, ground arith)
  | inl more ↦ rw (search_loop_more stabs type fuel s more) (
      Returns_bind (λ s'. P s' × (measure stabs s' < measure stabs s))
        (λ s'. P s' × (s'.stop ≤ s'.l)) _ _
        (λ s' k. search_loop_inv stabs type P keep fuel s' (omega (arith, k.1)) k.0)
        (keep s h (ground arith)))
]
