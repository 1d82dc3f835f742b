-- ===== src/Debug/First.antt =====
-- The left end of the region that `stab_binsearch` leaves.
use tp_prom.Prelude.{
  ℕ, zero, suc, ◌⊎◌, ◌+◌, ◌≤◌, ◌<◌, ◌≡◌, ◌≢◌, refl, ap, subst, ◌∙◌, List, inl, inr, arith, length,
  Returns, Returns_bind, Returns_mono, false,
}
use tp_prom.Prelude.Int.{ℤ, pos, negsuc, sub_ℕ}
use tp_prom.Debug.{
  Stab, Search, Region, narrow, midpoint, search_step, settle, start, enough, or_left,
  stab_binsearch,
}
use tp_prom.Debug.Scan.{entry}
use tp_prom.Debug.Rounds.{Round, measure, search_step-Round, search_loop_inv}
use tp_prom.Debug.Total.{
  InBounds, start-InBounds, Round-InBounds, Round-measure, or_left-bounds, Settled, missed, scanned,
  fallen, settle-Settled,
}

-- The number of indices from 0 to `i`.
abbrev pub stop_of : ℤ → ℕ
stop_of (pos i) = i + 1
stop_of (negsuc i) = 0

pub stop_of-sub_ℕ : (x : ℕ) → stop_of (sub_ℕ x 1) ≡ x
stop_of-sub_ℕ zero = refl
stop_of-sub_ℕ (suc x) = ground arith

pred-pos : (x : ℕ) → sub_ℕ (suc x) 1 ≡ pos x
pred-pos x = ground arith

-- The right end has moved to an entry of the type only, and the left end at a match only.
record IsMarked (stabs : List Stab) (type left stop : ℕ) (s : Search) : Type 0 where
  marked : (s.right_stop ≡ stop) ⊎ ((entry stabs s.right_stop).n_type ≡ type)
  unmatched : s.any_matches ≡ false → s.left ≡ left

narrow-IsMarked :
    (stabs : List Stab) (type left stop m : ℕ) (s : Search)
    → (entry stabs m).n_type ≡ type
    → IsMarked stabs type left stop s
    → IsMarked stabs type left stop (narrow (midpoint s) m (entry stabs m).n_value s)
unfolding narrow
narrow-IsMarked stabs type left stop m s t h = record {
  marked = ground (arith, h.marked);
  unmatched = ground arith;
}

Round-IsMarked :
    (stabs : List Stab) (type left stop : ℕ) (s s' : Search)
    → IsMarked stabs type left stop s
    → Round stabs type s s'
    → IsMarked stabs type left stop s'
Round-IsMarked stabs type left stop s s' h (inl (lacks, e)) =
    rw e (record { marked = h.marked; unmatched = h.unmatched })
Round-IsMarked stabs type left stop s s' h (inr (m, last, e)) =
    rw e (narrow-IsMarked stabs type left stop m s last.2 h)

-- A region between `left - 1` and `stop`, whose left end is an entry: not empty, or the empty one
-- at `left`.
pub record Narrowed (left stop : ℕ) (r : Region) : Type 0 where
  pub first : ℕ
  pub at_first : r.left ≡ pos first
  pub above : left ≤ suc first
  pub below : first < stop
  pub inside : stop_of r.right ≤ stop
  pub filled : (first < stop_of r.right) ⊎ ((first ≡ left) × (stop_of r.right ≡ left))

module _ {stabs : List Stab} {type left stop : ℕ} {s : Search} (lt : left < stop)
    (h : InBounds left stop s) (marks : IsMarked stabs type left stop s) where
  Settled-Narrowed :
      {r : Region}
      → (0 < left) ⊎ ((entry stabs left).n_type ≢ type)
      → Settled stabs type s r
      → Narrowed left stop r
  Settled-Narrowed {r} ok (missed no_match a b) =
      let e : stop_of r.right ≡ s.left = ap stop_of b ∙ stop_of-sub_ℕ s.left in
      let same = marks.unmatched no_match in
      record {
        first = s.left;
        at_first = a;
        above = omega arith;
        below = omega arith;
        inside = omega arith;
        filled = inr (same, omega arith);
      }
  Settled-Narrowed {r} ok (scanned o seen inside last a b) =
      let e : stop_of r.right ≡ s.right_stop = ap stop_of b ∙ stop_of-sub_ℕ s.right_stop in
      let p = or_left-bounds stabs type s.left (s.left + 1) s.right_stop o (omega arith) last in
      record {
        first = or_left s.left o;
        at_first = a;
        above = omega arith;
        below = omega arith;
        inside = omega arith;
        filled = inl (omega arith);
      }
  Settled-Narrowed {r} ok (fallen seen over a b) = fall s.right_stop refl
    where
      fall : (x : ℕ) → s.right_stop ≡ x → Narrowed left stop r
      fall zero e = absurd (bottom ok marks.marked)
        where
          bottom :
              (0 < left) ⊎ ((entry stabs left).n_type ≢ type)
              → (s.right_stop ≡ stop) ⊎ ((entry stabs s.right_stop).n_type ≡ type)
              → ⊥
          bottom (inl p) q = omega arith
          bottom (inr ne) (inl q) = omega arith
          bottom (inr ne) (inr q) =
              let e' : s.right_stop ≡ left = omega arith in
              ne (subst (λ x. (entry stabs x).n_type ≡ type) e' q)
      fall (suc x) e =
          let to : stop_of r.right ≡ s.right_stop = ap stop_of b ∙ stop_of-sub_ℕ s.right_stop in
          record {
            first = x;
            at_first = a ∙ ap (λ n. sub_ℕ n 1) e ∙ pred-pos x;
            above = omega arith;
            below = omega arith;
            inside = omega arith;
            filled = inl (omega arith);
          }

-- As `Narrowed` says, if the region begins with an entry of another type, or not at the table's
-- first entry.
pub stab_binsearch-Narrowed :
    (stabs : List Stab) (left stop type addr : ℕ)
    → left < stop
    → stop ≤ length stabs
    → (0 < left) ⊎ ((entry stabs left).n_type ≢ type)
    → Returns (stab_binsearch stabs left stop type addr) (Narrowed left stop)
unfolding stab_binsearch
stab_binsearch-Narrowed stabs left stop type addr lt fits ok =
    Returns_bind (λ s. (InBounds left stop s × IsMarked stabs type left stop s) × (s.stop ≤ s.l))
      (Narrowed left stop) _ _
      (λ s h.
        Returns_mono (settle stabs type s) (λ r. Settled-Narrowed lt h.0.0 h.0.1 ok)
          (settle-Settled stabs type s (let b = h.0.0 in omega arith)))
      (search_loop_inv stabs type (λ s. InBounds left stop s × IsMarked stabs type left stop s)
        (λ s h more.
          let b = h.0 in
          Returns_mono (search_step stabs type s)
            {Q = λ s'.
              (InBounds left stop s' × IsMarked stabs type left stop s')
              × (measure stabs s' < measure stabs s)}
            (λ s' r. (
              (
                Round-InBounds stabs type left stop s s' b more r,
                Round-IsMarked stabs type left stop s s' h.1 r,
              ),
              Round-measure stabs type s s' more r,
            ))
            (search_step-Round stabs type s more (omega arith)))
        (enough left stop) (start left stop addr) (ground arith)
        (start-InBounds left stop addr lt, record { marked = inl refl; unmatched = λ e. refl }))
