-- ===== src/Debug/Correct.antt =====
-- `stab_binsearch` on a region whose entries of the type are in order.
use tp_prom.Prelude.{
  ℕ, ◌+◌, ◌^◌, ◌≤◌, ◌<◌, ◌≡◌, ◌⊎◌, refl, Option, none, some, List, inl, inr, arith, length, Returns,
  Returns_bind, Returns_mono, ltb, lt→ltb, le→ltb, ap, ◌∙◌, if◌then◌else◌,
}
use tp_prom.Prelude.Int.{pos, sub_ℕ}
use tp_prom.Debug.{
  Stab, Search, Region, midpoint, search_step, settle, start, enough, or_left, stab_binsearch,
}
use tp_prom.Debug.Scan.{entry, Lacks, IsLast}
use tp_prom.Debug.Rounds.{Round, measure, search_step-Round, search_loop_inv}
use tp_prom.Debug.Total.{Settled, missed, scanned, fallen, settle-Settled, Round-measure}
use tp_prom.Debug.Invariant.{
  IsOrdered, Avoids, Phase, unseen, behind, hit, Inv, skip-Inv, narrow-Inv,
}

-- Where an address lies among the entries of a type in stabs[left..stop), and the region that
-- `stab_binsearch` returns for it.
pub data Located (stabs : List Stab) (type left stop addr : ℕ) (r : Region) : Type 0 where
  no_entry :
      Lacks stabs type left stop
      → r.left ≡ pos left
      → r.right ≡ sub_ℕ left 1
      → Located stabs type left stop addr r
  all_behind :
      (next : ℕ)
      → left ≤ next
      → next < stop
      → Lacks stabs type left next
      → (entry stabs next).n_type ≡ type
      → addr < (entry stabs next).n_value
      → r.left ≡ (if ltb left next then pos left else sub_ℕ next 1)
      → r.right ≡ sub_ℕ next 1
      → Located stabs type left stop addr r
  contained :
      (m next : ℕ)
      → left ≤ m
      → m < next
      → (entry stabs m).n_type ≡ type
      → (entry stabs m).n_value ≤ addr
      → Lacks stabs type (m + 1) next
      → (next ≡ stop)
        ⊎ ((next < stop) × ((entry stabs next).n_type ≡ type) × (addr < (entry stabs next).n_value))
      → r.left ≡ pos m
      → r.right ≡ sub_ℕ next 1
      → Located stabs type left stop addr r

module _ (stabs : List Stab) (type left stop addr : ℕ) where
  -- The last scan finds nothing between the entry that was hit and the end.
  IsLast-none :
      (lo hi : ℕ) (o : Option ℕ) (d : ℕ)
      → Lacks stabs type lo hi
      → IsLast stabs type lo hi o
      → or_left d o ≡ d
  IsLast-none lo hi none d h k = refl
  IsLast-none lo hi (some m) d h k = absurd (h m k.0 k.1 k.2)

  finished :
      (s : Search) (r : Region)
      → Inv stabs type left stop addr s
      → s.stop ≤ s.l
      → Settled stabs type s r
      → Phase stabs type left stop addr s
      → Located stabs type left stop addr r
  finished s r v over (missed no_match a b) (unseen n l e lacks) =
      no_entry (λ i p q. lacks i p (omega arith)) (rw l at a) (rw l at b)
  finished s r v over (missed no_match a b) (behind seen l e t lacks) = absurd (cc)
  finished s r v over (missed no_match a b) (hit seen p n q h lacks e) = absurd (cc)
  finished s r v over (scanned o seen inside last a b) (unseen n l e lacks) = absurd (cc)
  finished s r v over (scanned o seen inside last a b) (behind y l e t lacks) =
      all_behind s.stop (omega (arith, v)) e (λ i p q. lacks i p (omega arith)) t
        (v.above s.stop (omega arith) e t)
        (rw (lt→ltb left s.stop (omega arith)) (
          a
          ∙ ap pos (
              IsLast-none _ _ o s.left (λ i x y. lacks i (omega arith) (omega (arith, v))) last
              ∙ l)))
        (rw v.same at b)
  finished s r v over (scanned o seen inside last a b) (hit y p n q h lacks e) =
      contained s.left s.stop p q h.0 h.1 (λ i x y. lacks i x (omega arith))
        (elim e [
          | inl whole ↦ inl whole
          | inr (u, w) ↦ inr (u, w, v.above s.stop (omega arith) u w)
        ])
        (a ∙ ap pos (IsLast-none _ _ o s.left (λ i x y. lacks i x (omega (arith, v))) last))
        (rw v.same at b)
  finished s r v over (fallen seen past a b) (unseen n l e lacks) = absurd (cc)
  finished s r v over (fallen seen past a b) (behind y l e t lacks) =
      all_behind s.stop (omega (arith, v)) e (λ i p q. lacks i p (omega arith)) t
        (v.above s.stop (omega arith) e t)
        (rw (le→ltb left s.stop (omega (arith, v))) (rw v.same at a)) (rw v.same at b)
  finished s r v over (fallen seen past a b) (hit y p n q h lacks e) = absurd (omega (arith, v))

-- For a region of the table that is not empty, where the entries of the type are in order, and
-- none of them begins one byte behind the address: `stab_binsearch` ends. If an entry of the type
-- lies at or before the address, it returns the last one, and the index just before the next entry
-- of the type or the end of the region. Without an entry of the type in the region it returns the
-- region's start and the index before it. With all of them behind the address, the right end is
-- the index before the first of them, and the left end is the start of the region, or the right
-- end where the region starts with that entry.
pub stab_binsearch-Located :
    (stabs : List Stab) (left stop type addr : ℕ)
    → left < stop
    → stop ≤ length stabs
    → IsOrdered stabs type left stop
    → Avoids stabs type left stop (addr + 1)
    → addr + 1 < 2 ^ 32
    → Returns (stab_binsearch stabs left stop type addr) (Located stabs type left stop addr)
unfolding stab_binsearch
stab_binsearch-Located stabs left stop type addr lt fits in_order avoid small =
    Returns_bind (λ s. I s × (s.stop ≤ s.l)) (Located stabs type left stop addr) _ _
      (λ s h.
        Returns_mono (settle stabs type s)
          (λ r t. finished stabs type left stop addr s r h.0 h.1 t h.0.phase)
          (settle-Settled stabs type s (omega (arith, h.0))))
      (search_loop_inv stabs type I keep (enough left stop) (start left stop addr) (ground arith)
        (record {
          from = omega arith;
          ordered = omega arith;
          to = omega arith;
          same = refl;
          aim = inl refl;
          above = λ i a b. absurd (omega arith);
          phase = unseen refl refl refl (λ i a b. absurd (omega arith));
        }))
  where
    I : Search → Type 0
    I = Inv stabs type left stop addr

    advance : (s s' : Search) → I s → s.l < s.stop → Round stabs type s s' → I s'
    advance s s' v more (inl (lacks, e)) =
        rw e (
          skip-Inv stabs type left stop addr s (midpoint s + 1) v (omega arith) (omega arith) lacks)
    advance s s' v more (inr (m, last, e)) =
        rw e (narrow-Inv stabs type left stop addr in_order s m avoid small v more last)

    keep :
        (s : Search)
        → I s
        → s.l < s.stop
        → Returns (search_step stabs type s) (λ s'. I s' × (measure stabs s' < measure stabs s))
    keep s v more =
        Returns_mono (search_step stabs type s)
          {Q = λ s'. I s' × (measure stabs s' < measure stabs s)}
          (λ s' r. (advance s s' v more r, Round-measure stabs type s s' more r))
          (search_step-Round stabs type s more (omega (arith, v)))
