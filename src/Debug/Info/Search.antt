-- ===== src/Debug/Info/Search.antt =====
-- debuginfo_eip's searches in a region whose entries of the type are in order.
use tp_prom.Prelude.{
  ℕ, ◌+◌, ◌^◌, ◌≤◌, ◌<◌, ◌≡◌, subst, ap, ◌∙◌, ◌⊎◌, List, inl, inr, arith, length, Returns,
  Returns_mono,
}
use tp_prom.Prelude.Int.{pos, sub_ℕ}
use tp_prom.Debug.{Stab, Region, stab_binsearch}
use tp_prom.Debug.Scan.{entry, Lacks}
use tp_prom.Debug.Invariant.{IsOrdered, Avoids}
use tp_prom.Debug.Correct.{Located, no_entry, all_behind, contained, stab_binsearch-Located}
use tp_prom.Debug.First.{stop_of}
use tp_prom.Debug.Info.{binsearch}

-- The last entry of the type in stabs[left..stop) that begins at or before the address is the one
-- at `m`; the next entry of the type is at `next`, or `next` is `stop`.
pub record Holds (stabs : List Stab) (type left stop addr m next : ℕ) : Type 0 where
  pub from : left ≤ m
  pub before : m < next
  pub typed : (entry stabs m).n_type ≡ type
  pub begins : (entry stabs m).n_value ≤ addr
  pub alone : Lacks stabs type (m + 1) next
  pub ends :
      (next ≡ stop)
      ⊎ ((next < stop) × ((entry stabs next).n_type ≡ type) × (addr < (entry stabs next).n_value))

-- The entries of the type in stabs[left..stop) are in order, and none begins just behind the
-- address.
pub record IsSearchable (stabs : List Stab) (type left stop addr : ℕ) : Type 0 where
  pub in_order : IsOrdered stabs type left stop
  pub avoids : Avoids stabs type left stop (addr + 1)

abbrev pub region : ℕ → ℕ → Region
region m next = record { left = pos m; right = sub_ℕ next 1 }

order : (i j : ℕ) → (i < j) ⊎ ((i ≡ j) ⊎ (j < i))
order i j = ground arith

module _ {stabs : List Stab} {type left stop addr : ℕ}
    (ok : IsSearchable stabs type left stop addr) where
  up_to : {m next : ℕ} → Holds stabs type left stop addr m next → next ≤ stop
  up_to h = elim h.ends [ inl e ↦ omega arith | inr lt ↦ omega (arith, lt.0) ]

  -- No entry of the type behind the last one begins at or before the address.
  behind-Holds :
      {m next : ℕ}
      → Holds stabs type left stop addr m next
      → (i : ℕ) → m < i
      → i < stop
      → (entry stabs i).n_type ≡ type
      → addr < (entry stabs i).n_value
  behind-Holds {m} {next} h i lt below t = elim (order i next) [
    | inl front ↦ absurd (h.alone i (omega arith) front t)
    | inr at ↦ elim h.ends [
      | inl e ↦ absurd (elim at [ inl e' ↦ omega arith | inr lt' ↦ omega arith ])
      | inr e ↦ elim at [
        | inl e' ↦ rw e' e.2
        | inr lt' ↦
            let le = ok.in_order next i (omega (arith, h)) lt' below e.1 t in omega (arith, le, e.2)
      ]
    ]
  ]

  not_behind :
      {m next m' next' : ℕ}
      → Holds stabs type left stop addr m next
      → Holds stabs type left stop addr m' next'
      → m' ≤ m
  not_behind {m} {next} {m'} {next'} h h' = elim (order m m') [
    | inl lt ↦ absurd (
        let below = up_to h' in
        let far = behind-Holds h m' lt (omega (arith, h')) h'.typed in
        omega (arith, far, h'.begins))
    | inr le ↦ elim le [ inl e ↦ omega arith | inr e ↦ omega arith ]
  ]

  not_beyond :
      {m next next' : ℕ}
      → Holds stabs type left stop addr m next
      → Holds stabs type left stop addr m next'
      → next' ≤ next
  not_beyond {m} {next} {next'} h h' = elim (order next next') [
    | inl lt ↦ absurd (elim h.ends [
      | inl e ↦ let below = up_to h' in omega arith
      | inr e ↦ h'.alone next (omega (arith, h)) lt e.1
    ])
    | inr le ↦ elim le [ inl e ↦ omega arith | inr e ↦ omega arith ]
  ]

  Holds-unique :
      {m next m' next' : ℕ}
      → Holds stabs type left stop addr m next
      → Holds stabs type left stop addr m' next'
      → (m ≡ m') × (next ≡ next')
  Holds-unique {m} {next} {m'} {next'} h h' =
      let e : m ≡ m' = omega (arith, not_behind h h', not_behind h' h) in
      let g = subst (λ x. Holds stabs type left stop addr x next) e h in
      (e, omega (arith, not_beyond g h', not_beyond h' g))

  Located-region :
      {m next : ℕ} {r : Region}
      → Holds stabs type left stop addr m next
      → Located stabs type left stop addr r
      → (r.left ≡ pos m) × (r.right ≡ sub_ℕ next 1)
  Located-region {m} h (no_entry lacks a b) =
      let below = up_to h in absurd (lacks m h.from (omega (arith, h)) h.typed)
  Located-region {m} h (all_behind n p q lacks t lt a b) = absurd (elim (order m n) [
    | inl front ↦ lacks m h.from front h.typed
    | inr at ↦ elim at [
      | inl e ↦ let le = subst (λ x. (entry stabs x).n_value ≤ addr) e h.begins in omega arith
      | inr lt' ↦
          let below = up_to h in
          let le = ok.in_order n m p lt' (omega (arith, h)) t h.typed in omega (arith, le, h.begins)
    ]
  ])
  Located-region h (contained m' n p q t le lacks e a b) =
      let same =
        Holds-unique
          (record { from = p; before = q; typed = t; begins = le; alone = lacks; ends = e }) h in
      (a ∙ ap pos same.0, b ∙ ap (λ x. sub_ℕ x 1) same.1)

  -- A search for the type in a region that begins at `left` and ends before `stop`.
  pub binsearch-Holds :
      {m next : ℕ} (r : Region)
      → r.left ≡ pos left
      → stop_of r.right ≡ stop
      → stop ≤ length stabs
      → addr + 1 < 2 ^ 32
      → Holds stabs type left stop addr m next
      → Returns (binsearch stabs r type addr) (λ r'. r' ≡ region m next)
  unfolding binsearch
  binsearch-Holds {m} {next} r e e' fits small h =
      let below = up_to h in
      rw e (
        rw e' (
          Returns_mono (stab_binsearch stabs left stop type addr) {Q = λ r'. r' ≡ region m next}
            (λ r' l. same_region (Located-region h l))
            (stab_binsearch-Located stabs left stop type addr (omega (arith, h)) fits ok.in_order
              ok.avoids small)))
    where
      same_region :
          {r' : Region}
          → (r'.left ≡ pos m) × (r'.right ≡ sub_ℕ next 1)
          → r' ≡ record { left = pos m; right = sub_ℕ next 1 }
      same_region (a, b) = λ i. record { left = a i; right = b i }
