-- ===== src/Debug/Invariant.antt =====
-- What the loop of `stab_binsearch` keeps, on a region whose entries of the type are in order.
use tp_prom.Prelude.{
  ℕ, ◌+◌, ◌%◌, ◌^◌, ◌≤◌, ◌<◌, ◌≡◌, ◌≢◌, ◌⊎◌, refl, true, false, some, List, inl, inr, arith, ltb,
  Bool-cases, dec_lt,
}
use tp_prom.Debug.{Stab, Search, narrow, midpoint}
use tp_prom.Debug.Scan.{entry, Lacks, IsLast}

-- The entries of the type in stabs[lo..hi) stand in the order of their addresses.
abbrev pub IsOrdered : List Stab → ℕ → ℕ → ℕ → Type 0
IsOrdered stabs type lo hi =
    (i j : ℕ)
    → lo ≤ i
    → i < j
    → j < hi
    → (entry stabs i).n_type ≡ type
    → (entry stabs j).n_type ≡ type
    → (entry stabs i).n_value ≤ (entry stabs j).n_value

-- No entry of the type in stabs[lo..hi) has this address.
abbrev pub Avoids : List Stab → ℕ → ℕ → ℕ → ℕ → Type 0
Avoids stabs type lo hi addr =
    (i : ℕ) → lo ≤ i → i < hi → (entry stabs i).n_type ≡ type → (entry stabs i).n_value ≢ addr

-- An entry of the type that begins at or before the address.
abbrev pub Hit : List Stab → ℕ → ℕ → ℕ → Type 0
Hit stabs type addr i = ((entry stabs i).n_type ≡ type) × ((entry stabs i).n_value ≤ addr)

-- What the loop has seen: nothing yet; entries behind the address only; or an entry at or before
-- the address, the last of those in front of `l`.
pub data Phase (stabs : List Stab) (type left stop addr : ℕ) (s : Search) : Type 0 where
  unseen :
      s.any_matches ≡ false
      → s.left ≡ left
      → s.stop ≡ stop
      → Lacks stabs type left s.l
      → Phase stabs type left stop addr s
  behind :
      s.any_matches ≡ true
      → s.left ≡ left
      → s.stop < stop
      → (entry stabs s.stop).n_type ≡ type
      → Lacks stabs type left s.l
      → Phase stabs type left stop addr s
  hit :
      s.any_matches ≡ true
      → left ≤ s.left
      → s.left ≤ s.l
      → s.left < s.stop
      → Hit stabs type addr s.left
      → Lacks stabs type (s.left + 1) s.l
      → (s.stop ≡ stop) ⊎ ((s.stop < stop) × ((entry stabs s.stop).n_type ≡ type))
      → Phase stabs type left stop addr s

pub record Inv (stabs : List Stab) (type left stop addr : ℕ) (s : Search) : Type 0 where
  pub from : left ≤ s.l
  pub ordered : s.l ≤ s.stop
  pub to : s.stop ≤ stop
  pub same : s.right_stop ≡ s.stop
  pub aim : (s.addr ≡ addr) ⊎ (s.addr ≡ addr + 1)
  pub above :
      (i : ℕ)
      → s.stop ≤ i
      → i < stop
      → (entry stabs i).n_type ≡ type
      → addr < (entry stabs i).n_value
  pub phase : Phase stabs type left stop addr s

module _ (stabs : List Stab) (type left stop addr : ℕ) where
  Lacks-join :
      (lo mid hi : ℕ) → Lacks stabs type lo mid → Lacks stabs type mid hi → Lacks stabs type lo hi
  Lacks-join lo mid hi p q i a b = elim (dec_lt i mid) [
    | yes lt ↦ p i a lt
    | no ge ↦ q i (omega arith) b
  ]

  skip-Phase :
      (s : Search) (l' : ℕ)
      → s.l ≤ l'
      → Phase stabs type left stop addr s
      → Lacks stabs type s.l l'
      → Phase stabs type left stop addr (record s { l = l' })
  skip-Phase s l' p (unseen a b c d) h = unseen a b c (Lacks-join left s.l l' d h)
  skip-Phase s l' p (behind a b c t d) h = behind a b c t (Lacks-join left s.l l' d h)
  skip-Phase s l' p (hit a b n c t d e) h =
      hit a b (omega arith) c t (Lacks-join (s.left + 1) s.l l' d h) e

  end_of_Phase :
      (s : Search)
      → s.stop ≤ stop
      → Phase stabs type left stop addr s
      → (s.stop ≡ stop) ⊎ ((s.stop < stop) × ((entry stabs s.stop).n_type ≡ type))
  end_of_Phase s p (unseen a b c d) = inl c
  end_of_Phase s p (behind a b c t d) = inr (c, t)
  end_of_Phase s p (hit a b n c t d e) = e

  pub skip-Inv :
      (s : Search) (l' : ℕ)
      → Inv stabs type left stop addr s
      → s.l ≤ l'
      → l' ≤ s.stop
      → Lacks stabs type s.l l'
      → Inv stabs type left stop addr (record s { l = l' })
  skip-Inv s l' v p q h = record {
    from = omega arith;
    ordered = q;
    to = v.to;
    same = v.same;
    aim = v.aim;
    above = v.above;
    phase = skip-Phase s l' p v.phase h;
  }

  -- The entry at `m` begins at or before the address, and the search goes on from `l'`.
  Hit-Inv :
      (s : Search) (m l' addr' : ℕ)
      → Inv stabs type left stop addr s
      → s.l ≤ m
      → m < s.stop
      → m ≤ l'
      → l' ≤ s.stop
      → Hit stabs type addr m
      → Lacks stabs type (m + 1) l'
      → (addr' ≡ addr) ⊎ (addr' ≡ addr + 1)
      → Inv stabs type left stop addr
          (record s { l = l'; left = m; any_matches = true; addr = addr' })
  Hit-Inv s m l' addr' v p q r w h lacks aim = record {
    from = omega arith;
    ordered = w;
    to = v.to;
    same = v.same;
    aim = aim;
    above = v.above;
    phase = hit refl (omega arith) r q h lacks (end_of_Phase s v.to v.phase);
  }

  module _ (in_order : IsOrdered stabs type left stop) where
    above-Phase :
        (s : Search) (m : ℕ)
        → Inv stabs type left stop addr s
        → s.l ≤ m
        → m < s.stop
        → (entry stabs m).n_type ≡ type
        → addr < (entry stabs m).n_value
        → Phase stabs type left stop addr s
        → Phase stabs type left stop addr
            (record s { stop = m; right_stop = m; any_matches = true })
    above-Phase s m v p q t gt (unseen a b c d) = behind refl b (omega (arith, v.to)) t d
    above-Phase s m v p q t gt (behind a b c t' d) = behind refl b (omega (arith, v.to)) t d
    above-Phase s m v p q t gt (hit a b n c h d e) =
        hit refl b n (ground arith) h d (inr (omega (arith, v.to), t))

    above-Inv :
        (s : Search) (m : ℕ)
        → Inv stabs type left stop addr s
        → s.l ≤ m
        → m < s.stop
        → (entry stabs m).n_type ≡ type
        → addr < (entry stabs m).n_value
        → Inv stabs type left stop addr (record s { stop = m; right_stop = m; any_matches = true })
    above-Inv s m v p q t gt = record {
      from = v.from;
      ordered = p;
      to = omega (arith, v.to);
      same = refl;
      aim = v.aim;
      above = λ i a b ti. ground (arith, in_order m i);
      phase = above-Phase s m v p q t gt v.phase;
    }

    -- The address moves on at most once, since no entry begins one byte behind it.
    exact_hit :
        (s : Search) (m : ℕ)
        → Avoids stabs type left stop (addr + 1)
        → Inv stabs type left stop addr s
        → (entry stabs m).n_type ≡ type
        → left ≤ m
        → m < stop
        → ltb (entry stabs m).n_value s.addr ≡ false
        → ltb s.addr (entry stabs m).n_value ≡ false
        → ((entry stabs m).n_value ≡ addr) × (s.addr ≡ addr)
    exact_hit s m avoid v t p q a b = ground (arith, avoid m p q t)

    pub narrow-Inv :
        (s : Search) (m : ℕ)
        → Avoids stabs type left stop (addr + 1)
        → addr + 1 < 2 ^ 32
        → Inv stabs type left stop addr s
        → s.l < s.stop
        → IsLast stabs type s.l (midpoint s + 1) (some m)
        → Inv stabs type left stop addr (narrow (midpoint s) m (entry stabs m).n_value s)
    unfolding narrow
    narrow-Inv s m avoid small v lt h = elim (Bool-cases (ltb (entry stabs m).n_value s.addr)) [
      | inl low ↦ simp low (
          Hit-Inv s m (midpoint s + 1) s.addr v h.0 (omega arith) (omega arith) (omega arith)
            (h.2, ground arith) h.3 v.aim)
      | inr high ↦ elim (Bool-cases (ltb s.addr (entry stabs m).n_value)) [
        | inl gt ↦ simp (high, gt) (above-Inv s m v h.0 (omega arith) h.2 (ground arith))
        | inr eq ↦
            simp (high, eq)
              (Hit-Inv s m m ((s.addr + 1) % 2 ^ 32) v h.0 (omega arith) (omega arith) (omega arith)
                (h.2, omega (arith, exact_hit s m avoid v h.2 (omega arith) (omega arith) high eq))
                (λ i a b. absurd (omega arith))
                (inr
                  (omega (arith, exact_hit s m avoid v h.2 (omega arith) (omega arith) high eq))))
      ]
    ]
