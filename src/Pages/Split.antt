-- ===== src/Pages/Split.antt =====
-- The loop of check_page_free_list that takes the free list apart.
use mathlib.Core.Bool.{true≢false}
use tp_prom.Prelude.{
  ℕ, ◌<◌, ◌≡◌, ◌≢◌, refl, sym, ap, ◌∙◌, subst, Bool, true, false, not, Option, none, some, List, [],
  ◌∷◌, ◌++◌, length, All, Returns, Returns_bind, ◌>>=◌, if◌then◌else◌,
}
use tp_prom.Pages.{Slot, pp1_slot, pp2_slot, link_slot, Lists, put, is_high, move}
use tp_prom.Pages.Chain.{page_at, Links, Absent, Distinct}
use tp_prom.Pages.Trail.{
  Trail, fresh, passed, side, home_of, head_of, slot_of, Disjoint, IsPut, put-IsPut,
}

-- The elements that pass a test, in order.
abbrev pub filter : (ℕ → Bool) → List ℕ → List ℕ
filter test [] = []
filter test (x ∷ xs) = if test x then x ∷ filter test xs else filter test xs

-- The pages moved to the low list and to the high list, and the rest of the free list.
pub record IsParted (limit : ℕ) (s : Lists) (p : Option ℕ) (lo hi rest : List ℕ) : Type 0 where
  pub trail : (b : Bool) → Trail s.pages (head_of b s) (home_of b) (side b lo hi) (slot_of b s)
  pub remaining : Links s.pages p rest none
  pub of_class : (b : Bool) → All (λ x. is_high limit x ≡ b) (side b lo hi)
  pub apart : (b : Bool) → Disjoint (side b lo hi) rest
  pub distinct : Distinct rest

not_same : (b : Bool) → b ≢ not b
not_same true e = true≢false e
not_same false e = true≢false (sym e)

pub Disjoint-classes :
    (limit : ℕ) (b : Bool) (xs ys : List ℕ)
    → All (λ x. is_high limit x ≡ b) xs
    → All (λ x. is_high limit x ≡ not b) ys
    → Disjoint xs ys
Disjoint-classes limit b [] ys h k = tt
Disjoint-classes limit b (x ∷ xs) ys h k = (outside ys k, Disjoint-classes limit b xs ys h.1 k)
  where
    outside : (ys : List ℕ) → All (λ x. is_high limit x ≡ not b) ys → Absent x ys
    outside [] k = tt
    outside (y ∷ ys) k = ((λ e. not_same b (sym h.0 ∙ ap (is_high limit) e ∙ k.0)), outside ys k.1)

Disjoint-Absent : (x : ℕ) (xs ys : List ℕ) → Disjoint xs (x ∷ ys) → Absent x xs
Disjoint-Absent x [] ys d = tt
Disjoint-Absent x (y ∷ xs) ys d = ((λ e. d.0.0 (sym e)), Disjoint-Absent x xs ys d.1)

Disjoint-tail : (x : ℕ) (xs ys : List ℕ) → Disjoint xs (x ∷ ys) → Disjoint xs ys
Disjoint-tail x [] ys d = tt
Disjoint-tail x (y ∷ xs) ys d = (d.0.1, Disjoint-tail x xs ys d.1)

All-snoc : (P : ℕ → Type 0) (xs : List ℕ) (x : ℕ) → All P xs → P x → All P (xs ++ (x ∷ []))
All-snoc P [] x h p = (p, tt)
All-snoc P (y ∷ xs) x h p = (h.0, All-snoc P xs x h.1 p)

All-init : (P : ℕ → Type 0) (xs : List ℕ) (x : ℕ) → All P (xs ++ (x ∷ [])) → All P xs
All-init P [] x h = tt
All-init P (y ∷ xs) x h = (h.0, All-init P xs x h.1)

Disjoint-init : (xs ys : List ℕ) (y : ℕ) → Disjoint xs (ys ++ (y ∷ [])) → Disjoint xs ys
Disjoint-init [] ys y d = tt
Disjoint-init (x ∷ xs) ys y d = (All-init (λ z. x ≢ z) ys y d.0, Disjoint-init xs ys y d.1)

-- The other list stays as it is.
pub Trail-IsPut :
    (b : Bool) (xs ys : List ℕ) (v : Option ℕ) (s t : Lists) (home slot : Slot)
    → IsPut b xs v s t
    → Disjoint xs ys
    → Trail s.pages (head_of (not b) s) home ys slot
    → Trail t.pages (head_of (not b) t) home ys slot
Trail-IsPut b xs _ v s t home _ h d fresh = fresh
Trail-IsPut b xs _ v s t home _ h d (passed ys y links lt apart) =
    passed ys y
      (subst (λ z. Links t.pages z ys (some y)) (sym h.other)
        (h.frame (head_of (not b) s) ys (some y) (Disjoint-init xs ys y d) links))
      (rw h.size lt) apart

-- One pass moves one page to the end of its list.
module _ (limit : ℕ) (s : Lists) (lo hi rest : List ℕ) (x : ℕ)
    (h : IsParted limit s (some x) lo hi (x ∷ rest)) where
  unfoldable pub Moved : Bool → Lists → Type 0
  Moved b t =
      IsParted limit t (page_at t.pages x).pp_link (side b (lo ++ (x ∷ [])) lo)
        (side b hi (hi ++ (x ∷ []))) rest
      × (length t.pages ≡ length s.pages)

  Moved-low :
      (t : Lists)
      → is_high limit x ≡ false
      → IsPut false lo (some x) s t
      → Moved false (record t { tp0 = link_slot x })
  unfolding Moved
  Moved-low t class p = (
    record {
      trail = trails;
      remaining = remains.2;
      of_class = classes;
      apart = aparts;
      distinct = h.distinct.1;
    },
    p.size,
  )
    where
      remains :
          (some x ≡ some x)
          × (x < length t.pages)
          × Links t.pages (page_at t.pages x).pp_link rest none
      remains = p.frame (some x) (x ∷ rest) none (h.apart false) h.remaining

      trails :
          (b : Bool)
          → Trail t.pages
              (side b t.pp1 t.pp2)
              (home_of b)
              (side b (lo ++ (x ∷ [])) hi)
              (side b (link_slot x) t.tp1)
      trails false = passed lo x p.links remains.1 (Disjoint-Absent x lo rest (h.apart false))
      trails true =
          subst (λ z. Trail t.pages t.pp2 pp2_slot hi z) (sym p.same_tp1)
            (Trail-IsPut false lo hi (some x) s t pp2_slot s.tp1 p
              (Disjoint-classes limit false lo hi (h.of_class false) (h.of_class true))
              (h.trail true))

      classes : (b : Bool) → All (λ x. is_high limit x ≡ b) (side b (lo ++ (x ∷ [])) hi)
      classes false = All-snoc (λ x. is_high limit x ≡ false) lo x (h.of_class false) class
      classes true = h.of_class true

      aparts : (b : Bool) → Disjoint (side b (lo ++ (x ∷ [])) hi) rest
      aparts false =
          All-snoc (λ y. Absent y rest) lo x (Disjoint-tail x lo rest (h.apart false)) h.distinct.0
      aparts true = Disjoint-tail x hi rest (h.apart true)

  Moved-high :
      (t : Lists)
      → is_high limit x ≡ true
      → IsPut true hi (some x) s t
      → Moved true (record t { tp1 = link_slot x })
  unfolding Moved
  Moved-high t class p = (
    record {
      trail = trails;
      remaining = remains.2;
      of_class = classes;
      apart = aparts;
      distinct = h.distinct.1;
    },
    p.size,
  )
    where
      remains :
          (some x ≡ some x)
          × (x < length t.pages)
          × Links t.pages (page_at t.pages x).pp_link rest none
      remains = p.frame (some x) (x ∷ rest) none (h.apart true) h.remaining

      trails :
          (b : Bool)
          → Trail t.pages
              (side b t.pp1 t.pp2)
              (home_of b)
              (side b lo (hi ++ (x ∷ [])))
              (side b t.tp0 (link_slot x))
      trails true = passed hi x p.links remains.1 (Disjoint-Absent x hi rest (h.apart true))
      trails false =
          subst (λ z. Trail t.pages t.pp1 pp1_slot lo z) (sym p.same_tp0)
            (Trail-IsPut true hi lo (some x) s t pp1_slot s.tp0 p
              (Disjoint-classes limit true hi lo (h.of_class true) (h.of_class false))
              (h.trail false))

      classes : (b : Bool) → All (λ x. is_high limit x ≡ b) (side b lo (hi ++ (x ∷ [])))
      classes true = All-snoc (λ x. is_high limit x ≡ true) hi x (h.of_class true) class
      classes false = h.of_class false

      aparts : (b : Bool) → Disjoint (side b lo (hi ++ (x ∷ []))) rest
      aparts true =
          All-snoc (λ y. Absent y rest) hi x (Disjoint-tail x hi rest (h.apart true)) h.distinct.0
      aparts false = Disjoint-tail x lo rest (h.apart false)

  pub move_lem : Returns (move limit x s) (Moved (is_high limit x))
  unfolding move
  move_lem = by_class (is_high limit x) refl
    where
      by_class :
          (b : Bool)
          → is_high limit x ≡ b
          → Returns
              (elim b as (λ z. Option Lists) [
                | true ↦ put s.tp1 (some x) s >>= λ t. some (record t { tp1 = link_slot x })
                | false ↦ put s.tp0 (some x) s >>= λ t. some (record t { tp0 = link_slot x })
              ])
              (Moved b)
      by_class true e =
          Returns_bind (IsPut true hi (some x) s) (Moved true) (put s.tp1 (some x) s) _
            (λ t p. Moved-high t e p) (put-IsPut true s hi s.tp1 (some x) (h.trail true))
      by_class false e =
          Returns_bind (IsPut false lo (some x) s) (Moved false) (put s.tp0 (some x) s) _
            (λ t p. Moved-low t e p) (put-IsPut false s lo s.tp0 (some x) (h.trail false))
