-- ===== src/Pages/Trail.antt =====
-- The stores of check_page_free_list at the ends of the two lists that it takes the free list
-- apart into.
use tp_prom.Prelude.{
  ℕ, ◌<◌, ◌≡◌, refl, sym, ap, subst, Bool, true, false, not, Option, some, List, [], ◌∷◌, ◌++◌,
  get_elem?, set, length, length-set, get_or-set_self, All, Returns, Returns_bind, Returns_mono,
}
use tp_prom.Pages.{PageInfo, store, Slot, pp1_slot, pp2_slot, link_slot, Lists, put}
use tp_prom.Pages.Chain.{
  no_page, page_at, Links, Absent, Links-set, Links-append, get_elem?-page, store_lem,
}

-- The list that begins in `head` and whose next element goes to `slot`: `home` at first, then the
-- link of the last element.
pub data Trail (pages : List PageInfo) (head : Option ℕ) (home : Slot)
    : List ℕ → Slot → Type 0 where
  fresh : Trail pages head home [] home
  passed :
      (xs : List ℕ) (x : ℕ)
      → Links pages head xs (some x)
      → x < length pages
      → Absent x xs
      → Trail pages head home (xs ++ (x ∷ [])) (link_slot x)

relink : List PageInfo → ℕ → Option ℕ → List PageInfo
relink pages x v = set pages x (record (page_at pages x) { pp_link = v })

put-link :
    (s : Lists) (x : ℕ) (v : Option ℕ)
    → x < length s.pages
    → Returns (put (link_slot x) v s) (λ t. t ≡ record s { pages = relink s.pages x v })
unfolding put relink
put-link s x v lt =
    Returns_bind (λ p. p ≡ page_at s.pages x) (λ t. t ≡ record s { pages = relink s.pages x v })
      (get_elem? s.pages x) _
      (λ p e. rw e (
        let q : PageInfo = record (page_at s.pages x) { pp_link = v } in
        Returns_bind (λ ps. ps ≡ set s.pages x q) (λ t. t ≡ record s { pages = relink s.pages x v })
          (store s.pages x q) _ (λ ps e'. rw e' refl) (store_lem s.pages x q lt)))
      (get_elem?-page s.pages x lt)

-- The links through a list, and on to what was stored at its end.
Links-relink :
    (pages : List PageInfo) (p : Option ℕ) (xs : List ℕ) (x : ℕ) (v : Option ℕ)
    → Links pages p xs (some x)
    → x < length pages
    → Absent x xs
    → Links (relink pages x v) p (xs ++ (x ∷ [])) v
unfolding relink
Links-relink pages p xs x v h lt apart =
    let q : PageInfo = record (page_at pages x) { pp_link = v } in
    Links-append (set pages x q) p xs (some x) (x ∷ []) v
      (Links-set pages x q p xs (some x) apart h)
      (
        refl,
        rw (length-set pages x q) lt,
        ap (λ z. z.pp_link) (get_or-set_self pages x q no_page lt),
      )

Links-relink_apart :
    (pages : List PageInfo) (p : Option ℕ) (ys : List ℕ) (q : Option ℕ) (x : ℕ) (v : Option ℕ)
    → Absent x ys
    → Links pages p ys q
    → Links (relink pages x v) p ys q
unfolding relink
Links-relink_apart pages p ys q x v apart h =
    Links-set pages x (record (page_at pages x) { pp_link = v }) p ys q apart h

length-relink :
    (pages : List PageInfo) (x : ℕ) (v : Option ℕ) → length (relink pages x v) ≡ length pages
unfolding relink
length-relink pages x v = length-set pages x (record (page_at pages x) { pp_link = v })

-- The list of the low pages and that of the high ones, by the value of is_high.
abbrev pub side {ℓ} : {A : Type ℓ} → Bool → A → A → A
side false lo hi = lo
side true lo hi = hi

abbrev pub home_of : Bool → Slot
home_of b = side b pp1_slot pp2_slot

abbrev pub head_of : Bool → Lists → Option ℕ
head_of b s = side b s.pp1 s.pp2

abbrev pub slot_of : Bool → Lists → Slot
slot_of b s = side b s.tp0 s.tp1

abbrev pub Disjoint : List ℕ → List ℕ → Type 0
Disjoint xs ys = All (λ x. Absent x ys) xs

-- What a store at the end of a list does.
pub record IsPut (b : Bool) (xs : List ℕ) (v : Option ℕ) (s t : Lists) : Type 0 where
  pub links : Links t.pages (head_of b t) xs v
  pub frame :
      (p : Option ℕ) (ys : List ℕ) (q : Option ℕ)
      → Disjoint xs ys
      → Links s.pages p ys q
      → Links t.pages p ys q
  pub other : head_of (not b) t ≡ head_of (not b) s
  pub same_tp0 : t.tp0 ≡ s.tp0
  pub same_tp1 : t.tp1 ≡ s.tp1
  pub size : length t.pages ≡ length s.pages

All-last : (P : ℕ → Type 0) (xs : List ℕ) (x : ℕ) → All P (xs ++ (x ∷ [])) → P x
All-last P [] x h = h.0
All-last P (y ∷ xs) x h = All-last P xs x h.1

stored :
    (b : Bool) (s : Lists) (xs : List ℕ) (x : ℕ) (v : Option ℕ)
    → Links s.pages (head_of b s) xs (some x)
    → x < length s.pages
    → Absent x xs
    → IsPut b (xs ++ (x ∷ [])) v s (record s { pages = relink s.pages x v })
stored b s xs x v h lt apart = record {
  links = Links-relink s.pages (head_of b s) xs x v h lt apart;
  frame =
      λ p ys q d k. Links-relink_apart s.pages p ys q x v (All-last (λ y. Absent y ys) xs x d) k;
  other = refl;
  same_tp0 = refl;
  same_tp1 = refl;
  size = length-relink s.pages x v;
}

pub put-IsPut :
    (b : Bool) (s : Lists) (xs : List ℕ) (slot : Slot) (v : Option ℕ)
    → Trail s.pages (head_of b s) (home_of b) xs slot
    → Returns (put slot v s) (IsPut b xs v s)
unfolding put
put-IsPut false s _ _ v fresh = record {
  links = refl;
  frame = λ p ys q d h. h;
  other = refl;
  same_tp0 = refl;
  same_tp1 = refl;
  size = refl;
}
put-IsPut true s _ _ v fresh = record {
  links = refl;
  frame = λ p ys q d h. h;
  other = refl;
  same_tp0 = refl;
  same_tp1 = refl;
  size = refl;
}
put-IsPut b s _ _ v (passed xs x h lt apart) =
    Returns_mono (put (link_slot x) v s) {Q = IsPut b (xs ++ (x ∷ [])) v s}
      (λ t e. subst (IsPut b (xs ++ (x ∷ [])) v s) (sym e) (stored b s xs x v h lt apart))
      (put-link s x v lt)
