-- ===== src/Pages/Chain.antt =====
-- The list of pages that runs through the links of an array.
use tp_prom.Prelude.{
  ℕ, ◌<◌, ◌≡◌, ◌≢◌, refl, sym, subst, Option, none, some, List, [], ◌∷◌, ◌++◌, get_or, get_elem?,
  get_elem?-eq-get_or, set, length, length-set, get_or-set_ne, All, arith, Returns,
}
use tp_prom.Pages.{PageInfo, store}

abbrev pub no_page : PageInfo
no_page = record { pp_link = none; pp_ref = 0 }

abbrev pub page_at : List PageInfo → ℕ → PageInfo
page_at pages x = get_or pages x no_page

-- The links from `p` on are those of the pages `xs`, and end in `q`.
abbrev pub Links : List PageInfo → Option ℕ → List ℕ → Option ℕ → Type 0
Links pages p [] q = p ≡ q
Links pages p (x ∷ xs) q =
    (p ≡ some x) × (x < length pages) × Links pages (page_at pages x).pp_link xs q

abbrev pub IsFreeList : List PageInfo → Option ℕ → List ℕ → Type 0
IsFreeList pages p xs = Links pages p xs none

abbrev pub Absent : ℕ → List ℕ → Type 0
Absent x xs = All (λ y. x ≢ y) xs

abbrev pub Distinct : List ℕ → Type 0
Distinct [] = Unit
Distinct (x ∷ xs) = Absent x xs × Distinct xs

module _ (pages : List PageInfo) where
  -- A store to a page that is not on the way.
  pub Links-set :
      (x : ℕ) (v : PageInfo) (p : Option ℕ) (xs : List ℕ) (q : Option ℕ)
      → Absent x xs
      → Links pages p xs q
      → Links (set pages x v) p xs q
  Links-set x v p [] q apart h = h
  Links-set x v p (y ∷ ys) q (ne, apart) (e, lt, h) = (
    e,
    rw (length-set pages x v) lt,
    subst (λ z. Links (set pages x v) z.pp_link ys q) (sym (get_or-set_ne pages v no_page ne))
        (Links-set x v (page_at pages y).pp_link ys q apart h),
  )

  pub Links-append :
      (p : Option ℕ) (xs : List ℕ) (q : Option ℕ) (ys : List ℕ) (r : Option ℕ)
      → Links pages p xs q
      → Links pages q ys r
      → Links pages p (xs ++ ys) r
  Links-append p [] q ys r e h = subst (λ z. Links pages z ys r) (sym e) h
  Links-append p (x ∷ xs) q ys r (e, lt, h) k =
      (e, lt, Links-append (page_at pages x).pp_link xs q ys r h k)

  pub Links-below :
      (p : Option ℕ) (xs : List ℕ) (q : Option ℕ)
      → Links pages p xs q
      → All (λ x. x < length pages) xs
  Links-below p [] q h = tt
  Links-below p (x ∷ xs) q (e, lt, h) = (lt, Links-below (page_at pages x).pp_link xs q h)

  pub get_elem?-page :
      (x : ℕ) → x < length pages → Returns (get_elem? pages x) (λ p. p ≡ page_at pages x)
  get_elem?-page x lt = rw (get_elem?-eq-get_or pages x no_page lt) refl

  pub store_lem :
      (x : ℕ) (v : PageInfo)
      → x < length pages
      → Returns (store pages x v) (λ ps. ps ≡ set pages x v)
  unfolding store
  store_lem x v lt = ground arith
