-- ===== src/Pages/Fill.antt =====
-- The loop of check_page_free_list that fills the pages.
use tp_prom.Prelude.{
  ℕ, zero, suc, ◌^◌, ◌≤◌, ◌<◌, ◌≡◌, ◌≢◌, refl, sym, subst, Bool, true, false, Option, none, some,
  List, [], ◌∷◌, get_elem?, length, arith, Returns, Returns_bind, Returns_mono,
}
use tp_prom.Strings.Fill.{memset}
use tp_prom.Paging.Physical.{kaddr, page2pa, page2kva}
use tp_prom.Pages.{PageInfo, Manager, is_high, fill_loop, is_free_page}
use tp_prom.Pages.Chain.{page_at, IsFreeList, get_elem?-page}

-- The pages that may be free: not the first one, not the first and last of the hole for devices,
-- and not the first one behind it.
pub record IsFreePage (npages x : ℕ) : Type 0 where
  pub inside : x < npages
  pub not_zero : x ≢ 0
  pub not_io : x ≢ 0xA0
  pub not_last_io : x ≢ 0xFF
  pub not_kernel : x ≢ 0x100

module _ (npages : ℕ) (small : npages ≤ 2 ^ 20) where
  pub page2kva_total : (x : ℕ) → x < npages → Returns (page2kva npages x) (λ kva. Unit {0})
  unfolding page2kva kaddr page2pa
  page2kva_total x lt = ground arith

  pub is_free_page-IsFreePage : (x : ℕ) → is_free_page npages 0 x ≡ true → IsFreePage npages x
  unfolding is_free_page page2kva kaddr page2pa
  is_free_page-IsFreePage x h = record {
    inside = ground arith;
    not_zero = ground arith;
    not_io = ground arith;
    not_last_io = ground arith;
    not_kernel = ground arith;
  }

  pub IsFreePage-is_free_page : (x : ℕ) → IsFreePage npages x → is_free_page npages 0 x ≡ true
  unfolding is_free_page page2kva kaddr page2pa
  IsFreePage-is_free_page x h =
      ground (arith, h.inside, h.not_zero, h.not_io, h.not_last_io, h.not_kernel)

-- `m'` is `m` but for the pages that were filled.
pub record IsFilled (m m' : Manager) : Type 0 where
  pub same_pages : m'.pages ≡ m.pages
  pub same_list : m'.page_free_list ≡ m.page_free_list
  pub same_npages : m'.npages ≡ m.npages

abbrev pub Filled : Manager → Option Manager → Type 0
Filled m o = (m' : Manager) × (o ≡ some m') × IsFilled m m'

-- The pages of a free list fit the physical memory.
pub fill_loop_lem :
    (limit : ℕ) (xs : List ℕ) (fuel : ℕ) (p : Option ℕ) (m : Manager)
    → m.npages ≤ 2 ^ 20
    → length m.pages ≡ m.npages
    → length xs < fuel
    → IsFreeList m.pages p xs
    → Returns (fill_loop limit fuel p m) (Filled m)
unfolding fill_loop
fill_loop_lem limit xs zero p m small size lt h = absurd (omega arith)
fill_loop_lem limit [] (suc fuel) p m small size lt h =
    rw h (m, refl, record { same_pages = refl; same_list = refl; same_npages = refl })
fill_loop_lem limit (x ∷ xs) (suc fuel) p m small size lt h = rw h.0 (
    Returns_bind (λ q. q ≡ page_at m.pages x) (Filled m) (get_elem? m.pages x) _
      (λ q e.
        let rest = subst (λ (z : PageInfo). IsFreeList m.pages z.pp_link xs) (sym e) h.2 in
        by_class q (is_high limit x) (page2kva m.npages x)
          (page2kva_total m.npages small x (rw⁻¹ size h.1))
          (fill_loop_lem limit xs fuel q.pp_link m small size (omega arith) rest)
          (λ kva.
            fill_loop_lem limit xs fuel q.pp_link
              (record m { memory = memset kva 0x97 128 m.memory }) small size (omega arith) rest))
      (get_elem?-page m.pages x h.1))
  where
    next : PageInfo → Manager → Option (Option Manager)
    next q m' = fill_loop limit fuel q.pp_link m'

    again :
        (kva : ℕ) (o : Option Manager)
        → Filled (record m { memory = memset kva 0x97 128 m.memory }) o
        → Filled m o
    again kva o (m', e, f) = (
      m',
      e,
      record { same_pages = f.same_pages; same_list = f.same_list; same_npages = f.same_npages },
    )

    by_class :
        (q : PageInfo) (b : Bool) (o : Option ℕ)
        → Returns o (λ kva. Unit {0})
        → Returns (next q m) (Filled m)
        → ((kva : ℕ)
            → Returns
                (next q (record m { memory = memset kva 0x97 128 m.memory }))
                (Filled (record m { memory = memset kva 0x97 128 m.memory })))
        → Returns
            (elim b as (λ z. Option (Option Manager)) [
              | true ↦ next q m
              | false ↦ elim o as (λ z. Option (Option Manager)) [
                | none ↦ some none
                | some kva ↦ next q (record m { memory = memset kva 0x97 128 m.memory })
              ]
            ])
            (Filled m)
    by_class q true o mapped h k = h
    by_class q false none mapped h k = absurd mapped
    by_class q false (some kva) mapped h k =
        Returns_mono (next q (record m { memory = memset kva 0x97 128 m.memory })) {Q = Filled m}
          (again kva) (k kva)
