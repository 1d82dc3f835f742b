-- ===== src/Pages/Tests.antt =====
-- Tests of the free list.
use tp_prom.Prelude.{
  ◌≡◌, refl, true, none, some, List, [], ◌∷◌, ◌++◌, replicate, set, length, arith, Returns,
}
use tp_prom.Pages.{PageInfo, Manager, is_high, page_init, low_first, check_page_free_list}
use tp_prom.Pages.Chain.{no_page, IsFreeList, Distinct}
use tp_prom.Pages.Init.{IsInitialised, page_init_lem}
use tp_prom.Pages.Split.{filter}
use tp_prom.Pages.Order.{is_low, IsReordered, low_first_lem}
use tp_prom.Pages.Verdict.{Verdict, checked_order, check_page_free_list_lem}

-- Three pages in front of page_init.
abbrev three_pages : Manager
three_pages = record {
  npages = 3;
  npages_basemem = 3;
  pages = no_page ∷ no_page ∷ no_page ∷ [];
  page_free_list = none;
  nextfree = 0;
  memory = λ a. 0;
}

page_init_lem_example : Returns (page_init three_pages) (IsInitialised 3 3)
page_init_lem_example = page_init_lem three_pages refl refl

-- Page 1024, the first one above 4 MB, in front of page 5.
abbrev many_pages : List PageInfo
many_pages = set (replicate 1100 no_page) 1024 (record { pp_link = some 5; pp_ref = 0 })

abbrev two_free : Manager
two_free = record {
  npages = 1100;
  npages_basemem = 160;
  pages = many_pages;
  page_free_list = some 1024;
  nextfree = 0;
  memory = λ a. 0;
}

length-many_pages : length many_pages ≡ 1100
length-many_pages = refl

two_free-IsFreeList : IsFreeList many_pages (some 1024) (1024 ∷ 5 ∷ [])
two_free-IsFreeList =
    (refl, rw length-many_pages (omega arith), (refl, rw length-many_pages (omega arith), refl))

two_free-Distinct : Distinct (1024 ∷ 5 ∷ [])
two_free-Distinct = (((λ e. absurd (omega (arith, e))), tt), (tt, tt))

low_first_lem_example :
    Returns (low_first 1 two_free) (
      IsReordered two_free
        (filter (is_low 1) (1024 ∷ 5 ∷ []) ++ filter (is_high 1) (1024 ∷ 5 ∷ [])))
low_first_lem_example =
    low_first_lem 1 two_free (1024 ∷ 5 ∷ []) two_free-IsFreeList two_free-Distinct

check_page_free_list_lem_example :
    Returns
      (check_page_free_list 0xf011_0000 true two_free)
      (Verdict 1100 (checked_order true (1024 ∷ 5 ∷ [])))
check_page_free_list_lem_example =
    check_page_free_list_lem 0xf011_0000 true two_free (1024 ∷ 5 ∷ []) (omega arith)
      length-many_pages two_free-IsFreeList two_free-Distinct
