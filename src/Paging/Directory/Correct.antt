-- ===== src/Paging/Directory/Correct.antt =====
-- check_kern_pgdir against a description of the kernel's page directory.
use mathlib.Core.Logic.{◌↔◌}
use tp_prom.Prelude.{
  ℕ, ◌+◌, ◌-◌, ◌*◌, ◌/◌, ◌%◌, ◌≤◌, ◌<◌, ◌≡◌, ◌⊎◌, refl, sym, ap, subst, Bool, true, false, Option,
  none, some, leb, ◌==◌, ==→eq, ==_refl, if◌then◌else◌, ◌>>=◌, ◌>>◌, inl, inr, arith,
}
use tp_prom.Paging.Address.{
  word, page_size, table_size, directory_index, is_present, is_writable, kernbase, kstacktop,
  upages, roundup, rounddown,
}
use tp_prom.Paging.Physical.{paddr}
use tp_prom.Paging.Walk.{unmapped}
use tp_prom.Paging.Directory.{
  assert, for_loop, Kernel, kstksize, translate, pde, pages_body, memory_body, stack_body,
  guard_body, is_shared, pde_body, pages_end, memory_end, check_kern_pgdir,
}
use tp_prom.Paging.Directory.Loop.{
  Ends, AllEnd, both_end, end_both, for_loop-AllEnd, AllEnd-for_loop,
}

-- What the entry `i` of the directory has to be.
pub data IsEntry (k : Kernel) (i : ℕ) : Type 0 where
  shared : is_shared k i ≡ true → is_present (pde k i) ≡ true → IsEntry k i
  kernel :
      is_shared k i ≡ false
      → directory_index kernbase ≤ i
      → is_present (pde k i) ≡ true
      → is_writable (pde k i) ≡ true
      → IsEntry k i
  empty : is_shared k i ≡ false → i < directory_index kernbase → pde k i ≡ 0 → IsEntry k i

-- The mappings of the kernel: the array of pages at UPAGES, the physical memory at KERNBASE, the
-- stack below KSTACKTOP, and nothing at the bottom of the stack's region.
pub record IsKernelDirectory (k : Kernel) : Type 0 where
  pub pages_mapped :
      (i : ℕ)
      → page_size * i < pages_end k
      → translate k ((upages + page_size * i) % word)
        ≡ some ((k.pages - kernbase + page_size * i) % word)
  pub memory_mapped :
      (i : ℕ) → i < k.npages → translate k (kernbase + page_size * i) ≡ some (page_size * i)
  pub stack_mapped :
      (i : ℕ)
      → i < 8
      → translate k (kstacktop - kstksize + page_size * i)
        ≡ some ((k.bootstack - kernbase + page_size * i) % word)
  pub guard : translate k (kstacktop - table_size) ≡ some unmapped
  pub entries : (i : ℕ) → i < 1024 → IsEntry k i

assert-Ends : (b : Bool) → Ends (assert b) → b ≡ true
assert-Ends true h = refl
assert-Ends false h = absurd (cc)

-- A comparison of a translation.
compared : (o : Option ℕ) (a : ℕ) → Ends (o >>= λ v. assert (v == a)) → o ≡ some a
compared none a h = absurd (cc)
compared (some v) a h = ap some (==→eq v a (assert-Ends (v == a) h))

equal : (o : Option ℕ) (a : ℕ) → o ≡ some a → Ends (o >>= λ v. assert (v == a))
equal o a e = rw e (rw (==_refl a) refl)

module _ (o : Option ℕ) (kva i : ℕ) (above : kernbase ≤ kva) where
  plain : paddr kva ≡ some (kva - kernbase)
  unfolding paddr
  plain = ground arith

  compared_paddr :
      Ends (o >>= λ v. paddr kva >>= λ p. assert (v == (p + i) % word))
      → o ≡ some ((kva - kernbase + i) % word)
  compared_paddr h = compared o ((kva - kernbase + i) % word) (rw plain at h)

  equal_paddr :
      o ≡ some ((kva - kernbase + i) % word)
      → Ends (o >>= λ v. paddr kva >>= λ p. assert (v == (p + i) % word))
  equal_paddr e = rw plain (equal o ((kva - kernbase + i) % word) e)

-- A loop from 0 on.
module _ (step : ℕ) (body : ℕ → Option (Unit {0})) (n : ℕ) where
  from_zero : AllEnd step body 0 n → (i : ℕ) → step * i < n → Ends (body (step * i))
  from_zero h i lt =
      let e : 0 + step * i ≡ step * i = omega arith in
      subst (λ z. Ends (body z)) e (h i (omega arith))

  to_zero : ((i : ℕ) → step * i < n → Ends (body (step * i))) → AllEnd step body 0 n
  to_zero h i lt =
      let e : step * i ≡ 0 + step * i = omega arith in
      subst (λ z. Ends (body z)) e (h i (omega arith))

-- The three kinds of an entry, by the tests.
abbrev Kinds : Bool → Bool → Bool → Bool → Bool → Type 0
Kinds s l p w z =
    ((s ≡ true) × (p ≡ true))
    ⊎ (((s ≡ false) × (l ≡ true) × (p ≡ true) × (w ≡ true))
        ⊎ ((s ≡ false) × (l ≡ false) × (z ≡ true)))

kinds :
    (s l p w z : Bool)
    → Ends (if s then assert p else if l then (assert p >> assert w) else assert z)
    → Kinds s l p w z
kinds true l p w z h = inl (refl, assert-Ends p h)
kinds false true true w z h = inr (inl (refl, refl, refl, assert-Ends w h))
kinds false true false w z h = absurd (cc)
kinds false false p w z h = inr (inr (refl, refl, assert-Ends z h))

module _ (k : Kernel) (i : ℕ) where
  pde_body-IsEntry : Ends (pde_body k i) → IsEntry k i
  pde_body-IsEntry h =
      elim (kinds (is_shared k i) (leb (directory_index kernbase) i) (is_present (pde k i))
        (is_writable (pde k i)) (pde k i == 0) h) [
          | inl (s, p) ↦ shared s p
          | inr q ↦ elim q [
            | inl (s, l, p, w) ↦ kernel s (ground arith) p w
            | inr (s, l, z) ↦ empty s (ground arith) (==→eq (pde k i) 0 z)
          ]
        ]

  IsEntry-pde_body : IsEntry k i → Ends (pde_body k i)
  IsEntry-pde_body (shared s p) = rw s (rw p refl)
  IsEntry-pde_body (kernel s le p w) =
      let l : leb (directory_index kernbase) i ≡ true = ground arith in
      rw s (rw l (rw p (rw w refl)))
  IsEntry-pde_body (empty s lt e) =
      let l : leb (directory_index kernbase) i ≡ false = ground arith in rw s (rw l (rw e refl))

module _ (k : Kernel) (fits : k.npages * page_size ≤ word - kernbase)
    (pages_above : kernbase ≤ k.pages) (stack_above : kernbase ≤ k.bootstack) where
  pages_room : pages_end k + page_size ≤ word
  unfolding roundup rounddown
  pages_room = omega arith

  whole : memory_end k ≡ k.npages * page_size
  whole = omega arith

  -- For a physical memory that fits above KERNBASE, and for `pages` and `bootstack` above KERNBASE:
  -- check_kern_pgdir comes to its end if and only if the directory maps the kernel as
  -- `IsKernelDirectory` says.
  pub check_kern_pgdir-IsKernelDirectory : Ends (check_kern_pgdir k false) ↔ IsKernelDirectory k
  unfolding check_kern_pgdir
  check_kern_pgdir-IsKernelDirectory = (sound, complete)
    where
      sound : Ends (check_kern_pgdir k false) → IsKernelDirectory k
      sound h =
          let a =
            both_end
              (for_loop page_size (pages_body k) (pages_end k / page_size + 2) 0 (pages_end k)) _
              h in
          let b =
            both_end
              (for_loop page_size (memory_body k) (memory_end k / page_size + 2) 0 (memory_end k)) _
              a.1 in
          let c =
            both_end (for_loop page_size (stack_body k) (kstksize / page_size + 2) 0 kstksize) _
              b.1 in
          let d = both_end (guard_body k) _ c.1 in
          let e = both_end (for_loop 1 (pde_body k) 1025 0 1024) _ d.1 in
          let pages =
            for_loop-AllEnd page_size (pages_body k) (pages_end k) pages_room
              (pages_end k / page_size + 2) 0 a.0 in
          let memory =
            for_loop-AllEnd page_size (memory_body k) (memory_end k) (omega arith)
              (memory_end k / page_size + 2) 0 b.0 in
          let stack =
            for_loop-AllEnd page_size (stack_body k) kstksize (omega arith)
              (kstksize / page_size + 2) 0 c.0 in
          let entries = for_loop-AllEnd 1 (pde_body k) 1024 (omega arith) 1025 0 e.0 in
          record {
            pages_mapped = λ i lt.
                compared_paddr (translate k ((upages + page_size * i) % word)) k.pages
                  (page_size * i) pages_above
                  (from_zero page_size (pages_body k) (pages_end k) pages i lt);
            memory_mapped = λ i lt.
                let inside : page_size * i < memory_end k = omega (arith, whole) in
                let below : (kernbase + page_size * i) % word ≡ kernbase + page_size * i =
                  omega arith in
                subst (λ z. translate k z ≡ some (page_size * i)) below
                  (compared (translate k ((kernbase + page_size * i) % word)) (page_size * i)
                    (from_zero page_size (memory_body k) (memory_end k) memory i inside));
            stack_mapped = λ i lt.
                compared_paddr (translate k (kstacktop - kstksize + page_size * i)) k.bootstack
                  (page_size * i) stack_above
                  (from_zero page_size (stack_body k) kstksize stack i (omega arith));
            guard = compared (translate k (kstacktop - table_size)) unmapped d.0;
            entries = λ i lt.
                let one : 1 * i ≡ i = omega arith in
                pde_body-IsEntry k i (
                  subst (λ z. Ends (pde_body k z)) one
                    (from_zero 1 (pde_body k) 1024 entries i (omega arith)));
          }

      complete : IsKernelDirectory k → Ends (check_kern_pgdir k false)
      complete h =
          end_both (for_loop page_size (pages_body k) (pages_end k / page_size + 2) 0 (pages_end k))
            _
            (AllEnd-for_loop page_size (pages_body k) (pages_end k) pages_room
              (pages_end k / page_size + 2) (pages_end k / page_size + 1) 0 (omega arith)
              (omega arith)
              (to_zero page_size (pages_body k) (pages_end k) (λ i lt.
                equal_paddr (translate k ((upages + page_size * i) % word)) k.pages (page_size * i)
                  pages_above (h.pages_mapped i lt))))
            (end_both
              (for_loop page_size (memory_body k) (memory_end k / page_size + 2) 0 (memory_end k)) _
              (AllEnd-for_loop page_size (memory_body k) (memory_end k) (omega arith)
                (memory_end k / page_size + 2) (memory_end k / page_size + 1) 0 (omega arith)
                (omega arith)
                (to_zero page_size (memory_body k) (memory_end k) (λ i lt.
                  let below : (kernbase + page_size * i) % word ≡ kernbase + page_size * i =
                    omega (arith, whole) in
                  equal (translate k ((kernbase + page_size * i) % word)) (page_size * i) (
                    subst (λ z. translate k z ≡ some (page_size * i)) (sym below)
                      (h.memory_mapped i (omega (arith, whole)))))))
              (end_both (for_loop page_size (stack_body k) (kstksize / page_size + 2) 0 kstksize) _
                (AllEnd-for_loop page_size (stack_body k) kstksize (omega arith)
                  (kstksize / page_size + 2) 9 0 (omega arith) (omega arith)
                  (to_zero page_size (stack_body k) kstksize (λ i lt.
                    equal_paddr (translate k (kstacktop - kstksize + page_size * i)) k.bootstack
                      (page_size * i) stack_above (h.stack_mapped i (omega arith)))))
                (end_both (guard_body k) _
                  (equal (translate k (kstacktop - table_size)) unmapped h.guard)
                  (end_both (for_loop 1 (pde_body k) 1025 0 1024) (some tt)
                    (AllEnd-for_loop 1 (pde_body k) 1024 (omega arith) 1025 1024 0 (omega arith)
                      (omega arith)
                      (to_zero 1 (pde_body k) 1024 (λ i lt.
                        let one : 1 * i ≡ i = omega arith in
                        subst (λ z. Ends (pde_body k z)) (sym one)
                          (IsEntry-pde_body k i (h.entries i (omega arith))))))
                    refl))))
