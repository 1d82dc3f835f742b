-- ===== src/Boot/Load.antt =====
-- `bootmain` on a disk.
use tp_prom.Prelude.{
  ℕ, zero, suc, ◌+◌, ◌-◌, ◌*◌, ◌%◌, ◌^◌, ◌≤◌, ◌<◌, ◌≡◌, ◌≢◌, ◌⊎◌, refl, sym, ap, subst, ◌∙◌, inl,
  inr, lt→ltb, le→ltb, ne→==, arith, Returns, Returns_bind,
}
use tp_prom.Ports.{Ports}
use tp_prom.Boot.Headers.{Memory, elf_magic, proghdr_size}
use tp_prom.Boot.{
  Machine, sectsize, elfhdr, readseg, load_segments, Boot, entered, halted, bootmain,
}
use tp_prom.Boot.Disk.{IsDisk}
use tp_prom.Boot.Segment.{IsLoaded, kept_far, readseg_lem}
use tp_prom.Boot.Kernel.{
  file, file_elf, segment, IsKernel, HasHeaders, read_proghdr-HasHeaders, e_magic-HasHeaders,
  e_entry-HasHeaders, e_phoff-HasHeaders, e_phnum-HasHeaders, p_offset-bound,
}

-- The bytes of the first `n` segments are those of the file.
abbrev pub HasSegments : (ℕ → ℕ) → ℕ → Memory → Type 0
HasSegments image n m =
    (j i : ℕ)
    → j < n
    → i < (segment image j).p_memsz
    → m ((segment image j).p_pa + i) ≡ file image ((segment image j).p_offset + i)

record IsLoading (image : ℕ → ℕ) (n : ℕ) (m : Memory) : Type 0 where
  headers : HasHeaders image m
  segments : HasSegments image n m

module _ (image : ℕ → ℕ) (kernel : IsKernel image) where
  load-IsLoading :
      (n : ℕ) (m m' : Memory)
      → n < (file_elf image).e_phnum
      → IsLoading image n m
      → IsLoaded image m m'
          (segment image n).p_pa
          (segment image n).p_memsz
          (segment image n).p_offset
      → IsLoading image (n + 1) m'
  load-IsLoading n m m' lt h l = record {
    headers = λ i small.
        kept_far image m m' (segment image n).p_pa (segment image n).p_memsz
          (segment image n).p_offset l (elfhdr + i) (beside i small (kernel.apart n lt))
        ∙ h.headers i small;
    segments = λ j i below inside. elim (last j below) [
      | inl before ↦
          let p = kernel.increasing j n before lt in
          l.kept ((segment image j).p_pa + i) (inl (omega (arith, p, inside)))
          ∙ h.segments j i before inside
      | inr e ↦
          subst
            (λ k.
              (i : ℕ)
              → i < (segment image k).p_memsz
              → m' ((segment image k).p_pa + i) ≡ file image ((segment image k).p_offset + i))
            (sym e) fresh i inside
    ];
  }
    where
      fresh :
          (i : ℕ)
          → i < (segment image n).p_memsz
          → m' ((segment image n).p_pa + i) ≡ file image ((segment image n).p_offset + i)
      fresh i small = l.copied i small ∙ ap image (omega arith)

      beside :
          (i : ℕ)
          → i < 4096
          → ((segment image n).p_pa + (segment image n).p_memsz + 511 ≤ elfhdr)
            ⊎ (elfhdr + 4096 ≤ (segment image n).p_pa - (segment image n).p_pa % sectsize)
          → (elfhdr + i < (segment image n).p_pa - (segment image n).p_pa % sectsize)
            ⊎ ((segment image n).p_pa + (segment image n).p_memsz + 511 ≤ elfhdr + i)
      beside i small (inl le) = inr (omega (arith, le, small))
      beside i small (inr le) = inl (omega (arith, le, small))

      last : (j : ℕ) → j < n + 1 → (j < n) ⊎ (j ≡ n)
      last j lt = ground arith

module _ {S : Type 0} (ports : Ports S) (image : ℕ → ℕ) (limit : ℕ)
    (disk : IsDisk ports image limit) (patience : ℕ) (patient : limit ≤ patience) where
  module _ (kernel : IsKernel image) where
    load_segments_lem :
        (k n rounds : ℕ) (t : Machine S)
        → n + k ≡ (file_elf image).e_phnum
        → k < rounds
        → IsLoading image n t.memory
        → Returns
            (load_segments ports patience rounds
              (elfhdr + ((file_elf image).e_phoff + n * proghdr_size))
              (elfhdr + ((file_elf image).e_phoff + (file_elf image).e_phnum * proghdr_size))
              t)
            (λ t'. IsLoading image (file_elf image).e_phnum t'.memory)
    unfolding load_segments
    load_segments_lem k n zero t e more h = absurd (omega arith)
    load_segments_lem zero n (suc rounds) t e more h =
        rw
          (
            le→ltb (elfhdr + ((file_elf image).e_phoff + n * proghdr_size))
                (elfhdr + ((file_elf image).e_phoff + (file_elf image).e_phnum * proghdr_size))
                (omega arith),
            Returns,
          )
          (subst (λ n. IsLoading image n t.memory) {x = n} {y = (file_elf image).e_phnum}
            (omega arith) h)
    load_segments_lem (suc k) n (suc rounds) t e more h =
        let at : ℕ = (file_elf image).e_phoff + n * proghdr_size in
        let fits = kernel.headers in
        let header = read_proghdr-HasHeaders image t.memory h.headers at (omega arith) in
        rw
          (
            lt→ltb (elfhdr + at)
                (elfhdr + ((file_elf image).e_phoff + (file_elf image).e_phnum * proghdr_size))
                (omega arith),
            Returns,
          )
          (rw header (
            let s = segment image n in
            Returns_bind (λ t'. IsLoaded image t.memory t'.memory s.p_pa s.p_memsz s.p_offset) _
              (readseg ports patience s.p_pa s.p_memsz s.p_offset t) _
              (λ t' l.
                let step : (elfhdr + at + proghdr_size) % 2 ^ 32
                    ≡ elfhdr + ((file_elf image).e_phoff + (n + 1) * proghdr_size) =
                  omega arith in
                rw step (
                  load_segments_lem k (n + 1) rounds t' (omega arith) (omega arith)
                    (load-IsLoading image kernel n t.memory t'.memory (omega arith) h l)))
              (readseg_lem ports image limit disk patience patient s.p_pa s.p_memsz s.p_offset t
                (kernel.room n (omega arith)) (p_offset-bound image n kernel)
                (kernel.aligned n (omega arith)))))

  -- On a disk that answers in time, with a kernel's file whose headers are in its first page and
  -- whose segments are apart from that page and from the segments before them: the loader ends by
  -- entering the file's entry point, and then every byte of every segment in memory is the one of
  -- the file.
  pub bootmain_loads :
      (t : Machine S)
      → IsKernel image
      → Returns (bootmain ports patience t) (λ b.
        (t' : Machine S) × (b ≡ entered (file_elf image).e_entry t')
        × HasSegments image (file_elf image).e_phnum t'.memory)
  unfolding bootmain
  bootmain_loads t kernel =
      Returns_bind (λ t'. IsLoaded image t.memory t'.memory elfhdr 4096 0) Kernel
        (readseg ports patience elfhdr 4096 0 t) _
        (λ t' l.
          let h : HasHeaders image t'.memory = λ i lt. l.copied i lt ∙ ap image (omega arith) in
          let fits = kernel.headers in
          let first : (elfhdr + (file_elf image).e_phoff) % 2 ^ 32
              ≡ elfhdr + ((file_elf image).e_phoff + 0 * proghdr_size) =
            omega arith in
          let last : (elfhdr
                  + ((file_elf image).e_phoff + 0 * proghdr_size)
                  + (file_elf image).e_phnum * proghdr_size)
                % 2 ^ 32
              ≡ elfhdr + ((file_elf image).e_phoff + (file_elf image).e_phnum * proghdr_size) =
            omega arith in
          rw (e_magic-HasHeaders image t'.memory h ∙ kernel.magic) (
            rw (e_entry-HasHeaders image t'.memory h) (
              rw (e_phoff-HasHeaders image t'.memory h) (
                rw (e_phnum-HasHeaders image t'.memory h) (
                  rw first (
                    rw last (
                      Returns_bind (λ t''. IsLoading image (file_elf image).e_phnum t''.memory)
                        Kernel
                        (load_segments ports patience ((file_elf image).e_phnum + 1)
                          (elfhdr + ((file_elf image).e_phoff + 0 * proghdr_size))
                          (elfhdr
                            + ((file_elf image).e_phoff + (file_elf image).e_phnum * proghdr_size))
                          t')
                        _ (λ t'' g. (t'', refl, g.segments))
                        (load_segments_lem kernel (file_elf image).e_phnum 0
                          ((file_elf image).e_phnum + 1) t' (omega arith) (omega arith)
                          (record {
                            headers = h;
                            segments = λ j i none. absurd (omega arith);
                          })))))))))
        (readseg_lem ports image limit disk patience patient elfhdr 4096 0 t (omega arith)
          (omega arith) (omega arith))
    where
      Kernel : Boot ports → Type 0
      Kernel b =
          (t' : Machine S) × (b ≡ entered (file_elf image).e_entry t')
          × HasSegments image (file_elf image).e_phnum t'.memory

  -- A file without the magic number halts the loader: no segment is loaded, and the memory in front
  -- of the page at ELFHDR and behind it is unchanged.
  pub bootmain_refuses :
      (t : Machine S)
      → (file_elf image).e_magic ≢ elf_magic
      → Returns (bootmain ports patience t) (λ b.
        (t' : Machine S) × (b ≡ halted t')
        × ((x : ℕ) → (x < elfhdr) ⊎ (elfhdr + 4096 ≤ x) → t'.memory x ≡ t.memory x))
  unfolding bootmain
  bootmain_refuses t other =
      Returns_bind (λ t'. IsLoaded image t.memory t'.memory elfhdr 4096 0) Refused
        (readseg ports patience elfhdr 4096 0 t) _
        (λ t' l.
          let h : HasHeaders image t'.memory = λ i lt. l.copied i lt ∙ ap image (omega arith) in
          rw (e_magic-HasHeaders image t'.memory h)
            (rw (ne→== _ _ other) (_, refl, λ x out. l.kept x out)))
        (readseg_lem ports image limit disk patience patient elfhdr 4096 0 t (omega arith)
          (omega arith) (omega arith))
    where
      Refused : Boot ports → Type 0
      Refused b =
          (t' : Machine S) × (b ≡ halted t')
          × ((x : ℕ) → (x < elfhdr) ⊎ (elfhdr + 4096 ≤ x) → t'.memory x ≡ t.memory x)
