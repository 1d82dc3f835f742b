-- ===== src/Boot/Segment.antt =====
-- `readseg` on a disk.
use tp_prom.Prelude.{
  ℕ, zero, suc, ◌+◌, ◌-◌, ◌*◌, ◌/◌, ◌%◌, ◌^◌, ◌≤◌, ◌<◌, ◌≡◌, ◌⊎◌, refl, sym, ap, subst, ◌∙◌, inl,
  inr, lt→ltb, le→ltb, arith, Returns, Returns_bind, Returns_mono,
}
use tp_prom.Ports.{Ports}
use tp_prom.Boot.Headers.{Memory}
use tp_prom.Boot.{Machine, sectsize, readsect, readseg_loop, readseg}
use tp_prom.Boot.Disk.{IsDisk}
use tp_prom.Boot.Sector.{Loaded, readsect_lem}

Loaded-nothing : (image : ℕ → ℕ) (m : Memory) (dst src : ℕ) → Loaded image m m dst 0 src
Loaded-nothing image m dst src = record {
  inside = λ i lt. absurd (omega arith);
  outside = λ x out. refl;
}

Loaded-join :
    {image : ℕ → ℕ} {m m' m'' : Memory} {dst src : ℕ} (n k : ℕ)
    → Loaded image m m' dst n src
    → Loaded image m' m'' (dst + n) k (src + n)
    → Loaded image m m'' dst (n + k) src
Loaded-join {image} {m} {m'} {m''} {dst} {src} n k h h' = record {
  inside = λ i lt. elim (split i) [
    | inl low ↦ h'.outside (dst + i) (inl (omega arith)) ∙ h.inside i low
    | inr high ↦
        let e : dst + n + (i - n) ≡ dst + i = omega arith in
        let e' : src + n + (i - n) ≡ src + i = omega arith in
        sym (ap m'' e) ∙ h'.inside (i - n) (omega arith) ∙ ap image e'
  ];
  outside = λ x out. h'.outside x (apart x out) ∙ h.outside x (apart' x out);
}
  where
    split : (i : ℕ) → (i < n) ⊎ (n ≤ i)
    split i = ground arith

    apart : (x : ℕ) → (x < dst) ⊎ (dst + (n + k) ≤ x) → (x < dst + n) ⊎ (dst + n + k ≤ x)
    apart x (inl lt) = inl (omega arith)
    apart x (inr le) = inr (omega arith)

    apart' : (x : ℕ) → (x < dst) ⊎ (dst + (n + k) ≤ x) → (x < dst) ⊎ (dst + n ≤ x)
    apart' x (inl lt) = inl lt
    apart' x (inr le) = inr (omega arith)

-- The end of the sector-sized piece of memory that the byte in front of `a` is in.
abbrev pub piece_end : ℕ → ℕ
piece_end a = a + 511 - (a + 511) % sectsize

-- The bytes of the kernel's file from `offset` on are at `pa`, and in front of the piece of 512 bytes
-- in which the segment begins, and behind the one in which it ends, the memory has not changed. The
-- file begins at sector 1.
pub record IsLoaded (image : ℕ → ℕ) (m m' : Memory) (pa count offset : ℕ) : Type 0 where
  pub copied : (i : ℕ) → i < count → m' (pa + i) ≡ image (sectsize + offset + i)
  pub kept : (x : ℕ) → (x < pa - pa % sectsize) ⊎ (piece_end (pa + count) ≤ x) → m' x ≡ m x

-- That piece ends less than 512 bytes behind the segment.
pub kept_far :
    (image : ℕ → ℕ) (m m' : Memory) (pa count offset : ℕ)
    → IsLoaded image m m' pa count offset
    → (x : ℕ) → (x < pa - pa % sectsize) ⊎ (pa + count + 511 ≤ x)
    → m' x ≡ m x
kept_far image m m' pa count offset l x (inl lt) = l.kept x (inl lt)
kept_far image m m' pa count offset l x (inr le) = l.kept x (inr (omega arith))

module _ {S : Type 0} (ports : Ports S) (image : ℕ → ℕ) (limit : ℕ)
    (disk : IsDisk ports image limit) (patience : ℕ) (patient : limit ≤ patience) where
  readseg_loop_lem :
      (n rounds pa end_pa offset : ℕ) (t : Machine S)
      → n < rounds
      → end_pa ≤ pa + sectsize * n
      → pa + sectsize * n < end_pa + sectsize
      → pa + sectsize * n < 2 ^ 32
      → offset + n ≤ 2 ^ 28
      → Returns
          (readseg_loop ports patience rounds pa end_pa offset t)
          (λ t'. Loaded image t.memory t'.memory pa (sectsize * n) (offset * 512))
  unfolding readseg_loop
  readseg_loop_lem n zero pa end_pa offset t more a b c d = absurd (omega arith)
  readseg_loop_lem zero (suc rounds) pa end_pa offset t more a b c d =
      rw (le→ltb pa end_pa (omega arith), Returns) (Loaded-nothing image t.memory pa (offset * 512))
  readseg_loop_lem (suc n) (suc rounds) pa end_pa offset t more a b c d =
      rw (lt→ltb pa end_pa (omega arith), Returns)
        (Returns_bind (λ t'. Loaded image t.memory t'.memory pa sectsize (offset * 512)) _
          (readsect ports patience pa offset t) _
          (λ t' h.
            let step : (pa + sectsize) % 2 ^ 32 ≡ pa + sectsize = omega arith in
            let next : (offset + 1) % 2 ^ 32 ≡ offset + 1 = omega arith in
            rw step (
              rw next (
                Returns_mono
                  (readseg_loop ports patience rounds (pa + sectsize) end_pa (offset + 1) t')
                  (λ t'' k. joined t.memory t'.memory t''.memory h k)
                  (readseg_loop_lem n rounds (pa + sectsize) end_pa (offset + 1) t' (omega arith)
                    (omega arith) (omega arith) (omega arith) (omega arith)))))
          (readsect_lem ports image limit disk patience pa offset t patient (omega arith)))
    where
      joined :
          (m m' m'' : Memory)
          → Loaded image m m' pa sectsize (offset * 512)
          → Loaded image m' m'' (pa + sectsize) (sectsize * n) ((offset + 1) * 512)
          → Loaded image m m'' pa (sectsize * suc n) (offset * 512)
      joined m m' m'' h k =
          let e : (offset + 1) * 512 ≡ offset * 512 + sectsize = omega arith in
          let e' : sectsize + sectsize * n ≡ sectsize * suc n = omega arith in
          subst (λ z. Loaded image m m'' pa z (offset * 512)) e'
            (Loaded-join sectsize (sectsize * n) h
              (subst (λ z. Loaded image m' m'' (pa + sectsize) (sectsize * n) z) e k))

  -- On a disk that answers in time, and for a segment that ends at least a sector in front of the
  -- end of the address space, and begins in its sector where its bytes begin in theirs: readseg
  -- ends. Every byte of the segment is the one of the file; in front of the piece of 512 bytes in
  -- which the segment begins, and behind the one in which it ends, the memory is unchanged.
  pub readseg_lem :
      (pa count offset : ℕ) (t : Machine S)
      → pa + count + 511 < 2 ^ 32
      → offset < 2 ^ 32
      → offset % sectsize ≡ pa % sectsize
      → Returns
          (readseg ports patience pa count offset t)
          (λ t'. IsLoaded image t.memory t'.memory pa count offset)
  unfolding readseg
  readseg_lem pa count offset t room small aligned =
      let whole : (pa + count) % 2 ^ 32 ≡ pa + count = omega arith in
      rw whole (
        Returns_mono
          (readseg_loop ports patience (count / sectsize + 3) first (pa + count)
            (offset / sectsize + 1) t)
          (λ t' h. record {
            copied = λ i lt.
                let e : first + (pa % sectsize + i) ≡ pa + i = omega arith in
                let e' : (offset / sectsize + 1) * 512 + (pa % sectsize + i)
                    ≡ sectsize + offset + i =
                  omega arith in
                sym (ap t'.memory e) ∙ h.inside (pa % sectsize + i) (omega arith) ∙ ap image e';
            kept = λ x out. h.outside x (apart x out);
          })
          (readseg_loop_lem n (count / sectsize + 3) first (pa + count) (offset / sectsize + 1) t
            (omega arith) (omega arith) (omega arith) (omega arith) (omega arith)))
    where
      first : ℕ
      first = pa - pa % sectsize

      n : ℕ
      n = (pa + count - first + 511) / sectsize

      apart :
          (x : ℕ)
          → (x < first) ⊎ (piece_end (pa + count) ≤ x)
          → (x < first) ⊎ (first + sectsize * n ≤ x)
      apart x (inl lt) = inl lt
      apart x (inr le) = inr (omega arith)
