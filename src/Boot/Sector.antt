-- ===== src/Boot/Sector.antt =====
-- `waitdisk` and `readsect` on a disk.
use Prim.Native.Nat.{bit_and, bit_or}
use tp_prom.Prelude.{
  ℕ, zero, suc, ◌+◌, ◌*◌, ◌/◌, ◌%◌, ◌^◌, ◌≤◌, ◌<◌, ◌≡◌, ◌⊎◌, refl, sym, ap, ◌∙◌, subst, Bool, ◌&&◌,
  ◌∷◌, inl, inr, ◌==◌, ne→==, get_or, length, take, arith, Returns, Returns_bind, Returns_mono,
}
use tp_prom.Prelude.Ranges.{holds_below, holds_below_lem}
use tp_prom.Ports.{Ports}
use tp_prom.Boot.Headers.{Memory}
use tp_prom.Boot.{Machine, sectsize, write_bytes, waitdisk, command, readsect}
use tp_prom.Boot.Disk.{Drive, lba, image_bytes, IsDisk}

-- `n` bytes from `dst` on are the image's from `src` on, and the others are unchanged.
pub record Loaded (image : ℕ → ℕ) (m m' : Memory) (dst n src : ℕ) : Type 0 where
  pub inside : (i : ℕ) → i < n → m' (dst + i) ≡ image (src + i)
  pub outside : (x : ℕ) → (x < dst) ⊎ (dst + n ≤ x) → m' x ≡ m x

length-image_bytes : (image : ℕ → ℕ) (n position : ℕ) → length (image_bytes image n position) ≡ n
unfolding image_bytes
length-image_bytes image zero position = refl
length-image_bytes image (suc n) position = ap suc (length-image_bytes image n (position + 1))

get_or-image_bytes :
    (image : ℕ → ℕ) (n position i : ℕ)
    → i < n
    → get_or (image_bytes image n position) i 0 ≡ image (position + i)
unfolding image_bytes
get_or-image_bytes image zero position i lt = absurd (omega arith)
get_or-image_bytes image (suc n) position zero lt = ap image (omega arith)
get_or-image_bytes image (suc n) position (suc i) lt =
    get_or-image_bytes image n (position + 1) i (omega arith) ∙ ap image (omega arith)

take_all :
    (image : ℕ → ℕ) (n position : ℕ)
    → take n (image_bytes image n position) ≡ image_bytes image n position
unfolding image_bytes
take_all image zero position = refl
take_all image (suc n) position = ap (λ s. image position ∷ s) (take_all image n (position + 1))

write_bytes-Loaded :
    (image : ℕ → ℕ) (m : Memory) (dst n src : ℕ)
    → Loaded image m (write_bytes m dst (image_bytes image n src)) dst n src
unfolding write_bytes
write_bytes-Loaded image m dst n src = record {
  inside = λ i lt.
      rw (length-image_bytes image n src) (ground (arith, get_or-image_bytes image n src i lt));
  outside = λ x out. rw (length-image_bytes image n src) (ground (arith, out));
}

-- The byte that selects the drive, with the highest bits of the sector.
head_test : ℕ → Bool
head_test x = (bit_or x 0xE0 % 2 ^ 8 % 2 ^ 4 == x) && (bit_and (bit_or x 0xE0 % 2 ^ 8) 0x40 == 0x40)

head :
    (x : ℕ)
    → x < 16
    → (bit_or x 0xE0 % 2 ^ 8 % 2 ^ 4 ≡ x) × (bit_and (bit_or x 0xE0 % 2 ^ 8) 0x40 ≡ 0x40)
unfolding holds_below head_test
head x lt =
    let h = holds_below_lem {bound = 16} head_test lt refl in (ground (arith, h), ground (arith, h))

-- The four bytes of a sector's number.
place :
    (offset v : ℕ)
    → v % 2 ^ 4 ≡ offset / 2 ^ 24
    → offset < 2 ^ 28
    → offset % 2 ^ 8
        + offset / 2 ^ 8 % 2 ^ 8 * 2 ^ 8
        + offset / 2 ^ 16 % 2 ^ 8 * 2 ^ 16
        + v % 2 ^ 4 * 2 ^ 24
      ≡ offset
place offset v e lt = rw e (omega arith)

module _ {S : Type 0} (ports : Ports S) (image : ℕ → ℕ) (limit : ℕ)
    (disk : IsDisk ports image limit) where
  Ready : S → S → Type 0
  Ready s s' = (disk.busy s' ≡ 0) × (disk.drive s' ≡ disk.drive s)

  -- With more patience than the drive is busy, the loop ends.
  waitdisk_lem :
      (patience : ℕ) (s : S)
      → disk.busy s < patience
      → Returns
          (waitdisk ports patience s)
          (λ s'. (disk.busy s' ≡ 0) × (disk.drive s' ≡ disk.drive s))
  unfolding waitdisk
  waitdisk_lem zero s lt = absurd (omega arith)
  waitdisk_lem (suc patience) s lt =
      let h = disk.status s in
      elim h.1 [
        | inl ready ↦ rw ready.0 (ready.1, h.0)
        | inr waits ↦ simp (ne→== _ _ waits.0) (
            Returns_mono (waitdisk ports patience (ports.inb 0x1F7 s).1) (λ s' k. (k.0, k.1 ∙ h.0))
              (waitdisk_lem patience (ports.inb 0x1F7 s).1 (omega (arith, waits.1))))
      ]

  command_lem :
      (offset : ℕ) (s : S)
      → offset < 2 ^ 28
      → disk.busy s ≡ 0
      → (disk.drive (command ports offset s)).pending ≡ image_bytes image 512 (offset * 512)
  unfolding command
  command_lem offset s small ready =
      let a = disk.write_count s 1 ready (omega arith) in
      let b = disk.write_low _ (offset % 2 ^ 8) a.0 (omega arith) in
      let c = disk.write_mid _ (offset / 2 ^ 8 % 2 ^ 8) b.0 (omega arith) in
      let d = disk.write_high _ (offset / 2 ^ 16 % 2 ^ 8) c.0 (omega arith) in
      let e = disk.write_head _ (bit_or (offset / 2 ^ 24) 0xE0 % 2 ^ 8) d.0 (omega arith) in
      let g = head (offset / 2 ^ 24) (omega arith) in
      let v = bit_or (offset / 2 ^ 24) 0xE0 % 2 ^ 8 in
      let all =
        e.1
        ∙ ap (λ (z : Drive). record z { drive_head = v })
            (d.1
              ∙ ap (λ (z : Drive). record z { lba_high = offset / 2 ^ 16 % 2 ^ 8 })
                  (c.1
                    ∙ ap (λ (z : Drive). record z { lba_mid = offset / 2 ^ 8 % 2 ^ 8 })
                        (b.1 ∙ ap (λ (z : Drive). record z { lba_low = offset % 2 ^ 8 }) a.1))) in
      let r = disk.read_sectors _ e.0 (ap (λ (z : Drive). bit_and z.drive_head 0x40) all ∙ g.1) in
      ap (λ z. z.pending) r
      ∙ ap (λ (z : Drive). image_bytes image (z.sector_count * 512) (lba z * 512)) all
      ∙ ap (λ z. image_bytes image 512 (z * 512)) (place offset v g.0 small)

  -- A sector below 2 ^ 28 is copied to `dst` whole, and nothing else changes in the memory.
  pub readsect_lem :
      (patience dst offset : ℕ) (t : Machine S)
      → limit ≤ patience
      → offset < 2 ^ 28
      → Returns
          (readsect ports patience dst offset t)
          (λ t'. Loaded image t.memory t'.memory dst sectsize (offset * 512))
  unfolding readsect
  readsect_lem patience dst offset t patient small =
      Returns_bind (λ s. (disk.busy s ≡ 0) × (disk.drive s ≡ disk.drive t.devices)) Sector
        (waitdisk ports patience t.devices) _
        (λ s h.
          let issued = command ports offset s in
          Returns_bind (λ s'. (disk.busy s' ≡ 0) × (disk.drive s' ≡ disk.drive issued)) Sector
            (waitdisk ports patience issued) _
            (λ s' h'.
              let bytes = ap (λ z. z.pending) h'.1 ∙ command_lem offset s small h.0 in
              let all : (ports.insl 0x1F0 128 s').0 ≡ image_bytes image 512 (offset * 512) =
                disk.hand_out s' 128 h'.0
                ∙ ap (take 512) bytes
                ∙ take_all image 512 (offset * 512) in
              subst
                (λ b.
                  Loaded image t.memory (write_bytes t.memory dst b) dst sectsize (offset * 512))
                (sym all) (write_bytes-Loaded image t.memory dst 512 (offset * 512)))
            (waitdisk_lem patience issued (let p = disk.answers issued in omega arith)))
        (waitdisk_lem patience t.devices (let p = disk.answers t.devices in omega arith))
    where
      Sector : Machine S → Type 0
      Sector t' = Loaded image t.memory t'.memory dst sectsize (offset * 512)
