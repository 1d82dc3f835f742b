-- ===== src/Boot/Disk.antt =====
-- What boot/main.c relies on of the disk: an ATA drive on the primary channel, read by programmed
-- input.
use Prim.Native.Nat.{bit_and}
use tp_prom.Prelude.{ℕ, zero, suc, ◌+◌, ◌*◌, ◌%◌, ◌^◌, ◌<◌, ◌≡◌, ◌≢◌, ◌⊎◌, List, [], ◌∷◌, take}
use tp_prom.Ports.{Ports}

-- The registers of a command, and the bytes that wait to be read.
pub record Drive : Type 0 where
  pub sector_count : ℕ
  pub lba_low : ℕ
  pub lba_mid : ℕ
  pub lba_high : ℕ
  pub drive_head : ℕ
  pub pending : List ℕ

-- The sector that the registers name, in 28 bits.
abbrev pub lba : Drive → ℕ
lba d = d.lba_low + d.lba_mid * 2 ^ 8 + d.lba_high * 2 ^ 16 + d.drive_head % 2 ^ 4 * 2 ^ 24

-- `n` bytes of an image from a position on.
unfoldable pub image_bytes : (ℕ → ℕ) → ℕ → ℕ → List ℕ
image_bytes image zero position = []
image_bytes image (suc n) position = image position ∷ image_bytes image n (position + 1)

-- `drive s` is the drive in the state `s` of the devices, and `busy s` a bound on the looks at the
-- status that find it busy.
pub record IsDisk {S : Type 0} (ports : Ports S) (image : ℕ → ℕ) (limit : ℕ) : Type 0 where
  pub drive : S → Drive
  pub busy : S → ℕ
  pub answers : (s : S) → busy s < limit
  -- A look at the status changes no register: it says that the drive is ready (bit 6, and not bit
  -- 7, busy), or the drive comes nearer to that.
  pub status :
      (s : S)
      → (drive (ports.inb 0x1F7 s).1 ≡ drive s)
        × (((bit_and (ports.inb 0x1F7 s).0 0xC0 ≡ 0x40) × (busy (ports.inb 0x1F7 s).1 ≡ 0))
            ⊎ ((bit_and (ports.inb 0x1F7 s).0 0xC0 ≢ 0x40) × (busy (ports.inb 0x1F7 s).1 < busy s)))
  -- A register of a drive that is ready is written with a byte, and the drive stays ready.
  pub write_count :
      (s : S) (v : ℕ)
      → busy s ≡ 0
      → v < 2 ^ 8
      → (busy (ports.outb 0x1F2 v s) ≡ 0)
        × (drive (ports.outb 0x1F2 v s) ≡ record (drive s) { sector_count = v })
  pub write_low :
      (s : S) (v : ℕ)
      → busy s ≡ 0
      → v < 2 ^ 8
      → (busy (ports.outb 0x1F3 v s) ≡ 0)
        × (drive (ports.outb 0x1F3 v s) ≡ record (drive s) { lba_low = v })
  pub write_mid :
      (s : S) (v : ℕ)
      → busy s ≡ 0
      → v < 2 ^ 8
      → (busy (ports.outb 0x1F4 v s) ≡ 0)
        × (drive (ports.outb 0x1F4 v s) ≡ record (drive s) { lba_mid = v })
  pub write_high :
      (s : S) (v : ℕ)
      → busy s ≡ 0
      → v < 2 ^ 8
      → (busy (ports.outb 0x1F5 v s) ≡ 0)
        × (drive (ports.outb 0x1F5 v s) ≡ record (drive s) { lba_high = v })
  pub write_head :
      (s : S) (v : ℕ)
      → busy s ≡ 0
      → v < 2 ^ 8
      → (busy (ports.outb 0x1F6 v s) ≡ 0)
        × (drive (ports.outb 0x1F6 v s) ≡ record (drive s) { drive_head = v })
  -- The command "read sectors", to a ready drive whose registers choose the addressing by sectors
  -- (bit 6).
  pub read_sectors :
      (s : S)
      → busy s ≡ 0
      → bit_and (drive s).drive_head 0x40 ≡ 0x40
      → drive (ports.outb 0x1F7 0x20 s) ≡ record (drive s) {
        pending = image_bytes image ((drive s).sector_count * 512) (lba (drive s) * 512);
      }
  -- A ready drive hands out the first bytes that wait.
  pub hand_out :
      (s : S) (n : ℕ) → busy s ≡ 0 → (ports.insl 0x1F0 n s).0 ≡ take (4 * n) (drive s).pending
