-- ===== src/Boot.antt =====
-- boot/main.c and inc/elf.h: the boot loader, which reads the kernel from the disk and enters it.
pub mod Headers
pub mod Disk
pub mod Sector
pub mod Segment
pub mod Kernel
pub mod Load
mod Tests
use Prim.Native.Nat.{bit_and, bit_or}
use tp_prom.Prelude.{
  ℕ, zero, suc, ◌+◌, ◌-◌, ◌*◌, ◌/◌, ◌%◌, ◌^◌, Bool, true, false, not, ◌&&◌, Option, none, some,
  List, ltb, leb, ◌==◌, if◌then◌else◌, ◌>>=◌, get_or, length,
}
use tp_prom.Ports.{Ports}
use tp_prom.Boot.Headers.{Memory, Elf, Proghdr, elf_magic, read_elf, read_proghdr, proghdr_size}

abbrev pub sectsize : ℕ
sectsize = 512

-- The address of ELFHDR.
abbrev pub elfhdr : ℕ
elfhdr = 0x10000

-- The memory and the devices.
pub record Machine (S : Type 0) : Type 0 where
  pub memory : Memory
  pub devices : S

-- A store of bytes from an address on.
unfoldable pub write_bytes : Memory → ℕ → List ℕ → Memory
write_bytes m dst bytes x =
    if leb dst x && ltb x (dst + length bytes) then get_or bytes (x - dst) 0 else m x

-- `patience` is the number of times that the loop looks; without it the code does not end.
module _ {S : Type 0} (ports : Ports S) where
  unfoldable pub waitdisk : ℕ → S → Option S
  waitdisk zero s = none
  waitdisk (suc patience) s =
      let (status, s') = ports.inb 0x1F7 s in
      let rest = waitdisk patience s' in if not (bit_and status 0xC0 == 0x40) then rest else some s'

  unfoldable pub command : ℕ → S → S
  command offset s =
      let s = ports.outb 0x1F2 1 s in
      let s = ports.outb 0x1F3 (offset % 2 ^ 8) s in
      let s = ports.outb 0x1F4 (offset / 2 ^ 8 % 2 ^ 8) s in
      let s = ports.outb 0x1F5 (offset / 2 ^ 16 % 2 ^ 8) s in
      let s = ports.outb 0x1F6 (bit_or (offset / 2 ^ 24) 0xE0 % 2 ^ 8) s in ports.outb 0x1F7 0x20 s

  unfoldable pub readsect : ℕ → ℕ → ℕ → Machine S → Option (Machine S)
  readsect patience dst offset t = do
    ready ← waitdisk patience t.devices
    loaded ← waitdisk patience (command offset ready)
    let (bytes, s) = ports.insl 0x1F0 (sectsize / 4) loaded
    some (record { memory = write_bytes t.memory dst bytes; devices = s })

  -- The loop of readseg; `rounds` bounds its passes.
  unfoldable pub readseg_loop : ℕ → ℕ → ℕ → ℕ → ℕ → Machine S → Option (Machine S)
  readseg_loop patience zero pa end_pa offset t = none
  readseg_loop patience (suc rounds) pa end_pa offset t = elim (ltb pa end_pa) [
    | true ↦
        readsect patience pa offset t
        >>= readseg_loop patience rounds ((pa + sectsize) % 2 ^ 32) end_pa ((offset + 1) % 2 ^ 32)
    | false ↦ some t
  ]

  -- See Boot/Segment for why these passes are enough.
  unfoldable pub readseg : ℕ → ℕ → ℕ → ℕ → Machine S → Option (Machine S)
  readseg patience pa count offset t =
      readseg_loop patience (count / sectsize + 3) (pa - pa % sectsize) ((pa + count) % 2 ^ 32)
        (offset / sectsize + 1) t

  -- The loop over the program headers from `ph` to `eph`.
  unfoldable pub load_segments : ℕ → ℕ → ℕ → ℕ → Machine S → Option (Machine S)
  load_segments patience zero ph eph t = none
  load_segments patience (suc rounds) ph eph t = elim (ltb ph eph) [
    | true ↦
        let h = read_proghdr t.memory ph in
        readseg patience h.p_pa h.p_memsz h.p_offset t
        >>= load_segments patience rounds ((ph + proghdr_size) % 2 ^ 32) eph
    | false ↦ some t
  ]

  -- How the loader ends: at the kernel's entry, or in the endless loop behind `bad`.
  pub data Boot : Type 0 where
    entered : ℕ → Machine S → Boot
    halted : Machine S → Boot

  unfoldable pub bootmain : ℕ → Machine S → Option Boot
  bootmain patience t = do
    t ← readseg patience elfhdr (sectsize * 8) 0 t
    let elf = read_elf t.memory elfhdr
    (if not (elf.e_magic == elf_magic)
        then some (
            halted (record t {
              devices = ports.outw 0x8A00 0x8E00 (ports.outw 0x8A00 0x8A00 t.devices);
            }))
        else (do
          let ph = (elfhdr + elf.e_phoff) % 2 ^ 32
          t ←
              load_segments patience (elf.e_phnum + 1) ph
                ((ph + elf.e_phnum * proghdr_size) % 2 ^ 32) t
          some (entered elf.e_entry t)))
