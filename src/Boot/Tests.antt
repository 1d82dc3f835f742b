-- ===== src/Boot/Tests.antt =====
-- Tests of the boot loader, on a simulated drive.
use Prim.Native.Nat.{bit_and}
use tp_prom.Prelude.{
  ℕ, zero, suc, ◌+◌, ◌-◌, ◌*◌, ◌%◌, ◌^◌, ◌≤◌, ◌<◌, ◌≡◌, ◌≢◌, ◌⊎◌, refl, Bool, true, false, List, [],
  ◌∷◌, ◌++◌, inl, inr, leb, ◌==◌, if◌then◌else◌, get_or, take, replicate, arith, Returns,
}
use tp_prom.Ports.{Ports}
use tp_prom.Boot.Headers.{read_elf, read_proghdr}
use tp_prom.Boot.{Machine, sectsize, elfhdr, readseg, entered, halted, bootmain}
use tp_prom.Boot.Disk.{Drive, lba, image_bytes, IsDisk}
use tp_prom.Boot.Segment.{IsLoaded, readseg_lem}
use tp_prom.Boot.Kernel.{file_elf, segment, IsKernel}
use tp_prom.Boot.Load.{HasSegments, bootmain_loads, bootmain_refuses}

record Simulated : Type 0 where
  registers : Drive
  is_busy : Bool

module _ (image : ℕ → ℕ) where
  -- One look at the status finds the drive busy after a command.
  abbrev status : Simulated → ℕ × Simulated
  status s = if s.is_busy then (0xD0, record s { is_busy = false }) else (0x50, s)

  abbrev write : ℕ → ℕ → Simulated → Simulated
  write port v s =
      if port == 0x1F2
      then record s { registers = record s.registers { sector_count = v } }
      else if port == 0x1F3
      then record s { registers = record s.registers { lba_low = v } }
      else if port == 0x1F4
      then record s { registers = record s.registers { lba_mid = v } }
      else if port == 0x1F5
      then record s { registers = record s.registers { lba_high = v } }
      else if port == 0x1F6
      then record s { registers = record s.registers { drive_head = v } }
      else record s {
        registers = record s.registers {
          pending = image_bytes image (s.registers.sector_count * 512) (lba s.registers * 512);
        };
        is_busy = true;
      }

  abbrev simulated_ports : Ports Simulated
  simulated_ports = record {
    inb = λ port s. status s;
    outb = write;
    outw = λ port v s. s;
    insl = λ port n s. (take (4 * n) s.registers.pending, s);
  }

  abbrev waits : Bool → ℕ
  waits busy = if busy then 1 else 0

  ready : (b : Bool) → waits b ≡ 0 → b ≡ false
  ready b e = ground (arith, e)

  simulated-IsDisk : IsDisk simulated_ports image 2
  simulated-IsDisk = record {
    drive = λ s. s.registers;
    busy = λ s. waits s.is_busy;
    answers = λ s. ground arith;
    status = λ s. look s.registers s.is_busy;
    write_count = λ s v e lt. (e, refl);
    write_low = λ s v e lt. (e, refl);
    write_mid = λ s v e lt. (e, refl);
    write_high = λ s v e lt. (e, refl);
    write_head = λ s v e lt. (e, refl);
    read_sectors = λ s e chosen. refl;
    hand_out = λ s n e. refl;
  }
    where
      look :
          (d : Drive) (b : Bool)
          → let s : Simulated = record { registers = d; is_busy = b } in
            ((status s).1.registers ≡ d)
            × (((bit_and (status s).0 0xC0 ≡ 0x40) × (waits (status s).1.is_busy ≡ 0))
                ⊎ ((bit_and (status s).0 0xC0 ≢ 0x40) × (waits (status s).1.is_busy < waits b)))
      look d true = (refl, inr (λ e. absurd (omega (arith, e)), omega arith))
      look d false = (refl, inl (refl, refl))

-- An image of two segments, both from its headers.
abbrev header_bytes : List ℕ
header_bytes =
    0x7F ∷ 0x45 ∷ 0x4C ∷ 0x46 ∷ replicate 20 0
    ++ (0x0C ∷ 0 ∷ 0x10 ∷ 0 ∷ 52 ∷ 0 ∷ 0 ∷ 0 ∷ replicate 12 0)
    ++ (2 ∷ 0 ∷ replicate 6 0)
    ++ (1 ∷ 0 ∷ 0 ∷ 0 ∷ replicate 4 0)
    ++ replicate 4 0
    ++ (0 ∷ 0 ∷ 0x10 ∷ 0 ∷ replicate 4 0)
    ++ (84 ∷ 0 ∷ 0 ∷ 0 ∷ replicate 8 0)
    ++ (1 ∷ 0 ∷ 0 ∷ 0 ∷ replicate 4 0)
    ++ replicate 4 0
    ++ (0 ∷ 0x10 ∷ 0x10 ∷ 0 ∷ replicate 4 0)
    ++ (20 ∷ 0 ∷ 0 ∷ 0 ∷ replicate 8 0)

abbrev image : ℕ → ℕ
image x = (if leb 512 x then get_or header_bytes (x - 512) 0 else 0) % 2 ^ 8

abbrev blank : ℕ → ℕ
blank x = 0

both : (P : ℕ → Type 0) → P 0 → P 1 → (j : ℕ) → j < 2 → P j
both P p q zero lt = p
both P p q (suc zero) lt = q
both P p q (suc (suc j)) lt = absurd (omega arith)

abbrev HasRoom : ℕ → Type 0
HasRoom j = (segment image j).p_pa + (segment image j).p_memsz + 511 < 2 ^ 32

abbrev IsAligned : ℕ → Type 0
IsAligned j = (segment image j).p_offset % sectsize ≡ (segment image j).p_pa % sectsize

abbrev IsApart : ℕ → Type 0
IsApart j =
    ((segment image j).p_pa + (segment image j).p_memsz + 511 ≤ elfhdr)
    ⊎ (elfhdr + 4096 ≤ (segment image j).p_pa - (segment image j).p_pa % sectsize)

image-IsKernel : IsKernel image
unfolding read_elf read_proghdr
image-IsKernel = record {
  bytes = λ i. omega arith;
  magic = refl;
  headers = omega arith;
  room = both HasRoom (omega arith) (omega arith);
  aligned = both IsAligned refl refl;
  apart = both IsApart (inr (omega arith)) (inr (omega arith));
  increasing = in_order;
}
  where
    in_order :
        (i j : ℕ)
        → i < j
        → j < 2
        → (segment image i).p_pa + (segment image i).p_memsz
          ≤ (segment image j).p_pa - (segment image j).p_pa % sectsize
    in_order zero (suc zero) lt below = omega arith
    in_order zero zero lt below = absurd (omega arith)
    in_order zero (suc (suc j)) lt below = absurd (omega arith)
    in_order (suc i) zero lt below = absurd (omega arith)
    in_order (suc i) (suc j) lt below = absurd (omega arith)

abbrev machine : Machine Simulated
machine = record {
  memory = λ x. 0;
  devices = record {
    registers = record {
      sector_count = 0;
      lba_low = 0;
      lba_mid = 0;
      lba_high = 0;
      drive_head = 0;
      pending = [];
    };
    is_busy = true;
  };
}

readseg_lem_example :
    Returns
      (readseg (simulated_ports image) 2 0x100000 1000 512 machine)
      (λ t'. IsLoaded image machine.memory t'.memory 0x100000 1000 512)
readseg_lem_example =
    readseg_lem (simulated_ports image) image 2 (simulated-IsDisk image) 2 (omega arith) 0x100000
      1000 512 machine (omega arith) (omega arith) refl

bootmain_refuses_example : Returns (bootmain (simulated_ports blank) 2 machine) (λ b.
    (t' : Machine Simulated) × (b ≡ halted t')
    × ((x : ℕ) → (x < elfhdr) ⊎ (elfhdr + 4096 ≤ x) → t'.memory x ≡ 0))
unfolding read_elf
bootmain_refuses_example =
    bootmain_refuses (simulated_ports blank) blank 2 (simulated-IsDisk blank) 2 (omega arith)
      machine (λ e. absurd (omega (arith, e)))

bootmain_loads_example : Returns (bootmain (simulated_ports image) 2 machine) (λ b.
    (t' : Machine Simulated) × (b ≡ entered (file_elf image).e_entry t')
    × HasSegments image (file_elf image).e_phnum t'.memory)
bootmain_loads_example =
    bootmain_loads (simulated_ports image) image 2 (simulated-IsDisk image) 2 (omega arith) machine
      image-IsKernel
