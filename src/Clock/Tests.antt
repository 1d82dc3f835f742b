-- ===== src/Clock/Tests.antt =====
-- Tests of the clock, on a simulated one: the memory of QEMU with 128 MB.
use tp_prom.Prelude.{
  ℕ, [], ◌+◌, ◌/◌, ◌%◌, ◌^◌, ◌≤◌, ◌≡◌, refl, ◌==◌, if◌then◌else◌, arith, ==_refl, ne→==,
}
use tp_prom.Ports.{Ports}
use tp_prom.Clock.{i386_detect_memory}
use tp_prom.Clock.Cells.{IsClock}
use tp_prom.Clock.Detect.{IsTotal, i386_detect_memory_lem}

record Simulated : Type 0 where
  index : ℕ
  memory : ℕ → ℕ

abbrev simulated_ports : Ports Simulated
simulated_ports = record {
  inb = λ port s. (s.memory s.index % 2 ^ 8, s);
  outb = λ port v s.
      if port == 0x70
      then record s { index = v }
      else record s { memory = λ i. if i == s.index then v else s.memory i };
  outw = λ port v s. s;
  insl = λ port n s. ([], s);
}

simulated-IsClock : IsClock simulated_ports
simulated-IsClock = record {
  cells = λ s i. s.memory i % 2 ^ 8;
  selected = λ s. s.index;
  bytes = λ s r. omega arith;
  select = λ s r lo hi. (refl, λ i le. refl);
  read_cell = λ s lo. (refl, λ i le. refl);
  write_cell = λ s v lo byte.
      (rw (==_refl s.index) (omega arith), λ i le apart. rw (ne→== i s.index apart) refl);
}

-- 640 KB of base memory, and 112 MB above 16 MB.
abbrev machine : Simulated
machine = record {
  index = 0;
  memory = λ i.
      if i == 0x15
      then 0x80
      else if i == 0x16
      then 0x02
      else if i == 0x34
      then 0x00
      else if i == 0x35
      then 0x07
      else 0;
}

i386_detect_memory_lem_example :
    let d = (i386_detect_memory simulated_ports machine).0 in
    (d.basemem ≡ 640)
    × IsTotal 640 0 1792 d.totalmem
    × (d.npages ≡ d.totalmem / 4)
    × (d.npages ≤ 1052656)
    × (d.npages_basemem ≤ d.npages)
    × (d.printed_extended + 640 ≡ d.totalmem)
unfolding simulated-IsClock
i386_detect_memory_lem_example =
    i386_detect_memory_lem simulated_ports simulated-IsClock machine (omega arith)
