-- ===== src/Boot/Headers.antt =====
-- inc/elf.h: the headers of a kernel image, as the loader reads them from memory.
use tp_prom.Prelude.{ℕ, ◌+◌, ◌*◌, ◌^◌}

-- The byte at each physical address.
abbrev pub Memory : Type 0
Memory = ℕ → ℕ

-- Little-endian numbers of two and of four bytes.
abbrev pub read_half : Memory → ℕ → ℕ
read_half m a = m a + m (a + 1) * 2 ^ 8

abbrev pub read_word : Memory → ℕ → ℕ
read_word m a = m a + m (a + 1) * 2 ^ 8 + m (a + 2) * 2 ^ 16 + m (a + 3) * 2 ^ 24

abbrev pub elf_magic : ℕ
elf_magic = 0x464C_457F

-- `struct Elf`; e_elf is the byte at each index below 12.
pub record Elf : Type 0 where
  pub e_magic : ℕ
  pub e_elf : ℕ → ℕ
  pub e_type : ℕ
  pub e_machine : ℕ
  pub e_version : ℕ
  pub e_entry : ℕ
  pub e_phoff : ℕ
  pub e_shoff : ℕ
  pub e_flags : ℕ
  pub e_ehsize : ℕ
  pub e_phentsize : ℕ
  pub e_phnum : ℕ
  pub e_shentsize : ℕ
  pub e_shnum : ℕ
  pub e_shstrndx : ℕ

unfoldable pub read_elf : Memory → ℕ → Elf
read_elf m a = record {
  e_magic = read_word m a;
  e_elf = λ i. m (a + 4 + i);
  e_type = read_half m (a + 16);
  e_machine = read_half m (a + 18);
  e_version = read_word m (a + 20);
  e_entry = read_word m (a + 24);
  e_phoff = read_word m (a + 28);
  e_shoff = read_word m (a + 32);
  e_flags = read_word m (a + 36);
  e_ehsize = read_half m (a + 40);
  e_phentsize = read_half m (a + 42);
  e_phnum = read_half m (a + 44);
  e_shentsize = read_half m (a + 46);
  e_shnum = read_half m (a + 48);
  e_shstrndx = read_half m (a + 50);
}

pub record Proghdr : Type 0 where
  pub p_type : ℕ
  pub p_offset : ℕ
  pub p_va : ℕ
  pub p_pa : ℕ
  pub p_filesz : ℕ
  pub p_memsz : ℕ
  pub p_flags : ℕ
  pub p_align : ℕ

-- `sizeof(struct Proghdr)`
abbrev pub proghdr_size : ℕ
proghdr_size = 32

unfoldable pub read_proghdr : Memory → ℕ → Proghdr
read_proghdr m a = record {
  p_type = read_word m a;
  p_offset = read_word m (a + 4);
  p_va = read_word m (a + 8);
  p_pa = read_word m (a + 12);
  p_filesz = read_word m (a + 16);
  p_memsz = read_word m (a + 20);
  p_flags = read_word m (a + 24);
  p_align = read_word m (a + 28);
}
