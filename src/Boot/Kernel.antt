-- ===== src/Boot/Kernel.antt =====
-- A kernel's file that boot/main.c can load, and its headers in the memory of the loader.
use tp_prom.Prelude.{ℕ, ◌+◌, ◌-◌, ◌*◌, ◌%◌, ◌^◌, ◌≤◌, ◌<◌, ◌≡◌, ◌⊎◌, refl, ap, ◌∙◌, arith}
use tp_prom.Boot.Headers.{
  Memory, Elf, Proghdr, elf_magic, read_half, read_word, read_elf, read_proghdr, proghdr_size,
}
use tp_prom.Boot.{sectsize, elfhdr}

-- The bytes of the file, which begins at sector 1, and its headers.
abbrev pub file : (ℕ → ℕ) → ℕ → ℕ
file image i = image (sectsize + i)

abbrev pub file_elf : (ℕ → ℕ) → Elf
file_elf image = read_elf (file image) 0

abbrev pub segment : (ℕ → ℕ) → ℕ → Proghdr
segment image j = read_proghdr (file image) ((file_elf image).e_phoff + j * proghdr_size)

-- All program headers are in the first page; every segment begins in its sector where its bytes
-- begin in theirs, is apart from the page at ELFHDR, and begins in a sector behind the segments
-- before it.
pub record IsKernel (image : ℕ → ℕ) : Type 0 where
  pub bytes : (i : ℕ) → image i < 2 ^ 8
  pub magic : (file_elf image).e_magic ≡ elf_magic
  pub headers : (file_elf image).e_phoff + (file_elf image).e_phnum * proghdr_size ≤ 4096
  pub room :
      (j : ℕ)
      → j < (file_elf image).e_phnum
      → (segment image j).p_pa + (segment image j).p_memsz + 511 < 2 ^ 32
  pub aligned :
      (j : ℕ)
      → j < (file_elf image).e_phnum
      → (segment image j).p_offset % sectsize ≡ (segment image j).p_pa % sectsize
  pub apart :
      (j : ℕ)
      → j < (file_elf image).e_phnum
      → ((segment image j).p_pa + (segment image j).p_memsz + 511 ≤ elfhdr)
        ⊎ (elfhdr + 4096 ≤ (segment image j).p_pa - (segment image j).p_pa % sectsize)
  pub increasing :
      (i j : ℕ)
      → i < j
      → j < (file_elf image).e_phnum
      → (segment image i).p_pa + (segment image i).p_memsz
        ≤ (segment image j).p_pa - (segment image j).p_pa % sectsize

-- The first page of the file, in the memory at ELFHDR.
abbrev pub HasHeaders : (ℕ → ℕ) → Memory → Type 0
HasHeaders image m = (i : ℕ) → i < 4096 → m (elfhdr + i) ≡ file image i

module _ (image : ℕ → ℕ) (m : Memory) (h : HasHeaders image m) where
  byte : (a k : ℕ) → a + k < 4096 → m (elfhdr + a + k) ≡ file image (a + k)
  byte a k lt = let e : elfhdr + a + k ≡ elfhdr + (a + k) = omega arith in ap m e ∙ h (a + k) lt

  word : (a : ℕ) → a + 4 ≤ 4096 → read_word m (elfhdr + a) ≡ read_word (file image) a
  word a lt =
      rw (h a (omega arith)) (
        rw (byte a 1 (omega arith))
          (rw (byte a 2 (omega arith)) (rw (byte a 3 (omega arith)) refl)))

  half : (a : ℕ) → a + 2 ≤ 4096 → read_half m (elfhdr + a) ≡ read_half (file image) a
  half a lt = rw (h a (omega arith)) (rw (byte a 1 (omega arith)) refl)

  field :
      (a k : ℕ) → a + k + 4 ≤ 4096 → read_word m (elfhdr + a + k) ≡ read_word (file image) (a + k)
  field a k lt =
      let e : elfhdr + a + k ≡ elfhdr + (a + k) = omega arith in
      ap (read_word m) e ∙ word (a + k) lt

  pub read_proghdr-HasHeaders :
      (a : ℕ) → a + 32 ≤ 4096 → read_proghdr m (elfhdr + a) ≡ read_proghdr (file image) a
  unfolding read_proghdr
  read_proghdr-HasHeaders a lt = λ i. record {
    p_type = word a (omega arith) i;
    p_offset = field a 4 (omega arith) i;
    p_va = field a 8 (omega arith) i;
    p_pa = field a 12 (omega arith) i;
    p_filesz = field a 16 (omega arith) i;
    p_memsz = field a 20 (omega arith) i;
    p_flags = field a 24 (omega arith) i;
    p_align = field a 28 (omega arith) i;
  }

  pub e_magic-HasHeaders : (read_elf m elfhdr).e_magic ≡ (file_elf image).e_magic
  unfolding read_elf
  e_magic-HasHeaders = word 0 (omega arith)

  pub e_entry-HasHeaders : (read_elf m elfhdr).e_entry ≡ (file_elf image).e_entry
  unfolding read_elf
  e_entry-HasHeaders = word 24 (omega arith)

  pub e_phoff-HasHeaders : (read_elf m elfhdr).e_phoff ≡ (file_elf image).e_phoff
  unfolding read_elf
  e_phoff-HasHeaders = word 28 (omega arith)

  pub e_phnum-HasHeaders : (read_elf m elfhdr).e_phnum ≡ (file_elf image).e_phnum
  unfolding read_elf
  e_phnum-HasHeaders = half 44 (omega arith)

word-bound : (m : Memory) → ((i : ℕ) → m i < 2 ^ 8) → (a : ℕ) → read_word m a < 2 ^ 32
word-bound m small a = omega (arith, small a, small (a + 1), small (a + 2), small (a + 3))

pub p_offset-bound : (image : ℕ → ℕ) (j : ℕ) → IsKernel image → (segment image j).p_offset < 2 ^ 32
unfolding read_proghdr
p_offset-bound image j kernel = word-bound (file image) (λ i. kernel.bytes (sectsize + i)) _
