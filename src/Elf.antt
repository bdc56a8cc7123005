-- ===== src/Elf.antt =====
-- The ELF loader of src/loader/formats/elfloader.c, on a file that stands in memory. Header fields
-- are read at their offsets in the packed structures of elf.h, lowest byte first. Of elf_load this
-- is the part behind the file system: what is done to the bytes once they are read.
mod Examples
pub mod Segments
use slob_os.Prelude.{
  ℕ, zero, suc, ◌+◌, ◌*◌, ◌%◌, ◌^◌, Bool, true, false, not, ◌&&◌, ◌||◌, ltb, leb, ◌==◌,
  if◌then◌else◌,
}
use slob_os.Prelude.Memory.{Memory}
use slob_os.Status.{einformat, Result, ok, err}

unfoldable pub u16 : Memory → ℕ → ℕ
u16 m a = m a + 2 ^ 8 * m (a + 1)

unfoldable pub u32 : Memory → ℕ → ℕ
unfolding u16
u32 m a = u16 m a + 2 ^ 16 * u16 m (a + 2)

-- Fields of `struct elf_header` at `header`.
abbrev pub e_type : Memory → ℕ → ℕ
e_type m header = u16 m (header + 16)

abbrev pub e_entry : Memory → ℕ → ℕ
e_entry m header = u32 m (header + 24)

abbrev pub e_phoff : Memory → ℕ → ℕ
e_phoff m header = u32 m (header + 28)

abbrev pub e_phnum : Memory → ℕ → ℕ
e_phnum m header = u16 m (header + 44)

-- Fields of `struct elf32_phdr` at `phdr`.
abbrev pub p_type : Memory → ℕ → ℕ
p_type m phdr = u32 m phdr

abbrev pub p_offset : Memory → ℕ → ℕ
p_offset m phdr = u32 m (phdr + 4)

abbrev pub p_vaddr : Memory → ℕ → ℕ
p_vaddr m phdr = u32 m (phdr + 8)

abbrev pub p_filesz : Memory → ℕ → ℕ
p_filesz m phdr = u32 m (phdr + 16)

-- `struct elf_file` without its name.
pub record ElfFile : Type 0 where
  pub elf_memory : ℕ
  pub virtual_base_address : ℕ
  pub virtual_end_address : ℕ
  pub physical_base_address : ℕ
  pub physical_end_address : ℕ

-- elf_file_new clears the structure; elf_load then sets the address of the bytes.
unfoldable pub loaded_at : ℕ → ElfFile
loaded_at address = record {
  elf_memory = address;
  virtual_base_address = 0;
  virtual_end_address = 0;
  physical_base_address = 0;
  physical_end_address = 0;
}

elf_valid_signature : Memory → ℕ → Bool
elf_valid_signature m buffer =
    m buffer == 0x7f
    && (m (buffer + 1) == b'E' && (m (buffer + 2) == b'L' && m (buffer + 3) == b'F'))

-- e_ident[EI_CLASS]: ELFCLASSNONE or ELFCLASS32
elf_valid_class : Memory → ℕ → Bool
elf_valid_class m header = m (header + 4) == 0 || m (header + 4) == 1

-- e_ident[EI_DATA]: ELFDATANONE or ELFDATA2LSB
elf_valid_encoding : Memory → ℕ → Bool
elf_valid_encoding m header = m (header + 5) == 0 || m (header + 5) == 1

elf_has_program_header : Memory → ℕ → Bool
elf_has_program_header m header = not (e_phoff m header == 0)

pub elf_validate_loaded : Memory → ℕ → Result (Unit {0})
unfolding elf_valid_signature elf_valid_class elf_valid_encoding elf_has_program_header
elf_validate_loaded m header =
    if elf_valid_signature m header
      && (elf_valid_class m header
          && (elf_valid_encoding m header && elf_has_program_header m header))
    then ok tt
    else err einformat

-- &elf_pheader(header)[index], where elf_pheader is 0 in a file without program headers; a program
-- header has 32 bytes.
abbrev pub elf_program_header : Memory → ℕ → ℕ → ℕ
elf_program_header m header index =
    ((if e_phoff m header == 0 then 0 else header + e_phoff m header) + 32 * index) % 2 ^ 32

-- `p_offset` is signed; its bit pattern is added to a pointer of 32 bits.
pub elf_process_phdr_pt_load : Memory → ElfFile → ℕ → ElfFile
elf_process_phdr_pt_load m file phdr =
    let based =
      if leb (p_vaddr m phdr) file.virtual_base_address || file.virtual_base_address == 0
      then record file {
        virtual_base_address = p_vaddr m phdr;
        physical_base_address = (file.elf_memory + p_offset m phdr) % 2 ^ 32;
      }
      else file in
    let end_virtual_address = (p_vaddr m phdr + p_filesz m phdr) % 2 ^ 32 in
    if leb file.virtual_end_address end_virtual_address || file.virtual_end_address == 0
    then record based {
      virtual_end_address = end_virtual_address;
      physical_end_address = (file.elf_memory + p_offset m phdr + p_filesz m phdr) % 2 ^ 32;
    }
    else based

-- PT_LOAD is the only type that is handled.
pub elf_process_pheader : Memory → ElfFile → ℕ → ElfFile
unfolding elf_process_phdr_pt_load
elf_process_pheader m file phdr =
    if p_type m phdr == 1 then elf_process_phdr_pt_load m file phdr else file

-- The loop with `rounds` headers left from number `i`; no header gives an error.
pheaders_loop : Memory → (rounds i : ℕ) → ElfFile → ElfFile
pheaders_loop m zero i file = file
pheaders_loop m (suc rounds) i file =
    pheaders_loop m rounds (i + 1)
      (elf_process_pheader m file (elf_program_header m file.elf_memory i))

pub elf_process_pheaders : Memory → ElfFile → ElfFile
unfolding pheaders_loop
elf_process_pheaders m file = pheaders_loop m (e_phnum m file.elf_memory) 0 file

pub elf_process_loaded : Memory → ElfFile → Result ElfFile
unfolding elf_validate_loaded elf_process_pheaders elf_process_pheader
elf_process_loaded m file = elim (elf_validate_loaded m file.elf_memory) [
  | err e ↦ err e
  | ok u ↦ ok (elf_process_pheaders m file)
]
