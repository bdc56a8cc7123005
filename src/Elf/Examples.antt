-- ===== src/Elf/Examples.antt =====
-- The theorem on program headers at a file with one loadable segment.
use slob_os.Prelude.{ℕ, zero, suc, ◌<◌, ◌≡◌, arith, if◌then◌else◌, ◌==◌}
use slob_os.Prelude.Memory.{Memory}
use slob_os.Elf.{u16, u32, e_phnum, p_type, elf_program_header, elf_process_pheaders, loaded_at}
use slob_os.Elf.Segments.{IsSegment, Spans, elf_process_pheaders-Spans}

-- The file at address 0: its header at 52 is of type PT_LOAD, with address 0x400000 and 0x100 bytes.
abbrev memory : Memory
memory a =
    if a == 28
    then 52
    else if a == 44
    then 1
    else if a == 52
    then 1
    else if a == 57
    then 0x10
    else if a == 62
    then 0x40
    else if a == 69
    then 1
    else 0

segments :
    (i : ℕ)
    → i < e_phnum memory 0
    → p_type memory (elf_program_header memory 0 i) ≡ 1
    → IsSegment memory (elf_program_header memory 0 i)
unfolding u32 u16
segments zero lt load = record { nonzero = omega arith; bounded = omega arith }
segments (suc i) lt load = absurd (omega arith)

elf_process_pheaders-Spans_example :
    Spans memory 0 (e_phnum memory 0) (elf_process_pheaders memory (loaded_at 0))
elf_process_pheaders-Spans_example = elf_process_pheaders-Spans memory 0 segments
