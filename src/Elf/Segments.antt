-- ===== src/Elf/Segments.antt =====
-- The addresses that the loader finds: the lowest and the highest of the loadable segments.
use slob_os.Prelude.{
  ℕ, zero, suc, ◌+◌, ◌%◌, ◌^◌, ◌≤◌, ◌<◌, ◌≡◌, ◌⊎◌, inl, inr, refl, sym, ap, ◌∙◌, ◌||◌, leb, ◌==◌,
  arith, Bool-cases, eq_cases, eq_of_test, ne_of_test,
}
use slob_os.Prelude.Memory.{Memory}
use mathlib.Core.Path.{subst}
use slob_os.Elf.{
  ElfFile, loaded_at, e_phnum, p_type, p_offset, p_vaddr, p_filesz, elf_program_header,
  elf_process_phdr_pt_load, elf_process_pheader, pheaders_loop, elf_process_pheaders,
}

-- A segment that is loaded: it does not start at address 0, nor reach past the address space.
pub record IsSegment (m : Memory) (phdr : ℕ) : Type 0 where
  pub nonzero : 0 < p_vaddr m phdr
  pub bounded : p_vaddr m phdr + p_filesz m phdr < 2 ^ 32

-- The segment lies between the base and the end of the file.
pub record InSpan (m : Memory) (file : ElfFile) (phdr : ℕ) : Type 0 where
  pub started : 0 < file.virtual_base_address
  pub above : file.virtual_base_address ≤ p_vaddr m phdr
  pub below : p_vaddr m phdr + p_filesz m phdr ≤ file.virtual_end_address

-- The base of the file is the start of the segment, and its physical base is where the segment is.
pub record StartsAt (m : Memory) (header : ℕ) (file : ElfFile) (phdr : ℕ) : Type 0 where
  pub loadable : p_type m phdr ≡ 1
  pub virtual : file.virtual_base_address ≡ p_vaddr m phdr
  pub physical : file.physical_base_address ≡ (header + p_offset m phdr) % 2 ^ 32

-- The end of the file is the end of the segment, and its physical end is that of the segment's bytes.
pub record EndsAt (m : Memory) (header : ℕ) (file : ElfFile) (phdr : ℕ) : Type 0 where
  pub loadable : p_type m phdr ≡ 1
  pub virtual : file.virtual_end_address ≡ p_vaddr m phdr + p_filesz m phdr
  pub physical : file.physical_end_address ≡ (header + p_offset m phdr + p_filesz m phdr) % 2 ^ 32

-- What is known of the file once the first `n` headers are processed.
pub record Spans (m : Memory) (header n : ℕ) (file : ElfFile) : Type 0 where
  pub memory : file.elf_memory ≡ header
  pub covers :
      (i : ℕ)
      → i < n
      → p_type m (elf_program_header m header i) ≡ 1
      → InSpan m file (elf_program_header m header i)
  pub base :
      (file.virtual_base_address ≡ 0)
      ⊎ ((i : ℕ) × ((i < n) × StartsAt m header file (elf_program_header m header i)))
  pub end :
      (file.virtual_end_address ≡ 0)
      ⊎ ((i : ℕ) × ((i < n) × EndsAt m header file (elf_program_header m header i)))

InSpan-mono :
    (m : Memory) (file g : ElfFile) (phdr : ℕ)
    → InSpan m file phdr
    → 0 < g.virtual_base_address
    → g.virtual_base_address ≤ file.virtual_base_address
    → file.virtual_end_address ≤ g.virtual_end_address
    → InSpan m g phdr
InSpan-mono m file g phdr span started lower upper =
    let above = span.above in
    let below = span.below in record { started = started; above = omega arith; below = omega arith }

-- One loadable segment.
pt_load_lem :
    (m : Memory) (file : ElfFile) (phdr : ℕ)
    → IsSegment m phdr
    → let g = elf_process_phdr_pt_load m file phdr in
      (g.elf_memory ≡ file.elf_memory)
      × (0 < g.virtual_base_address)
      × (g.virtual_base_address ≤ p_vaddr m phdr)
      × (p_vaddr m phdr + p_filesz m phdr ≤ g.virtual_end_address)
      × (file.virtual_end_address ≤ g.virtual_end_address)
      × (((g.virtual_base_address ≡ p_vaddr m phdr)
            × (g.physical_base_address ≡ (file.elf_memory + p_offset m phdr) % 2 ^ 32)
            × ((file.virtual_base_address ≡ 0) ⊎ (p_vaddr m phdr ≤ file.virtual_base_address)))
          ⊎ ((g.virtual_base_address ≡ file.virtual_base_address)
              × (g.physical_base_address ≡ file.physical_base_address)))
      × (((g.virtual_end_address ≡ p_vaddr m phdr + p_filesz m phdr)
            × (g.physical_end_address
                ≡ (file.elf_memory + p_offset m phdr + p_filesz m phdr) % 2 ^ 32))
          ⊎ ((g.virtual_end_address ≡ file.virtual_end_address)
              × (g.physical_end_address ≡ file.physical_end_address)))
unfolding elf_process_phdr_pt_load
pt_load_lem m file phdr seg =
    let some_address = seg.nonzero in
    let in_bounds = seg.bounded in
    let address : (p_vaddr m phdr + p_filesz m phdr) % 2 ^ 32 ≡ p_vaddr m phdr + p_filesz m phdr =
      omega arith in
    rw (address)
      (elim (Bool-cases
        (leb (p_vaddr m phdr) file.virtual_base_address || file.virtual_base_address == 0)) [
          | inl t ↦
              rw (t)
                (elim (Bool-cases (
                  leb file.virtual_end_address (p_vaddr m phdr + p_filesz m phdr)
                  || file.virtual_end_address == 0)) [
                    | inl u ↦ rw (u) (
                      refl,
                      some_address,
                      grind arith,
                      grind arith,
                      ground arith,
                      inl (refl, refl, ground arith),
                      inl (refl, refl),
                    )
                    | inr u ↦ rw (u) (
                      refl,
                      some_address,
                      grind arith,
                      ground arith,
                      grind arith,
                      inl (refl, refl, ground arith),
                      inr (refl, refl),
                    )
                  ])
          | inr t ↦
              rw (t)
                (elim (Bool-cases (
                  leb file.virtual_end_address (p_vaddr m phdr + p_filesz m phdr)
                  || file.virtual_end_address == 0)) [
                    | inl u ↦ rw (u) (
                      refl,
                      ground arith,
                      ground arith,
                      grind arith,
                      ground arith,
                      inr (refl, refl),
                      inl (refl, refl),
                    )
                    | inr u ↦ rw (u) (
                      refl,
                      ground arith,
                      ground arith,
                      ground arith,
                      grind arith,
                      inr (refl, refl),
                      inr (refl, refl),
                    )
                  ])
        ])

-- One header more.
Spans-elf_process_pheader :
    (m : Memory) (header n : ℕ) (file : ElfFile)
    → Spans m header n file
    → (p_type m (elf_program_header m header n) ≡ 1 → IsSegment m (elf_program_header m header n))
    → Spans m header (n + 1) (elf_process_pheader m file (elf_program_header m header n))
unfolding elf_process_pheader
Spans-elf_process_pheader m header n file spans segment =
    let phdr : ℕ = elf_program_header m header n in
    elim (Bool-cases (p_type m phdr == 1)) [
      | inl t ↦
          let g : ElfFile = elf_process_phdr_pt_load m file phdr in
          let lem = pt_load_lem m file phdr (segment (eq_of_test _ _ t)) in
          rw (t) (record {
            memory = lem.0 ∙ spans.memory;
            covers = λ i lt load. elim (eq_cases i n) [
              | inl same ↦
                  subst (λ k. InSpan m g (elf_program_header m header k)) (sym same)
                    (record { started = lem.1; above = lem.2; below = lem.3 })
              | inr (inl before) ↦
                  InSpan-mono m file g (elf_program_header m header i) (spans.covers i before load)
                    lem.1
                    (elim lem.5 [
                      | inl moved ↦ elim moved.2 [
                        | inl z ↦ absurd (omega (arith, (spans.covers i before load).started, z))
                        | inr le ↦ omega (arith, moved.0, le)
                      ]
                      | inr kept ↦ omega (arith, kept.0)
                    ])
                    lem.4
              | inr (inr after) ↦ absurd (omega arith)
            ];
            base = elim lem.5 [
              | inl moved ↦ inr (
                n,
                (
                  omega arith,
                  record {
                    loadable = eq_of_test _ _ t;
                    virtual = moved.0;
                    physical = moved.1 ∙ ap (λ h. (h + p_offset m phdr) % 2 ^ 32) spans.memory;
                  },
                ),
              )
              | inr kept ↦ elim spans.base [
                | inl z ↦ absurd (omega (arith, lem.1, kept.0, z))
                | inr (i, (lt, starts)) ↦ inr (
                  i,
                  (
                    omega arith,
                    record {
                      loadable = starts.loadable;
                      virtual = kept.0 ∙ starts.virtual;
                      physical = kept.1 ∙ starts.physical;
                    },
                  ),
                )
              ]
            ];
            end = elim lem.6 [
              | inl moved ↦ inr (
                n,
                (
                  omega arith,
                  record {
                    loadable = eq_of_test _ _ t;
                    virtual = moved.0;
                    physical =
                        moved.1
                        ∙ ap (λ h. (h + p_offset m phdr + p_filesz m phdr) % 2 ^ 32) spans.memory;
                  },
                ),
              )
              | inr kept ↦ elim spans.end [
                | inl z ↦ inl (kept.0 ∙ z)
                | inr (i, (lt, ends)) ↦ inr (
                  i,
                  (
                    omega arith,
                    record {
                      loadable = ends.loadable;
                      virtual = kept.0 ∙ ends.virtual;
                      physical = kept.1 ∙ ends.physical;
                    },
                  ),
                )
              ]
            ];
          })
      | inr f ↦ rw (f) (record {
        memory = spans.memory;
        covers = λ i lt load. elim (eq_cases i n) [
          | inl same ↦ absurd (
              ne_of_test _ _ f
                (subst (λ k. p_type m (elf_program_header m header k) ≡ 1) same load))
          | inr (inl before) ↦ spans.covers i before load
          | inr (inr after) ↦ absurd (omega arith)
        ];
        base = elim spans.base [
          | inl z ↦ inl z
          | inr (i, (lt, starts)) ↦ inr (i, (omega arith, starts))
        ];
        end = elim spans.end [ inl z ↦ inl z | inr (i, (lt, ends)) ↦ inr (i, (omega arith, ends)) ];
      })
    ]

Spans-pheaders_loop :
    (m : Memory) (header rounds n last : ℕ) (file : ElfFile)
    → ((i : ℕ)
        → i < last
        → p_type m (elf_program_header m header i) ≡ 1
        → IsSegment m (elf_program_header m header i))
    → Spans m header n file
    → n + rounds ≡ last
    → Spans m header last (pheaders_loop m rounds n file)
unfolding pheaders_loop
Spans-pheaders_loop m header zero n last file segments spans e =
    subst (λ k. Spans m header k file) (omega arith) spans
Spans-pheaders_loop m header (suc rounds) n last file segments spans e =
    subst
      (λ h.
        Spans m header last
          (pheaders_loop m rounds (n + 1) (elf_process_pheader m file (elf_program_header m h n))))
      (sym spans.memory)
      (Spans-pheaders_loop m header rounds (n + 1) last
        (elf_process_pheader m file (elf_program_header m header n)) segments
        (Spans-elf_process_pheader m header n file spans (segments n (omega arith))) (omega arith))

-- The loader starts with addresses 0. When no loadable segment starts at address 0 or wraps around
-- the address space, the file then reaches from the start to the end of every loadable segment. Its
-- base, virtual and physical, is the start of one of them, unless the virtual base is still 0, and its
-- end, virtual and physical, is the end of one of them, unless the virtual end is still 0. Physical
-- addresses are taken modulo 2^32.
pub elf_process_pheaders-Spans :
    (m : Memory) (header : ℕ)
    → ((i : ℕ)
        → i < e_phnum m header
        → p_type m (elf_program_header m header i) ≡ 1
        → IsSegment m (elf_program_header m header i))
    → Spans m header (e_phnum m header) (elf_process_pheaders m (loaded_at header))
unfolding elf_process_pheaders loaded_at
elf_process_pheaders-Spans m header segments =
    Spans-pheaders_loop m header (e_phnum m header) 0 (e_phnum m header) (loaded_at header) segments
      (record {
        memory = refl;
        covers = λ i lt. absurd (omega arith);
        base = inl refl;
        end = inl refl;
      })
      (omega arith)
