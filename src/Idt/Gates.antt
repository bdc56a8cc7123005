-- ===== src/Idt/Gates.antt =====
-- What idt_init of src/idt/idt.c leaves in the descriptor table and in the table of callbacks.
use slob_os.Prelude.{
  ℕ, zero, suc, ◌+◌, ◌*◌, ◌/◌, ◌%◌, ◌^◌, ◌≤◌, ◌<◌, ◌≡◌, inl, inr, refl, ap, ◌∙◌, some, leb, ltb,
  ◌&&◌, ◌==◌, if◌then◌else◌, arith, eq_cases, false,
}
use slob_os.Prelude.Int.{pos}
use slob_os.Prelude.Store.{put}
use slob_os.Idt.{
  IdtDesc, Interrupts, Entries, gate, idt_set, idt_register_interrupt_callback, entries_loop,
  exceptions_loop, cleared_table, idt_init,
}

-- The processor's reading of a descriptor: the handler, the code segment, a present 32-bit interrupt
-- gate that programs may call.
pub record IsGate (desc : IdtDesc) (handler : ℕ) : Type 0 where
  pub target : desc.offset_2 * 2 ^ 16 + desc.offset_1 ≡ handler
  pub selector : desc.selector ≡ 8
  pub present : desc.type_attr / 2 ^ 7 ≡ 1
  pub privilege : desc.type_attr / 2 ^ 5 % 4 ≡ 3
  pub kind : desc.type_attr % 2 ^ 4 ≡ 0xe

gate-IsGate : (handler : ℕ) → handler < 2 ^ 32 → IsGate (gate handler) handler
unfolding gate
gate-IsGate handler h = record {
  target = omega arith;
  selector = refl;
  present = refl;
  privilege = refl;
  kind = refl;
}

-- The handler that idt_init gives to an interrupt.
abbrev pub handler_of : {H : Type 0} → Entries H → ℕ → ℕ
handler_of at i =
    if i == 0 then at.idt_zero else if i == 0x80 then at.isr80h_wrapper else at.entries i

module _ {C H : Type 0} where
  entries_loop-descriptors :
      (entries : ℕ → ℕ) (rounds i : ℕ) (idt : Interrupts C H) (k : ℕ)
      → (entries_loop entries rounds i idt).descriptors k
        ≡ (if leb i k && ltb k (i + rounds) then gate (entries k) else idt.descriptors k)
  unfolding entries_loop idt_set
  entries_loop-descriptors entries zero i idt k = ground arith
  entries_loop-descriptors entries (suc rounds) i idt k =
      entries_loop-descriptors entries rounds (i + 1) (idt_set idt i (entries i)) k
      ∙ elim (eq_cases k i) [ inl e ↦ rw (e) (ground arith) | inr ne ↦ ground arith ]

  entries_loop-callbacks :
      (entries : ℕ → ℕ) (rounds i : ℕ) (idt : Interrupts C H)
      → (entries_loop entries rounds i idt).callbacks ≡ idt.callbacks
  unfolding entries_loop idt_set
  entries_loop-callbacks entries zero i idt = refl
  entries_loop-callbacks entries (suc rounds) i idt =
      entries_loop-callbacks entries rounds (i + 1) (idt_set idt i (entries i))

  pub register_callback :
      (idt : Interrupts C H) (i : ℕ) (callback : H)
      → i < 512
      → (idt_register_interrupt_callback idt (pos i) callback).0
        ≡ record idt { callbacks = put idt.callbacks i (some callback) }
  unfolding idt_register_interrupt_callback
  register_callback idt i callback h =
      let inside : leb 512 i ≡ false = ground arith in rw (inside) refl

  exceptions_loop-descriptors :
      (callback : H) (rounds i : ℕ) (idt : Interrupts C H)
      → i + rounds ≤ 512
      → (exceptions_loop callback rounds i idt).descriptors ≡ idt.descriptors
  unfolding exceptions_loop
  exceptions_loop-descriptors callback zero i idt h = refl
  exceptions_loop-descriptors callback (suc rounds) i idt h =
      exceptions_loop-descriptors callback rounds (i + 1)
        (idt_register_interrupt_callback idt (pos i) callback).0 (omega arith)
      ∙ ap (λ (t : Interrupts C H). t.descriptors) (register_callback idt i callback (omega arith))

  exceptions_loop-callbacks :
      (callback : H) (rounds i : ℕ) (idt : Interrupts C H) (k : ℕ)
      → i + rounds ≤ 512
      → (exceptions_loop callback rounds i idt).callbacks k
        ≡ (if leb i k && ltb k (i + rounds) then some callback else idt.callbacks k)
  unfolding exceptions_loop
  exceptions_loop-callbacks callback zero i idt k h = ground arith
  exceptions_loop-callbacks callback (suc rounds) i idt k h =
      exceptions_loop-callbacks callback rounds (i + 1)
        (idt_register_interrupt_callback idt (pos i) callback).0 k (omega arith)
      ∙ rw (register_callback idt i callback (omega arith))
          (elim (eq_cases k i) [ inl e ↦ rw (e) (ground arith) | inr ne ↦ ground arith ])

  descriptor_of :
      (at : Entries H) (idt : Interrupts C H) (i : ℕ)
      → i < 512
      → (idt_init at idt).descriptors i ≡ gate (handler_of at i)
  unfolding idt_init idt_set
  descriptor_of at idt i h =
      ap (λ (d : ℕ → IdtDesc). d i)
        (exceptions_loop-descriptors at.idt_handle_exception 0x20 0 _ (omega arith))
      ∙ rw (entries_loop-descriptors at.entries 512 0 (cleared_table at.idt_descriptors idt) i)
          (ground arith)

  callback_of :
      (at : Entries H) (idt : Interrupts C H) (i : ℕ)
      → (idt_init at idt).callbacks i
        ≡ (if ltb i 32 then some at.idt_handle_exception else idt.callbacks i)
  unfolding idt_init idt_set cleared_table
  callback_of at idt i =
      exceptions_loop-callbacks at.idt_handle_exception 0x20 0 _ i (omega arith)
      ∙ rw (entries_loop-callbacks at.entries 512 0 (cleared_table at.idt_descriptors idt))
          (ground arith)

  -- After idt_init each of the 512 descriptors is a gate, for programs too, to the handler that the
  -- assembly's table names, but for number 0, idt_zero, and number 0x80, the system calls; the first
  -- 32 interrupts call idt_handle_exception and the others what they called before.
  pub idt_init-IsGate :
      (at : Entries H) (idt : Interrupts C H) (i : ℕ)
      → i < 512
      → handler_of at i < 2 ^ 32
      → IsGate ((idt_init at idt).descriptors i) (handler_of at i)
        × ((idt_init at idt).callbacks i
            ≡ (if ltb i 32 then some at.idt_handle_exception else idt.callbacks i))
  idt_init-IsGate at idt i h fits =
      (rw (descriptor_of at idt i h) (gate-IsGate (handler_of at i) fits), callback_of at idt i)
