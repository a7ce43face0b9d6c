-- ===== src/Idt/Gates.antt =====
-- Which vectors have a gate, and where it leads.
use knut_os.Base.{ℕ, ◌+◌, ◌*◌, ◌^◌, Bool, ◌==◌, ltb, ◌||◌}
use knut_os.Idt.{Idt, IdtDescriptor, no_gate, create_descriptor, create_from}

-- The address that the processor reads from a gate.
abbrev pub offset : IdtDescriptor → ℕ
offset d = d.offset_15_0 + d.offset_31_16 * 2 ^ 16 + d.offset_63_32 * 2 ^ 32

-- The vectors that the kernel handles.
abbrev pub is_handled : ℕ → Bool
is_handled v = ltb v 48 || v == 255

abbrev table : (ℕ → ℕ) → Idt
table isr_names =
    create_descriptor isr_names
      (create_from isr_names (create_from isr_names (λ _. no_gate) 0 32) 32 16) 255 0x8E
