-- ===== src/Idt.antt =====
-- src/kernel/interrupts/idt.c and idt.h: the gates of the interrupt table. The addresses of the
-- handlers come from assembly code and are an argument, and so is what the ports of the interrupt
-- controllers read.
pub mod Gates
mod Tests
use knut_os.Base.{
  ℕ, zero, suc, ◌+◌, ◌-◌, ◌*◌, ◌/◌, ◌^◌, ◌==◌, if◌then◌else◌, List, [], ◌∷◌, ◌++◌, Option, some,
  ◌>>=◌, bit_and,
}
use knut_os.Pic
use knut_os.Pic.{Write}

pub record IdtDescriptor : Type 0 where
  pub offset_15_0 : ℕ
  pub selector : ℕ
  pub ist : ℕ
  pub type_and_attributes : ℕ
  pub offset_31_16 : ℕ
  pub offset_63_32 : ℕ
  pub unused : ℕ

-- The table, by vector. It is static, and so zero at first.
abbrev pub Idt : Type 0
Idt = ℕ → IdtDescriptor

abbrev pub no_gate : IdtDescriptor
no_gate = record {
  offset_15_0 = 0;
  selector = 0;
  ist = 0;
  type_and_attributes = 0;
  offset_31_16 = 0;
  offset_63_32 = 0;
  unused = 0;
}

abbrev pub gate : ℕ → ℕ → IdtDescriptor
gate offset type_and_attributes = record {
  offset_15_0 = bit_and offset 0xFFFF;
  selector = 0x08;
  ist = 0;
  type_and_attributes = type_and_attributes;
  offset_31_16 = bit_and (offset / 2 ^ 16) 0xFFFF;
  offset_63_32 = bit_and (offset / 2 ^ 32) 0xFFFFFFFF;
  unused = 0;
}

pub create_descriptor : (ℕ → ℕ) → Idt → ℕ → ℕ → Idt
create_descriptor isr_names idt index type_and_attributes other =
    if other == index then gate (isr_names index) type_and_attributes else idt other

-- The calls for the vectors from `index` on, `n` of them.
pub create_from : (ℕ → ℕ) → Idt → ℕ → ℕ → Idt
unfolding create_descriptor
create_from isr_names idt index zero = idt
create_from isr_names idt index (suc n) =
    create_from isr_names (create_descriptor isr_names idt index 0x8E) (index + 1) n

pub record IdtPointer : Type 0 where
  pub limit : ℕ
  pub base : ℕ

-- The table, the writes to the interrupt controllers, and the pointer that is loaded. `inb` is what
-- the ports read before they are remapped, and `masks` afterwards.
pub init : (isr_names inb masks : ℕ → ℕ) → ℕ → Option (Idt × List Write × IdtPointer)
unfolding create_from
init isr_names inb masks idt_address = do
  let exceptions = create_from isr_names (λ _. no_gate) 0 32
  let irqs = create_from isr_names exceptions 32 16
  let idt = create_descriptor isr_names irqs 255 0x8E
  keyboard ← Pic.set_mask masks 1
  some (idt, Pic.remap inb ++ keyboard ∷ [], record { limit = 16 * 256 - 1; base = idt_address })
