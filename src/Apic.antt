-- ===== src/Apic.antt =====
-- src/kernel/devices/apic/apic.c and apic.h: the local interrupt controller and the I/O controllers, by
-- the 32-bit words read and written at addresses.
pub mod Laws
mod Tests
use knut_os.Base.{
  ℕ, ◌+◌, ◌*◌, ◌^◌, ◌==◌, if◌then◌else◌, Bool, true, false, not, List, [], ◌∷◌, ◌++◌, Option, none,
  some, ◌>>=◌, get_elem?, bit_and, bit_or,
}
use knut_os.Base.Words.{u64, add64}
use knut_os.Cpu.{Registers, cpuid, cpuid_get_features, cpuid_feat_edx_apic}
use knut_os.Mem.{phys_to_higher_half_data}
use knut_os.Pic
use knut_os.Pic.{Write}

abbrev pub apic_spurious_vector_register : ℕ
apic_spurious_vector_register = 0xF

abbrev pub apic_eoi_register : ℕ
apic_eoi_register = 0xB0

abbrev pub apic_software_enable : ℕ
apic_software_enable = 2 ^ 8

abbrev pub spurious_interrupt : ℕ
spurious_interrupt = 255

-- A write of a word to an address.
pub record Store : Type 0 where
  pub address : ℕ
  pub word : ℕ

abbrev pub store : ℕ → ℕ → Store
store address word = record { address = address; word = word }

unfoldable pub apic_is_available : (ℕ → ℕ → Registers) → Bool
unfolding cpuid
apic_is_available machine =
    let empty : Registers = record { eax = 0; ebx = 0; ecx = 0; edx = 0 } in
    let regs = (cpuid machine cpuid_get_features 0 empty).0 in
    not (bit_and regs.edx cpuid_feat_edx_apic == 0)

-- The address that is read: `reg` is added to a pointer to words.
unfoldable pub lapic_read_address : ℕ → ℕ → ℕ
lapic_read_address lapic_base reg = u64 (lapic_base + 4 * reg)

unfoldable pub lapic_read_register : (ℕ → ℕ) → ℕ → ℕ → ℕ
unfolding lapic_read_address
lapic_read_register word lapic_base reg = word (lapic_read_address lapic_base reg)

unfoldable pub lapic_write_register : ℕ → ℕ → ℕ → Store
lapic_write_register lapic_base reg word = store (add64 lapic_base reg) word

unfoldable pub lapic_enable : ℕ → Store
unfolding lapic_write_register
lapic_enable lapic_base =
    lapic_write_register lapic_base apic_spurious_vector_register
      (bit_or apic_software_enable spurious_interrupt)

unfoldable pub lapic_signal_eoi : ℕ → Store
unfolding lapic_write_register
lapic_signal_eoi lapic_base = lapic_write_register lapic_base apic_eoi_register 0

-- What is loaded into the controllers: nothing where the machine halts for good. Else the base, the
-- writes to ports, and those to memory.
pub data Outcome : Type 0 where
  halted : Outcome
  enabled : ℕ → List Write → List Store → Outcome

pub init : Bool → (ℕ → ℕ → Registers) → ℕ → (ℕ → ℕ) → Outcome
unfolding apic_is_available lapic_enable
init la57 machine lapic_address inb =
    let lapic_base = phys_to_higher_half_data la57 lapic_address in
    if not (apic_is_available machine)
    then halted
    else enabled lapic_base (Pic.remap inb ++ Pic.disable) (lapic_enable lapic_base ∷ [])

-- The registers of an I/O controller: the select register at the start of the record, and the window 16
-- words behind it. `none` is a read past the end of the array.
unfoldable pub io_apic_write_register : List ℕ → ℕ → ℕ → ℕ → Option (List Store)
io_apic_write_register io_apics i reg_offset word = do
  base ← get_elem? io_apics i
  some (store base reg_offset ∷ store (u64 (base + 4 * 0x10)) word ∷ [])

-- The write, and the address that is read afterwards.
unfoldable pub io_apic_read_register : List ℕ → ℕ → ℕ → Option (Store × ℕ)
io_apic_read_register io_apics i reg_offset = do
  base ← get_elem? io_apics i
  some (store base reg_offset, u64 (base + 4 * 0x10))
