-- ===== src/Madt.antt =====
-- src/kernel/firmware/acpi/tables/madt.c and madt.h: the records of the table of interrupt
-- controllers, sorted by kind. The arrays that hold them are lists: that they have room is not
-- checked.
pub mod Records
mod Tests
use knut_os.Base.{
  ℕ, zero, suc, ◌+◌, ◌==◌, ltb, if◌then◌else◌, List, [], ◌∷◌, ◌++◌, Option, none, some, ◌>>=◌,
}
use knut_os.Base.Words.{add64}

abbrev pub processor_local_apic : ℕ
processor_local_apic = 0x0

abbrev pub io_apic : ℕ
io_apic = 0x1

abbrev pub interrupt_source_override : ℕ
interrupt_source_override = 0x2

abbrev pub lapic_nmi : ℕ
lapic_nmi = 0x4

-- The four arrays, as the addresses of the records in them.
pub record Madt : Type 0 where
  pub lapics : List ℕ
  pub io_apics : List ℕ
  pub isos : List ℕ
  pub lapic_nmis : List ℕ

-- The `switch` on the kind of the record at `table_ptr`.
pub add_record : Madt → ℕ → ℕ → Madt
add_record m kind table_ptr =
    if kind == processor_local_apic
    then record m { lapics = m.lapics ++ table_ptr ∷ [] }
    else if kind == io_apic
    then record m { io_apics = m.io_apics ++ table_ptr ∷ [] }
    else if kind == interrupt_source_override
    then record m { isos = m.isos ++ table_ptr ∷ [] }
    else if kind == lapic_nmi
    then record m { lapic_nmis = m.lapic_nmis ++ table_ptr ∷ [] }
    else m

-- The loop of `madt_init`, on fuel, up to the address `stop`; `none` where it goes on.
pub parse : ℕ → (ℕ → ℕ) → ℕ → Madt → ℕ → Option Madt
unfolding add_record
parse zero byte stop m table_ptr = none
parse (suc fuel) byte stop m table_ptr =
    let rest =
      parse fuel byte stop (add_record m (byte table_ptr) table_ptr)
        (add64 table_ptr (byte (table_ptr + 1))) in
    if ltb table_ptr stop then rest else some m

-- `header` is the address of the table, 44 bytes before its records, and `length` what its header
-- says. Records have a length of two bytes at least, so the length is fuel enough.
pub init : (ℕ → ℕ) → ℕ → ℕ → Option Madt
unfolding parse
init byte header length =
    parse (suc length) byte (add64 header length)
      (record { lapics = []; io_apics = []; isos = []; lapic_nmis = [] }) (header + 44)
