-- ===== src/Firmware.antt =====
-- `acpi_init` of src/kernel/firmware/acpi/acpi.c and `madt_init` of tables/madt.c: how the start-up
-- goes from the tags of the boot loader to the records of the interrupt controllers. Memory is read
-- byte by byte at virtual addresses, and is not changed meanwhile but for the heap. `none` is a halt,
-- or what is `none` in the parts.
pub mod Path
pub mod Laws
pub mod Checked
mod Tests
use knut_os.Base.{
  ℕ, ◌+◌, ◌*◌, ◌^◌, ◌==◌, Bool, not, List, [], ◌∷◌, Option, none, some, ◌>>=◌, ◌>>◌, require,
}
use knut_os.Mem.{phys_to_higher_half_data}
use knut_os.Kmalloc.{Heap, kmalloc}
use knut_os.Stivale2.{Tag, get_tag_from}
use knut_os.Acpi.{SdtHeader, check_sdt_header, find_sdt_table, rsdp_init}
use knut_os.Madt
use knut_os.Madt.{Madt}

abbrev pub word32 : (ℕ → ℕ) → ℕ → ℕ
word32 byte a = byte a + 2 ^ 8 * byte (a + 1) + 2 ^ 16 * byte (a + 2) + 2 ^ 24 * byte (a + 3)

abbrev pub word64 : (ℕ → ℕ) → ℕ → ℕ
word64 byte a = word32 byte a + 2 ^ 32 * word32 byte (a + 4)

-- What stands at an address as a tag, and as the header of a table.
abbrev pub tag_at : (ℕ → ℕ) → ℕ → Tag
tag_at byte a = record { identifier = word64 byte a; next = word64 byte (a + 8) }

abbrev pub table_at : (ℕ → ℕ) → ℕ → SdtHeader
table_at byte a = record {
  signature = byte a ∷ byte (a + 1) ∷ byte (a + 2) ∷ byte (a + 3) ∷ [];
  length = word32 byte (a + 4);
  byte = λ i. byte (a + i);
}

-- `STIVALE2_STRUCT_TAG_RSDP_ID`.
abbrev pub rsdp_id : ℕ
rsdp_id = 0x9E1786930A375E78

-- "RSDT" and "APIC".
abbrev pub rsdt_signature : List ℕ
rsdt_signature = 0x52 ∷ 0x53 ∷ 0x44 ∷ 0x54 ∷ []

abbrev pub apic_signature : List ℕ
apic_signature = 0x41 ∷ 0x50 ∷ 0x49 ∷ 0x43 ∷ []

-- `rsdp_tag->rsdp`, `rsdt`, and `rsdt->entries[i]`.
abbrev pub rsdp_of : (ℕ → ℕ) → ℕ → ℕ
rsdp_of byte rsdp_tag = word64 byte (rsdp_tag + 16)

abbrev pub rsdt_of : Bool → (ℕ → ℕ) → ℕ → ℕ
rsdt_of la57 byte rsdp = phys_to_higher_half_data la57 (word32 byte (rsdp + 16))

abbrev pub rsdt_entry : (ℕ → ℕ) → ℕ → ℕ → ℕ
rsdt_entry byte rsdt i = word32 byte (rsdt + 36 + 4 * i)

-- The addresses of the four arrays for the records.
pub record Arrays : Type 0 where
  pub madt_lapics : ℕ
  pub madt_io_apics : ℕ
  pub madt_isos : ℕ
  pub madt_lapic_nmis : ℕ

pub allocate_arrays : Bool → Heap → Option (Arrays × Heap)
allocate_arrays la57 h = do
  (lapics, h1) ← kmalloc la57 h 256
  (io_apics, h2) ← kmalloc la57 h1 256
  (isos, h3) ← kmalloc la57 h2 256
  (lapic_nmis, h4) ← kmalloc la57 h3 256
  some (
    record {
      madt_lapics = lapics;
      madt_io_apics = io_apics;
      madt_isos = isos;
      madt_lapic_nmis = lapic_nmis;
    },
    h4,
  )

-- What start-up knows of the interrupt controllers, and the heap.
pub record Platform : Type 0 where
  pub arrays : Arrays
  pub madt : Madt
  pub heap : Heap

pub madt_init : Bool → (ℕ → ℕ) → ℕ → Bool → Heap → Option Platform
unfolding allocate_arrays
madt_init la57 byte rsdt has_xsdt h = do
  header ←
      find_sdt_table la57 (table_at byte) (table_at byte rsdt).length (rsdt_entry byte rsdt)
        has_xsdt apic_signature
  require (not (header == 0))
  (arrays, heap) ← allocate_arrays la57 h
  madt ← Madt.init byte header (table_at byte header).length
  some (record { arrays = arrays; madt = madt; heap = heap })

-- `first` is the address of the first tag, and `fuel` for the list of tags.
pub acpi_init : Bool → (ℕ → ℕ) → ℕ → ℕ → Heap → Option Platform
unfolding madt_init
acpi_init la57 byte fuel first h = do
  rsdp_tag ← get_tag_from fuel (tag_at byte) rsdp_id first
  has_xsdt ← rsdp_init (λ i. byte (rsdp_of byte rsdp_tag + i))
  let rsdt = rsdt_of la57 byte (rsdp_of byte rsdp_tag)
  result ← check_sdt_header (table_at byte rsdt) rsdt_signature
  require (result == 0)
  madt_init la57 byte rsdt has_xsdt h
