-- ===== src/Firmware/Tests.antt =====
-- A firmware with an RSDT of two tables, the second of which is a MADT of two records.
use native.Mathlib.Decide.{ℕ_discrete}
use knut_os.Base.{
  ℕ, ◌+◌, ◌-◌, ◌%◌, ◌<◌, ◌≡◌, refl, ◌∙◌, arith, ◌==◌, ltb, if◌then◌else◌, false, List, [], ◌∷◌,
  ◌++◌, replicate, get_or, some,
}
use knut_os.Mem.{phys_to_higher_half_data}
use knut_os.Str.{memcmp}
use knut_os.Stivale2.{Chain, link, end}
use knut_os.Acpi.{check_sdt_header, verify_sdt_header_checksum, sum_bytes, rsdp_init}
use knut_os.Madt.Records.{Entry, LaidOut, sorted}
use knut_os.Kmalloc.Samples.{stock, stock_runs}
use knut_os.Firmware.{
  tag_at, table_at, rsdt_signature, apic_signature, rsdt_entry, allocate_arrays, Platform,
  acpi_init,
}
use knut_os.Firmware.Path.{IsFirst}
use knut_os.Firmware.Laws.{acpi_init-sorted}

-- Two tags, at 0x100 and 0x120: the second is that of the RSDP.
abbrev tags : List ℕ
tags =
    1
    ∷ 0
    ∷ 0
    ∷ 0
    ∷ 0
    ∷ 0
    ∷ 0
    ∷ 0
    ∷ 32
    ∷ 1
    ∷ (replicate 22 0
        ++ (120 ∷ 94 ∷ 55 ∷ 10 ∷ 147 ∷ 134 ∷ 23 ∷ 158 ∷ 0 ∷ 0 ∷ 0 ∷ 0 ∷ 0 ∷ 0 ∷ 0 ∷ 0 ∷ 0 ∷ 2 ∷ 0
            ∷ 0 ∷ 0 ∷ 0 ∷ 0 ∷ 0 ∷ []))

-- The tables from 0x200, 0x300, 0x400 and 0x500 on.
abbrev rsdp : List ℕ
rsdp =
    82 ∷ 83 ∷ 68 ∷ 32 ∷ 80 ∷ 84 ∷ 82 ∷ 32 ∷ 250 ∷ 75 ∷ 78 ∷ 85 ∷ 84 ∷ 79 ∷ 83 ∷ 0 ∷ 0 ∷ 3 ∷ 0 ∷ 0
    ∷ []

abbrev rsdt : List ℕ
rsdt =
    82
    ∷ 83
    ∷ 68
    ∷ 84
    ∷ 44
    ∷ 0
    ∷ 0
    ∷ 0
    ∷ 1
    ∷ 141
    ∷ (replicate 26 0 ++ (0 ∷ 4 ∷ 0 ∷ 0 ∷ 0 ∷ 5 ∷ 0 ∷ 0 ∷ []))

abbrev facp : List ℕ
facp = 70 ∷ 65 ∷ 67 ∷ 80 ∷ 36 ∷ 0 ∷ 0 ∷ 0 ∷ 1 ∷ 193 ∷ []

abbrev madt : List ℕ
madt =
    65
    ∷ 80
    ∷ 73
    ∷ 67
    ∷ 58
    ∷ 0
    ∷ 0
    ∷ 0
    ∷ 1
    ∷ 181
    ∷ (replicate 26 0
        ++ (0 ∷ 0 ∷ 224 ∷ 254 ∷ 1 ∷ 0 ∷ 0 ∷ 0 ∷ 0 ∷ 8 ∷ 1 ∷ 1 ∷ 1 ∷ 0 ∷ 0 ∷ 0 ∷ 1 ∷ 6 ∷ 2 ∷ 0 ∷ 0
            ∷ 0 ∷ []))

abbrev image : ℕ → ℕ
image a =
    if ltb a 0x200
    then get_or tags (a - 0x100) 0
    else if ltb a 0x300
    then get_or rsdp (a - 0x200) 0
    else if ltb a 0x400
    then get_or rsdt (a - 0x300) 0
    else if ltb a 0x500
    then get_or facp (a - 0x400) 0
    else get_or madt (a - 0x500) 0

-- The lowest page, at whatever address it is mapped.
abbrev byte : ℕ → ℕ
byte a = image (a % 4096) % 256

bytes : (a : ℕ) → byte a < 256
bytes a = omega arith

chain : Chain (tag_at byte) 0x100 (0x100 ∷ 0x120 ∷ [])
chain = link (omega arith) (link (omega arith) end)

rsdp_sound : rsdp_init (λ i. byte (0x200 + i)) ≡ some false
unfolding rsdp_init sum_bytes
rsdp_sound = refl

root : phys_to_higher_half_data false 0x300 ≡ 0xFFFF800000000300
unfolding phys_to_higher_half_data
root = refl

rsdt_sound : check_sdt_header (table_at byte 0xFFFF800000000300) rsdt_signature ≡ some 0
unfolding check_sdt_header verify_sdt_header_checksum sum_bytes memcmp
rsdt_sound = refl

abbrev result : ℕ → ℕ
result j = if j == 1 then 0 else 1

facp_fails : check_sdt_header (table_at byte 0x400) apic_signature ≡ some 1
unfolding check_sdt_header memcmp
facp_fails = refl

madt_sound : check_sdt_header (table_at byte 0x500) apic_signature ≡ some 0
unfolding check_sdt_header verify_sdt_header_checksum sum_bytes memcmp
madt_sound = refl

entries :
    (rsdt_entry byte 0xFFFF800000000300 0 ≡ 0x400) × (rsdt_entry byte 0xFFFF800000000300 1 ≡ 0x500)
entries = (refl, refl)

checks :
    (j : ℕ)
    → j < 2
    → check_sdt_header (table_at byte (rsdt_entry byte 0xFFFF800000000300 j)) apic_signature
      ≡ some (result j)
checks j small = elim (ℕ_discrete j 1) [
  | yes e ↦ rw (e, entries.1) madt_sound
  | no ne ↦ let first : j ≡ 0 = omega arith in rw (first, entries.0) facp_fails
]

second : IsFirst result 1 2
second = record {
  below = omega arith;
  passes = refl;
  before = λ j less. let first : j ≡ 0 = omega arith in rw first (omega arith);
}

mapped : phys_to_higher_half_data false 0x500 ≡ 0xFFFF800000000500
unfolding phys_to_higher_half_data
mapped = refl

abbrev records : List Entry
records = record { kind = 0; size = 8 } ∷ record { kind = 1; size = 6 } ∷ []

laid : LaidOut byte 0xFFFF80000000052C records
laid = (refl, refl, omega arith, (refl, refl, omega arith, tt))

abbrev platform : Platform
platform = record {
  arrays = record {
    madt_lapics = 0x6008;
    madt_io_apics = 0x6208;
    madt_isos = 0x6408;
    madt_lapic_nmis = 0x6608;
  };
  madt = sorted 0xFFFF80000000052C records;
  heap = stock 4;
}

run : acpi_init false byte 3 0x100 (stock 0) ≡ some platform
unfolding allocate_arrays
run =
    acpi_init-sorted false byte 3 0x100 (0x100 ∷ 0x120 ∷ []) (stock 0) 0x200 0xFFFF800000000300 2
      false result 1 0xFFFF800000000500 records bytes chain (omega arith) refl rsdp_sound root
      rsdt_sound refl checks second mapped laid refl
    ∙ rw (stock_runs.0, stock_runs.1, stock_runs.2, stock_runs.3) refl
