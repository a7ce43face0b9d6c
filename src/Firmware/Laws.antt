-- ===== src/Firmware/Laws.antt =====
-- What `acpi_init` does with the tables of a firmware.
use knut_os.Base.{
  ℕ, ◌+◌, ◌*◌, ◌/◌, ◌==◌, ◌<◌, ◌≡◌, refl, sym, arith, if◌then◌else◌, Bool, true, not, List, length,
  Option, some, ◌>>=◌,
}
use knut_os.Mem.{phys_to_higher_half_data}
use knut_os.Kmalloc.{Heap}
use knut_os.Stivale2.{Chain, first_with, get_tag_from-first_with}
use knut_os.Acpi.{check_sdt_header, find_sdt_table, rsdp_init}
use knut_os.Acpi.Find.{find_sdt_table-Found}
use knut_os.Madt.Records.{Entry, LaidOut, table_size, sorted, init-sorted}
use knut_os.Firmware.{
  tag_at, table_at, word32, rsdp_id, rsdp_of, rsdt_of, rsdt_entry, rsdt_signature, apic_signature,
  allocate_arrays, Platform, madt_init, acpi_init,
}
use knut_os.Firmware.Path.{IsFirst, Found-first, word32-lt, phys_to_higher_half_data-bounds}

-- The outcome of a start-up that sorts the records `es` of a table at `header`.
abbrev pub sorted_platform : Bool → Heap → ℕ → List Entry → Option Platform
sorted_platform la57 h header es = do
  (arrays, heap) ← allocate_arrays la57 h
  some (record { arrays = arrays; madt = sorted (header + 44) es; heap = heap })

-- How many entries of an RSDT of `count` entries are looked at.
abbrev pub looked_at : Bool → ℕ → ℕ
looked_at has_xsdt count = if has_xsdt then count / 2 else count

module _ (la57 : Bool) (byte : ℕ → ℕ) (bytes : (a : ℕ) → byte a < 256) (rsdt count : ℕ)
    (has_xsdt : Bool) (result : ℕ → ℕ) where
  -- The table of entry `k`, through the mapping of the higher half.
  mapped : ℕ → ℕ
  mapped k = phys_to_higher_half_data la57 (rsdt_entry byte rsdt k)

  find-first :
      (k : ℕ)
      → word32 byte (rsdt + 4) ≡ 36 + 4 * count
      → ((j : ℕ)
          → j < count
          → check_sdt_header (table_at byte (rsdt_entry byte rsdt j)) apic_signature
            ≡ some (result j))
      → IsFirst result k (looked_at has_xsdt count)
      → find_sdt_table la57
          (table_at byte)
          (word32 byte (rsdt + 4))
          (rsdt_entry byte rsdt)
          has_xsdt
          apic_signature
        ≡ some (mapped k)
  unfolding mapped
  find-first k size checks first =
      Found-first la57 (rsdt_entry byte rsdt) result k (looked_at has_xsdt count) _ first (
        find_sdt_table-Found la57 (table_at byte) (word32 byte (rsdt + 4)) (rsdt_entry byte rsdt)
          has_xsdt apic_signature result count size (word32-lt byte (rsdt + 4) bytes) checks)

  madt_init-sorted :
      (k : ℕ) (es : List Entry) (h : Heap)
      → word32 byte (rsdt + 4) ≡ 36 + 4 * count
      → ((j : ℕ)
          → j < count
          → check_sdt_header (table_at byte (rsdt_entry byte rsdt j)) apic_signature
            ≡ some (result j))
      → IsFirst result k (looked_at has_xsdt count)
      → LaidOut byte (mapped k + 44) es
      → word32 byte (mapped k + 4) ≡ 44 + table_size es
      → madt_init la57 byte rsdt has_xsdt h ≡ sorted_platform la57 h (mapped k) es
  unfolding madt_init mapped
  madt_init-sorted k es h size checks first laid whole =
      let (above, below) =
        phys_to_higher_half_data-bounds la57 (rsdt_entry byte rsdt k)
          (word32-lt byte (rsdt + 36 + 4 * k) bytes) in
      let small = word32-lt byte (mapped k + 4) bytes in
      let there : not (mapped k == 0) ≡ true = ground (arith, above) in
      let read =
        init-sorted byte (mapped k) (word32 byte (mapped k + 4)) es laid whole
          (omega (arith, below, small)) in
      rw (find-first k size checks first, there, read) refl

pub acpi_init-sorted :
    (la57 : Bool) (byte : ℕ → ℕ) (fuel first : ℕ) (addresses : List ℕ) (h : Heap)
    (rsdp rsdt count : ℕ) (has_xsdt : Bool) (result : ℕ → ℕ) (k header : ℕ) (es : List Entry)
    → ((a : ℕ) → byte a < 256)
    → Chain (tag_at byte) first addresses
    → length addresses < fuel
    → rsdp_of byte (first_with (tag_at byte) rsdp_id addresses) ≡ rsdp
    → rsdp_init (λ i. byte (rsdp + i)) ≡ some has_xsdt
    → rsdt_of la57 byte rsdp ≡ rsdt
    → check_sdt_header (table_at byte rsdt) rsdt_signature ≡ some 0
    → word32 byte (rsdt + 4) ≡ 36 + 4 * count
    → ((j : ℕ)
        → j < count
        → check_sdt_header (table_at byte (rsdt_entry byte rsdt j)) apic_signature
          ≡ some (result j))
    → IsFirst result k (looked_at has_xsdt count)
    → phys_to_higher_half_data la57 (rsdt_entry byte rsdt k) ≡ header
    → LaidOut byte (header + 44) es
    → word32 byte (header + 4) ≡ 44 + table_size es
    → acpi_init la57 byte fuel first h ≡ sorted_platform la57 h header es
unfolding acpi_init madt_init mapped
acpi_init-sorted la57 byte fuel first addresses h rsdp rsdt count has_xsdt result k header es bytes
      chain enough pointer sound root checked size checks is_first at laid whole =
    let tags = get_tag_from-first_with fuel (tag_at byte) rsdp_id chain enough in
    rw (tags, pointer, sound, root, checked, sym at)
      (madt_init-sorted la57 byte bytes rsdt count has_xsdt result k es h size checks is_first
        (rw at laid) (rw at whole))
