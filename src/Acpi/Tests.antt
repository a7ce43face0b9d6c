-- ===== src/Acpi/Tests.antt =====
-- Tables of two bytes, and a list of four tables of which the third is the MADT.
use knut_os.Base.{
  ℕ, ◌*◌, ◌%◌, ◌≤◌, ◌<◌, ◌≡◌, ◌↔◌, refl, arith, ◌==◌, if◌then◌else◌, false, List, [], ◌∷◌, none,
  some,
}
use native.Mathlib.Decide.{ℕ_discrete}
use knut_os.Str.{memcmp}
use knut_os.Acpi.{SdtHeader, sum_bytes, verify_sdt_header_checksum, check_sdt_header}
use knut_os.Acpi.Checksum.{total, verify_sdt_header_checksum-total}

abbrev apic : List ℕ
apic = 65 ∷ 80 ∷ 73 ∷ 67 ∷ []

abbrev facp : List ℕ
facp = 70 ∷ 65 ∷ 67 ∷ 80 ∷ []

-- The bytes are 0x01 and 0xFF.
abbrev header : List ℕ → SdtHeader
header signature = record {
  signature = signature;
  length = 2;
  byte = λ i. if i == 0 then 1 else 0xFF;
}

verify_sdt_header_checksum-total_example :
    ((header apic).length < 256
      → (r : ℕ) × (verify_sdt_header_checksum (header apic) ≡ some r)
        × ((r ≡ 0) ↔ (total (header apic).byte 0 2 % 256 ≡ 0)))
    × (256 ≤ (header apic).length → (fuel : ℕ) → sum_bytes fuel (header apic).byte 2 0 0 ≡ none)
verify_sdt_header_checksum-total_example = verify_sdt_header_checksum-total (header apic)

abbrev entries : ℕ → ℕ
entries j = 0x1000 * j

abbrev header_at : ℕ → SdtHeader
header_at address = header (if address == 0x2000 then apic else facp)

abbrev result : ℕ → ℕ
result j = if j == 2 then 0 else 1

checks : (j : ℕ) → j < 4 → check_sdt_header (header_at (entries j)) apic ≡ some (result j)
unfolding check_sdt_header verify_sdt_header_checksum sum_bytes memcmp
checks j small = elim (ℕ_discrete j 2) [
  | yes e ↦ rw e refl
  | no ne ↦
      let other : (0x1000 * j == 0x2000) ≡ false = ground (arith, ne) in
      let wrong : (j == 2) ≡ false = ground (arith, ne) in rw (other, wrong) refl
]
