-- ===== src/Acpi/Find.antt =====
-- `acpi_find_sdt_table` finds the first table of the RSDT that passes the check.
use native.Mathlib.Decide.{ℕ_discrete}
use knut_os.Base.{
  ℕ, zero, suc, ◌+◌, ◌/◌, ◌≤◌, ◌<◌, ◌≡◌, ◌≢◌, ◌*◌, ◌^◌, refl, arith, if◌then◌else◌, Bool, true,
  false, List, Option, some,
}
use knut_os.Mem.{phys_to_higher_half_data}
use knut_os.Acpi.{
  SdtHeader, check_sdt_header, find_from, find_sdt_table, entry_count, sizeof_header,
}

-- What a search of the entries from `i` up to `stop` gives, where `result j` is that of the check of
-- entry `j`.
pub data Found (la57 : Bool) (entries result : ℕ → ℕ) (i stop : ℕ) (r : Option ℕ) : Type 0 where
  absent :
      r ≡ some 0 → ((j : ℕ) → i ≤ j → j < stop → result j ≢ 0) → Found la57 entries result i stop r
  found :
      (k : ℕ)
      → r ≡ some (phys_to_higher_half_data la57 (entries k))
      → i ≤ k
      → k < stop
      → result k ≡ 0
      → ((j : ℕ) → i ≤ j → j < k → result j ≢ 0)
      → Found la57 entries result i stop r

module _ (la57 : Bool) (header_at : ℕ → SdtHeader) (entries : ℕ → ℕ) (signature : List ℕ)
    (result : ℕ → ℕ) where
  Checks : ℕ → Type 0
  Checks stop =
      (j : ℕ) → j < stop → check_sdt_header (header_at (entries j)) signature ≡ some (result j)

  below_next :
      (i stop : ℕ)
      → result i ≢ 0
      → ((j : ℕ) → i + 1 ≤ j → j < stop → result j ≢ 0)
      → (j : ℕ) → i ≤ j
      → j < stop
      → result j ≢ 0
  below_next i stop ne h j low high = elim (ℕ_discrete j i) [
    | yes e ↦ rw e ne
    | no other ↦ h j (omega arith) high
  ]

  Found-next :
      (i stop : ℕ) {r : Option ℕ}
      → result i ≢ 0
      → Found la57 entries result (i + 1) stop r
      → Found la57 entries result i stop r
  Found-next i stop ne (absent e h) = absent e (below_next i stop ne h)
  Found-next i stop ne (found k e low high z h) =
      found k e (omega arith) high z (below_next i k ne h)

  find_from-Found :
      (left i stop : ℕ)
      → Checks stop
      → i + left ≡ stop
      → Found la57 entries result i stop (find_from la57 header_at entries signature left i)
  unfolding find_from Checks
  find_from-Found zero i stop checks end = absent refl (λ j low high. absurd (omega arith))
  find_from-Found (suc left) i stop checks end = elim (ℕ_discrete (result i) 0) [
    | yes z ↦
        found i (rw (checks i (omega arith)) (ground (arith, z))) (omega arith) (omega arith) z
          (λ j low high. absurd (omega arith))
    | no ne ↦ Found-next i stop ne (
        let rest = find_from-Found left (i + 1) stop checks (omega arith) in
        let step : find_from la57 header_at entries signature (suc left) i
            ≡ find_from la57 header_at entries signature left (i + 1) =
          rw (checks i (omega arith)) (ground (arith, ne)) in
        rw step rest)
  ]

-- Where the check of every table that the RSDT lists comes to an end, `acpi_find_sdt_table` gives
-- the higher half address of the first one among those it looks at that passes, or NULL if none
-- does. It looks at every 32-bit entry, but only at the first half of them where the machine has an
-- XSDT.
pub find_sdt_table-Found :
    (la57 : Bool) (header_at : ℕ → SdtHeader) (rsdt_length : ℕ) (entries : ℕ → ℕ) (has_xsdt : Bool)
    (signature : List ℕ) (result : ℕ → ℕ) (count : ℕ)
    → rsdt_length ≡ sizeof_header + 4 * count
    → rsdt_length < 2 ^ 32
    → ((j : ℕ) → j < count → check_sdt_header (header_at (entries j)) signature ≡ some (result j))
    → Found la57 entries result 0
        (if has_xsdt then count / 2 else count)
        (find_sdt_table la57 header_at rsdt_length entries has_xsdt signature)
unfolding find_sdt_table Checks
find_sdt_table-Found la57 header_at rsdt_length entries true signature result count size small
      checks =
    let half : entry_count rsdt_length true ≡ count / 2 = omega (arith, size, small) in
    rw half (
      find_from-Found la57 header_at entries signature result (count / 2) 0 (count / 2)
        (λ j lt. checks j (omega arith)) (omega arith))
find_sdt_table-Found la57 header_at rsdt_length entries false signature result count size small
      checks =
    let all : entry_count rsdt_length false ≡ count = omega (arith, size, small) in
    rw all
      (find_from-Found la57 header_at entries signature result count 0 count checks (omega arith))
