-- ===== src/Acpi.antt =====
-- src/kernel/firmware/acpi/acpi.c, tables/rsdp.c and their headers: the tables that the firmware
-- leaves in memory. The log lines are left out.
pub mod Checksum
pub mod Find
pub mod Sound
mod Tests
use knut_os.Base.{
  ℕ, zero, suc, ◌+◌, ◌-◌, ◌/◌, ◌==◌, ltb, leb, if◌then◌else◌, Bool, true, false, ◌&&◌, List, [],
  ◌∷◌, Option, none, some, ◌>>=◌,
}
use knut_os.Base.Words.{u8, sub64}
use knut_os.Base.Int.{ℤ, pos, negsuc}
use knut_os.Str.{memcmp}
use knut_os.Mem.{phys_to_higher_half_data}

-- `sdt_header_t`, as far as it is read, with the bytes of the table from its start.
pub record SdtHeader : Type 0 where
  pub signature : List ℕ
  pub length : ℕ
  pub byte : ℕ → ℕ

-- The loop that sums up bytes, on fuel, with `i` a `uint8_t`; `none` where it goes on.
unfoldable pub sum_bytes : ℕ → (ℕ → ℕ) → ℕ → ℕ → ℕ → Option ℕ
sum_bytes zero byte length i checksum = none
sum_bytes (suc fuel) byte length i checksum =
    let rest = sum_bytes fuel byte length (u8 (i + 1)) (u8 (checksum + byte i)) in
    if ltb i length then rest else some checksum

-- 0 where the checksum is right, else 1. 256 rounds are enough wherever the loop ends.
unfoldable pub verify_sdt_header_checksum : SdtHeader → Option ℕ
verify_sdt_header_checksum h = do
  checksum ← sum_bytes 256 h.byte h.length 0 0
  some (if checksum == 0 then 0 else 1)

abbrev pub is_zero : ℤ → Bool
is_zero (pos n) = n == 0
is_zero (negsuc n) = false

unfoldable pub check_sdt_header : SdtHeader → List ℕ → Option ℕ
check_sdt_header h signature =
    let verified = verify_sdt_header_checksum h in
    do
      difference ← memcmp h.signature signature 4
      if is_zero difference
          then (do result ← verified; some (if result == 0 then 0 else 1))
          else some 1

-- `sizeof(sdt_header_t)`.
abbrev pub sizeof_header : ℕ
sizeof_header = 36

abbrev pub entry_count : ℕ → Bool → ℕ
entry_count length has_xsdt = sub64 length sizeof_header / (if has_xsdt then 8 else 4)

-- The loop of `acpi_find_sdt_table` from entry `i` on; the entries are 32-bit physical addresses, and
-- `header_at` is the table at an address.
pub find_from : Bool → (ℕ → SdtHeader) → (ℕ → ℕ) → List ℕ → ℕ → ℕ → Option ℕ
find_from la57 header_at entries signature zero i = some 0
find_from la57 header_at entries signature (suc left) i =
    let rest = find_from la57 header_at entries signature left (i + 1) in
    do
      result ← check_sdt_header (header_at (entries i)) signature
      if result == 0 then some (phys_to_higher_half_data la57 (entries i)) else rest

pub find_sdt_table : Bool → (ℕ → SdtHeader) → ℕ → (ℕ → ℕ) → Bool → List ℕ → Option ℕ
find_sdt_table la57 header_at rsdt_length entries has_xsdt signature =
    find_from la57 header_at entries signature (entry_count rsdt_length has_xsdt) 0

-- What `rsdp_init` leaves in `has_xsdt_var`; `none` where the checksum of the first 20 bytes is
-- wrong, and the kernel halts.
unfoldable pub rsdp_init : (ℕ → ℕ) → Option Bool
rsdp_init byte = do
  checksum ← sum_bytes 21 byte 20 0 0
  if checksum == 0 then some (leb 2 (byte 15)) else none
