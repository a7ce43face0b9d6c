-- ===== src/Acpi/Checksum.antt =====
-- The checksum of a table, and the tables whose checksum is never done.
use knut_os.Base.{
  ℕ, zero, suc, ◌+◌, ◌%◌, ◌≤◌, ◌<◌, ◌≡◌, ◌≢◌, ◌↔◌, refl, arith, ◌==◌, leb, if◌then◌else◌, none,
  some,
}
use knut_os.Base.Words.{u8}
use knut_os.Acpi.{SdtHeader, sum_bytes, verify_sdt_header_checksum, rsdp_init}

-- The sum of the `n` bytes from `i` on.
abbrev pub total : (ℕ → ℕ) → ℕ → ℕ → ℕ
total byte i zero = 0
total byte i (suc n) = byte i + total byte (i + 1) n

sum_bytes-total :
    (fuel n : ℕ) (byte : ℕ → ℕ) (length i checksum : ℕ)
    → n < fuel
    → i + n ≡ length
    → length < 256
    → checksum < 256
    → sum_bytes fuel byte length i checksum ≡ some ((checksum + total byte i n) % 256)
unfolding sum_bytes
sum_bytes-total zero n byte length i checksum enough end small byte_sized = absurd (omega arith)
sum_bytes-total (suc fuel) zero byte length i checksum enough end small byte_sized = ground arith
sum_bytes-total (suc fuel) (suc n) byte length i checksum enough end small byte_sized =
    let next : u8 (i + 1) ≡ i + 1 = omega arith in
    rw next (
      ground (
        arith,
        sum_bytes-total fuel n byte length (i + 1) (u8 (checksum + byte i)) (omega arith)
            (omega arith) small (omega arith),
      ))

verdict : (t : ℕ) → ((if (0 + t) % 256 == 0 then zero else 1) ≡ 0) ↔ (t % 256 ≡ 0)
verdict t = ground arith

-- For tables of up to 255 bytes the check ends, and finds 0 exactly when the bytes of the table add
-- up to a multiple of 256. For longer ones it never ends, whatever the fuel: the counter is a
-- `uint8_t` and stays below the length.
pub verify_sdt_header_checksum-total :
    (h : SdtHeader)
    → (h.length < 256
        → (r : ℕ) × (verify_sdt_header_checksum h ≡ some r)
          × ((r ≡ 0) ↔ (total h.byte 0 h.length % 256 ≡ 0)))
      × (256 ≤ h.length → (fuel : ℕ) → sum_bytes fuel h.byte h.length 0 0 ≡ none)
unfolding verify_sdt_header_checksum sum_bytes
verify_sdt_header_checksum-total h = (
  (λ small.
      let sum =
        sum_bytes-total 256 h.length h.byte h.length 0 0 (omega arith) (omega arith) small
          (omega arith) in
      (
        (if (0 + total h.byte 0 h.length) % 256 == 0 then 0 else 1),
        rw sum refl,
        verdict (total h.byte 0 h.length),
      )),
  (λ large fuel. endless h.byte h.length large fuel 0 0 (omega arith)),
)
  where
    endless :
        (byte : ℕ → ℕ) (length : ℕ)
        → 256 ≤ length
        → (fuel i checksum : ℕ) → i < 256
        → sum_bytes fuel byte length i checksum ≡ none
    endless byte length large zero i checksum below = refl
    endless byte length large (suc fuel) i checksum below =
        ground (
          arith,
          endless byte length large fuel (u8 (i + 1)) (u8 (checksum + byte i)) (omega arith),
        )

-- The kernel goes on after `rsdp_init` exactly when the first 20 bytes add up to a multiple of 256.
pub rsdp_init-total :
    (byte : ℕ → ℕ)
    → (total byte 0 20 % 256 ≡ 0 → rsdp_init byte ≡ some (leb 2 (byte 15)))
      × (total byte 0 20 % 256 ≢ 0 → rsdp_init byte ≡ none)
unfolding rsdp_init
rsdp_init-total byte =
    let sum =
      sum_bytes-total 21 20 byte 20 0 0 (omega arith) (omega arith) (omega arith) (omega arith) in
    ((λ good. rw sum (ground (arith, good))), (λ bad. rw sum (ground (arith, bad))))
