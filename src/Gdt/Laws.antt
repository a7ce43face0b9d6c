-- ===== src/Gdt/Laws.antt =====
-- The 64 bits of a segment descriptor, and the address that a descriptor of a task state segment
-- gives.
use knut_os.Base.{ℕ, ◌+◌, ◌*◌, ◌/◌, ◌%◌, ◌^◌, ◌<◌, ◌≡◌, refl, arith}
use knut_os.Bits.{bit_and_mask}
use knut_os.Gdt.{GdtDescriptor, sizeof_gdt, init}

-- A descriptor as the number that the processor reads.
abbrev pub encode : GdtDescriptor → ℕ
encode d =
    d.limit_15_0
    + d.base_15_0 * 2 ^ 16
    + d.base_23_16 * 2 ^ 32
    + d.kind * 2 ^ 40
    + d.limit_19_16_and_flags * 2 ^ 48
    + d.base_31_24 * 2 ^ 56

-- The base in the two descriptors of a task state segment: bits 16 to 39 and 56 to 63 of the first
-- number, and the low half of the second.
abbrev pub tss_address : ℕ → ℕ → ℕ
tss_address low high =
    low / 2 ^ 16 % 2 ^ 24 + low / 2 ^ 56 % 2 ^ 8 * 2 ^ 24 + high % 2 ^ 32 * 2 ^ 32

-- Whether a descriptor is a present segment, by bit 47, and whether it holds code, by bit 43.
abbrev pub present : ℕ → ℕ
present d = d / 2 ^ 47 % 2

abbrev pub executable : ℕ → ℕ
executable d = d / 2 ^ 43 % 2

-- What `gdt_init` loads: the processor reads the address of the task state segment back from the
-- two descriptors at 0x40, the segment of 0x08 is present code and that of 0x10 present data, the
-- first entry is empty, and the limit is the last byte of the table.
pub init-tss_address :
    (tss_base gdt_address : ℕ)
    → tss_base < 2 ^ 64
    → let loaded = init tss_base gdt_address in
      (tss_address (encode loaded.0.tss_low) (encode loaded.0.tss_high) ≡ tss_base)
      × (present (encode loaded.0.kernel_code) ≡ 1)
      × (executable (encode loaded.0.kernel_code) ≡ 1)
      × (present (encode loaded.0.kernel_data) ≡ 1)
      × (executable (encode loaded.0.kernel_data) ≡ 0)
      × (encode loaded.0.null ≡ 0)
      × (loaded.2.limit + 1 ≡ sizeof_gdt)
      × (loaded.2.base ≡ gdt_address)
unfolding init
init-tss_address tss_base gdt_address small = (
  omega (
    arith,
    bit_and_mask 16 tss_base,
    bit_and_mask 8 (tss_base / 2 ^ 16),
    bit_and_mask 8 (tss_base / 2 ^ 24),
    bit_and_mask 16 (tss_base / 2 ^ 32),
    bit_and_mask 16 (tss_base / 2 ^ 48),
  ),
  refl,
  refl,
  refl,
  refl,
  refl,
  refl,
  refl,
)
