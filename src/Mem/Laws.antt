-- ===== src/Mem/Laws.antt =====
-- Alignment is rounding to a multiple of the page size, and the higher half is a shift that can be
-- undone.
use knut_os.Base.{ℕ, ◌+◌, ◌*◌, ◌/◌, ◌%◌, ◌^◌, ◌≤◌, ◌<◌, ◌≡◌, ◌≢◌, ◌↔◌, arith, Bool, true, false}
use knut_os.Bits.{bit_at, bit_and_mask, bit_and_window, bit_at-eq-div}
use knut_os.Mem.{
  page_size, align_down, align_up, is_la57_enabled, phys_to_higher_half_data,
  higher_half_data_to_phys, phys_to_higher_half_code, higher_half_code_to_phys,
}

pub align_down_page : (x : ℕ) → x < 2 ^ 64 → align_down x page_size ≡ x / page_size * page_size
unfolding align_down
align_down_page x h = omega (arith, bit_and_window 52 12 x)

pub align_up_page :
    (x : ℕ) → x + page_size ≤ 2 ^ 64 → align_up x page_size ≡ (x + 4095) / page_size * page_size
unfolding align_up
align_up_page x h = ground (arith, bit_and_window 52 12 (x + 4095))

-- `ALIGN_DOWN` to a page gives the last multiple of the page size that is not above the address,
-- `ALIGN_UP` the first that is not below it, as long as that one is a `uintptr_t`.
pub align_rounds :
    (x : ℕ)
    → x + page_size ≤ 2 ^ 64
    → (align_down x page_size % page_size ≡ 0)
      × (align_down x page_size ≤ x)
      × (x < align_down x page_size + page_size)
      × (align_up x page_size % page_size ≡ 0)
      × (x ≤ align_up x page_size)
      × (align_up x page_size < x + page_size)
align_rounds x h = omega (arith, align_down_page x (omega arith), align_up_page x h)

-- Going to the higher half and back gives the address again, for data under both paging modes and
-- for code.
pub higher_half_roundtrip :
    (la57 : Bool) (a : ℕ)
    → a < 2 ^ 64
    → (higher_half_data_to_phys la57 (phys_to_higher_half_data la57 a) ≡ a)
      × (phys_to_higher_half_data la57 (higher_half_data_to_phys la57 a) ≡ a)
      × (higher_half_code_to_phys (phys_to_higher_half_code a) ≡ a)
unfolding phys_to_higher_half_data higher_half_data_to_phys phys_to_higher_half_code
    higher_half_code_to_phys
higher_half_roundtrip true a h = (omega arith, omega arith, omega arith)
higher_half_roundtrip false a h = (omega arith, omega arith, omega arith)

-- 5-level paging is on exactly when bit 12 of cr4 is set.
pub is_la57_enabled_iff : (cr4 : ℕ) → (is_la57_enabled cr4 ≡ true) ↔ (bit_at cr4 12 ≡ 1)
unfolding is_la57_enabled
is_la57_enabled_iff cr4 = ground (arith, bit_and_mask 1 (cr4 / 2 ^ 12), bit_at-eq-div cr4 12)

-- A physical address taken for one of the higher half is off by a multiple of `2 ^ 32` pages.
pub physical_page :
    (la57 : Bool) (a : ℕ)
    → a < 2 ^ 44
    → higher_half_data_to_phys la57 a / page_size % 2 ^ 32 ≡ a / page_size
unfolding higher_half_data_to_phys
physical_page true a h = omega arith
physical_page false a h = omega arith

pub higher_half_page :
    (la57 : Bool) (k : ℕ)
    → k < 2 ^ 32
    → higher_half_data_to_phys la57 (phys_to_higher_half_data la57 (k * page_size)) / page_size ≡ k
higher_half_page la57 k h =
    omega (arith, (higher_half_roundtrip la57 (k * page_size) (omega arith)).0)

-- No page below 16 TiB has NULL for its higher half address.
pub higher_half-ne-zero :
    (la57 : Bool) (k : ℕ) → k < 2 ^ 32 → phys_to_higher_half_data la57 (k * page_size) ≢ 0
unfolding phys_to_higher_half_data
higher_half-ne-zero true k h = omega arith
higher_half-ne-zero false k h = omega arith

-- The higher half address of such a page is aligned, and the page after it does not wrap around.
pub higher_half_fits :
    (la57 : Bool) (k : ℕ)
    → k < 2 ^ 32
    → (phys_to_higher_half_data la57 (k * page_size) % page_size ≡ 0)
      × (phys_to_higher_half_data la57 (k * page_size) + page_size < 2 ^ 64)
unfolding phys_to_higher_half_data
higher_half_fits true k h = (omega arith, omega arith)
higher_half_fits false k h = (omega arith, omega arith)
