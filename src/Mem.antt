-- ===== src/Mem.antt =====
-- src/kernel/memory/mem.h: pages, alignment and the higher half. An address is a `uintptr_t`.
-- `la57` is what `is_la57_enabled` reads from the register cr4 at the time of the call.
pub mod Laws
mod Tests
use knut_os.Base.{ℕ, ◌+◌, ◌-◌, ◌*◌, ◌/◌, ◌%◌, ◌^◌, bit_and, Bool, not, ◌==◌, if◌then◌else◌}
use knut_os.Base.Words.{add64, sub64, mul64, not64}

abbrev pub higher_half_data_lv5 : ℕ
higher_half_data_lv5 = 0xFF00000000000000

abbrev pub higher_half_data_lv4 : ℕ
higher_half_data_lv4 = 0xFFFF800000000000

abbrev pub higher_half_code : ℕ
higher_half_code = 0xFFFFFFFF80000000

abbrev pub page_size : ℕ
page_size = 4096

abbrev pub kb_to_pages : ℕ → ℕ
kb_to_pages kb = mul64 kb 1024 / page_size

unfoldable pub align_down : ℕ → ℕ → ℕ
align_down addr align = bit_and addr (not64 (align - 1))

unfoldable pub align_up : ℕ → ℕ → ℕ
align_up addr align = bit_and (add64 addr (align - 1)) (not64 (align - 1))

unfoldable pub is_page_aligned : ℕ → Bool
is_page_aligned num = num % page_size == 0

-- Bit 12 of cr4.
unfoldable pub is_la57_enabled : ℕ → Bool
is_la57_enabled cr4 = not (bit_and (cr4 / 2 ^ 12) 1 == 0)

unfoldable pub phys_to_higher_half_data : Bool → ℕ → ℕ
phys_to_higher_half_data la57 address =
    if la57 then add64 higher_half_data_lv5 address else add64 higher_half_data_lv4 address

unfoldable pub phys_to_higher_half_code : ℕ → ℕ
phys_to_higher_half_code address = add64 higher_half_code address

unfoldable pub higher_half_data_to_phys : Bool → ℕ → ℕ
higher_half_data_to_phys la57 address =
    if la57 then sub64 address higher_half_data_lv5 else sub64 address higher_half_data_lv4

unfoldable pub higher_half_code_to_phys : ℕ → ℕ
higher_half_code_to_phys address = sub64 address higher_half_code
