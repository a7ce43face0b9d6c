-- ===== src/Bitmap.antt =====
-- src/libs/libk/alloc/bitmap.c and bitmap.h: one bit for each page of physical memory.
-- Every `bit` is an `int` in the source and a `size_t` or `uint64_t` at its callers; a negative
-- one, and a byte outside the map, is a fault.
pub mod Laws
mod Tests
use knut_os.Base.{
  ℕ, ◌-◌, ◌*◌, ◌/◌, ◌%◌, ◌^◌, bit_and, bit_or, List, Option, some, ◌>>=◌, get_elem?, set,
}
use knut_os.Base.Words.{u8, mul64, not32, as_int}

-- `BITMAP_t`: the bytes behind `map`, and the size that its owner gave it.
pub record Bitmap : Type 0 where
  pub map : List ℕ
  pub size : ℕ

-- `map[n / 8]` is overwritten.
abbrev write_byte : Bitmap → ℕ → ℕ → Bitmap
write_byte b n byte = record b { map = set b.map (n / 8) byte }

unfoldable pub set_bit : Bitmap → ℕ → Option Bitmap
set_bit b bit = do
  n ← as_int bit
  byte ← get_elem? b.map (n / 8)
  some (write_byte b n (u8 (bit_or byte (2 ^ (n % 8)))))

unfoldable pub unset_bit : Bitmap → ℕ → Option Bitmap
unset_bit b bit = do
  n ← as_int bit
  byte ← get_elem? b.map (n / 8)
  some (write_byte b n (u8 (bit_and byte (not32 (2 ^ (n % 8))))))

-- The value is nonzero, and not always 1, where the bit is set.
unfoldable pub check_bit : Bitmap → ℕ → Option ℕ
check_bit b bit = do
  n ← as_int bit
  byte ← get_elem? b.map (n / 8)
  some (u8 (bit_and byte (2 ^ (n % 8))))

-- `BIT_TO_PAGE` and `PAGE_TO_BIT`.
abbrev pub bit_to_page : ℕ → ℕ
bit_to_page bit = mul64 bit 0x1000

abbrev pub page_to_bit : ℕ → ℕ
page_to_bit page = page / 0x1000
