-- ===== src/Pmm/Boot/Size.antt =====
-- How many bytes `pmm_init` sets aside for the bitmap, and whether they are enough.
use knut_os.Base.{ℕ, ◌+◌, ◌*◌, ◌/◌, ◌%◌, ◌^◌, ◌≤◌, ◌<◌, ◌≡◌, ◌≢◌, ◌↔◌, ◌⊎◌, arith}
use knut_os.Mem.{page_size}
use knut_os.Mem.Laws.{align_down_page, align_up_page}
use knut_os.Bitmap.{page_to_bit}
use knut_os.Pmm.Boot.{bitmap_byte_size}

pub bitmap_byte_size_lem :
    (highest : ℕ)
    → highest < 2 ^ 63
    → bitmap_byte_size highest ≡ (highest / page_size / 8 + 4095) / page_size * page_size
unfolding bitmap_byte_size
bitmap_byte_size_lem highest h =
    ground (arith, align_down_page highest, align_up_page (highest / page_size / 8))

pub bitmap_covers_iff :
    (highest : ℕ)
    → highest < 2 ^ 63
    → (page_to_bit highest ≤ 8 * bitmap_byte_size highest)
      ↔ ((page_to_bit highest % 8 ≡ 0) ⊎ (page_to_bit highest / 8 % page_size ≢ 0))
bitmap_covers_iff highest h = ground (arith, bitmap_byte_size_lem highest h)
