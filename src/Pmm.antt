-- ===== src/Pmm.antt =====
-- src/kernel/memory/pmm.c and pmm.h: physical memory, page by page.
-- The log lines, `get_memory_map_entry_type` apart, have no effect on the state and are left out.
pub mod Find
pub mod Range
pub mod Alloc
pub mod Roundtrip
pub mod Owners
pub mod Boot
pub mod Samples
mod Tests
use knut_os.Base.{
  ℕ, zero, suc, ◌+◌, ◌-◌, ◌*◌, ◌/◌, ◌%◌, ◌^◌, ◌==◌, ltb, leb, if◌then◌else◌, Bool, ◌||◌, not, List,
  [], ◌∷◌, Option, none, some, ◌>>=◌, ◌>>◌,
}
use knut_os.Base.Words.{u32, add64, sub64, mul64}
use knut_os.Mem.{
  page_size, kb_to_pages, align_down, align_up, phys_to_higher_half_data, higher_half_data_to_phys,
}
use knut_os.Str.{memset}
use knut_os.Bitmap.{Bitmap, set_bit, unset_bit, check_bit, bit_to_page, page_to_bit}

-- `struct stivale2_mmap_entry`, and the values of its `type`.
pub record MmapEntry : Type 0 where
  pub base : ℕ
  pub len : ℕ
  pub kind : ℕ

abbrev pub mmap_usable : ℕ
mmap_usable = 1

abbrev pub mmap_bootloader_reclaimable : ℕ
mmap_bootloader_reclaimable = 0x1000

abbrev pub mmap_kernel_and_modules : ℕ
mmap_kernel_and_modules = 0x1001

-- `pmm_info` (its two counts are `uint32_t`), `highest_page`, the address in `bitmap.map` and the
-- bitmap.
pub record Pmm : Type 0 where
  pub memory_size : ℕ
  pub max_pages : ℕ
  pub used_pages : ℕ
  pub memory_map : List MmapEntry
  pub highest_page : ℕ
  pub map_address : ℕ
  pub bitmap : Bitmap

-- The inner loop of `pmm_find_first_free_page` with `left` rounds to go; `some none` when it ends.
scan : Bitmap → ℕ → ℕ → Option (Option ℕ)
scan b zero i = some none
scan b (suc left) i =
    let rest = scan b left (i + 1) in
    do value ← check_bit b i; if value == 0 then some (some (bit_to_page i)) else rest

-- The outer loop, `page_count` rounds of the same scan.
rounds : Pmm → ℕ → Option ℕ
rounds p zero = some 0
rounds p (suc counter) =
    let rest = rounds p counter in
    do
      found ← scan p.bitmap (page_to_bit p.highest_page) 0
      elim found [ some page ↦ some page | none ↦ rest ]

-- The address of a page; 0 is NULL.
pub find_first_free_page : Pmm → ℕ → Option ℕ
unfolding scan rounds
find_first_free_page p page_count = if page_count == 0 then some 0 else rounds p page_count

-- The loops over `index + i`.
pub set_bits : ℕ → ℕ → Bitmap → Option Bitmap
set_bits zero i b = some b
set_bits (suc left) i b = do b' ← set_bit b i; set_bits left (add64 i 1) b'

pub unset_bits : ℕ → ℕ → Bitmap → Option Bitmap
unset_bits zero i b = some b
unset_bits (suc left) i b = do b' ← unset_bit b i; unset_bits left (add64 i 1) b'

-- The second half of `pmm_alloc`, once a page is found.
take_pages : Bool → Pmm → ℕ → ℕ → Option (ℕ × Pmm)
take_pages la57 p page_count pointer = do
  let index = pointer / page_size
  b ← set_bits page_count index p.bitmap
  some (
    phys_to_higher_half_data la57 (mul64 index page_size),
    record p { bitmap = b; used_pages = u32 (p.used_pages + page_count) },
  )

-- The pointer returned, NULL on failure, and the new state.
pub alloc : Bool → Pmm → ℕ → Option (ℕ × Pmm)
unfolding take_pages
alloc la57 p page_count = if p.used_pages == 0 then some (0, p) else do
  pointer ← find_first_free_page p page_count
  if pointer == 0 then some (0, p) else take_pages la57 p page_count pointer

pub free : Bool → Pmm → ℕ → ℕ → Option Pmm
free la57 p pointer page_count = do
  let index = higher_half_data_to_phys la57 pointer / page_size
  b ← unset_bits page_count index p.bitmap
  some (record p { bitmap = b; used_pages = u32 (sub64 p.used_pages page_count) })
