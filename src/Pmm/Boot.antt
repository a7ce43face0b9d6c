-- ===== src/Pmm/Boot.antt =====
-- `pmm_init` of src/kernel/memory/pmm.c: the bitmap is laid out from the boot loader's memory map.
pub mod Size
pub mod Usable
pub mod Init
mod Tests
use knut_os.Base.{
  ℕ, zero, suc, ◌+◌, ◌-◌, ◌/◌, ◌<◌, ◌==◌, ltb, leb, if◌then◌else◌, Bool, ◌&&◌, ◌||◌, List, [], ◌∷◌,
  Option, none, some, ◌>>=◌,
}
use mathlib.Core.Option
use knut_os.Base.Words.{u32, add64}
use knut_os.Mem.{page_size, kb_to_pages, align_down, align_up, phys_to_higher_half_data}
use knut_os.Str.{memset}
use knut_os.Bitmap.{Bitmap, set_bit}
use knut_os.Pmm.{
  MmapEntry, mmap_usable, mmap_bootloader_reclaimable, mmap_kernel_and_modules, Pmm, free,
}

-- The types of memory that count towards the size of the bitmap.
counts_as_memory : MmapEntry → Bool
counts_as_memory e =
    e.kind == mmap_usable
    || e.kind == mmap_bootloader_reclaimable
    || e.kind == mmap_kernel_and_modules

abbrev pub top : MmapEntry → ℕ
top e = add64 e.base e.len

-- Step 2: the end of the highest such entry.
pub highest_top : ℕ → List MmapEntry → ℕ
unfolding counts_as_memory
highest_top highest [] = highest
highest_top highest (e ∷ es) =
    highest_top (if counts_as_memory e && ltb highest (top e) then top e else highest) es

-- Step 3: the size of the bitmap in bytes.
unfoldable pub bitmap_byte_size : ℕ → ℕ
unfolding align_down align_up
bitmap_byte_size highest_page =
    align_up (align_down highest_page page_size / page_size / 8) page_size

-- Step 4: the first usable entry with room for the bitmap gives up its start. `none` where there is
-- no such entry: `bitmap.map` stays NULL, and step 5 or 7 writes through it.
pub host : ℕ → List MmapEntry → Option (ℕ × List MmapEntry)
host size [] = none
host size (e ∷ es) =
    let rest = host size es in
    if e.kind == mmap_usable && leb size e.len
    then some (e.base, record e { base = add64 e.base size; len = e.len - size } ∷ es)
    else Option.map (λ found. (found.0, e ∷ found.1)) rest

-- The `size` bytes of memory from `address` on.
pub block : (ℕ → ℕ) → ℕ → ℕ → List ℕ
block memory address zero = []
block memory address (suc size) = memory address ∷ block memory (address + 1) size

-- Step 6. The base of an entry is a physical address.
pub free_usable : Bool → Pmm → List MmapEntry → Option Pmm
free_usable la57 p [] = some p
free_usable la57 p (e ∷ es) = do
  q ← (if e.kind == mmap_usable then free la57 p e.base (e.len / page_size) else some p)
  free_usable la57 q es

-- What step 6 starts from. Every page counts as used.
abbrev pub laid_out : Bool → ℕ → ℕ → List MmapEntry → List ℕ → Pmm
laid_out la57 highest address carved bytes = record {
  memory_size = highest;
  max_pages = u32 (kb_to_pages highest);
  used_pages = u32 (kb_to_pages highest);
  memory_map = carved;
  highest_page = highest;
  map_address = phys_to_higher_half_data la57 address;
  bitmap = record { map = bytes; size = bitmap_byte_size highest };
}

-- `memory` is what physical memory holds before. The globals start out as zero.
pub init : Bool → (ℕ → ℕ) → List MmapEntry → Option Pmm
unfolding highest_top host block free_usable
init la57 memory entries = do
  let highest = highest_top 0 entries
  let size = bitmap_byte_size highest
  (address, carved) ← host size entries
  bytes ← memset (block memory address size) 0xFF size
  p ← free_usable la57 (laid_out la57 highest address carved bytes) carved
  b ← set_bit p.bitmap 0
  some (record p { bitmap = b })
