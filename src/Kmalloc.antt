-- ===== src/Kmalloc.antt =====
-- src/libs/libk/alloc/kmalloc.c and kmalloc.h: one interface to the allocators of pages and of
-- objects. `none` is a fault, or a loop that never ends.
pub mod Rounding
pub mod Small
pub mod Again
pub mod Fresh
pub mod Big
pub mod Samples
mod Tests
use knut_os.Base.{
  ℕ, zero, suc, ◌+◌, ◌*◌, ◌/◌, ◌^◌, ◌%◌, ◌==◌, ltb, leb, if◌then◌else◌, Bool, not, List, Option,
  none, some, ◌>>=◌, ◌>>◌, require, bit_and,
}
use knut_os.Base.Words.{add64, sub64}
use knut_os.Mem.{page_size}
use knut_os.Pmm
use knut_os.Pmm.{Pmm}
use knut_os.Slab
use knut_os.Slab.{Slab}

-- Both allocators, and the words of memory that hold metadata, by address.
pub record Heap : Type 0 where
  pub pmm : Pmm
  pub slabs : List Slab
  pub memory : ℕ → ℕ

-- `sizeof(kmalloc_metadata_t)`.
abbrev pub metadata_size : ℕ
metadata_size = 8

-- `metadata->size = value`.
abbrev pub write : (ℕ → ℕ) → ℕ → ℕ → ℕ → ℕ
write memory address value other = if other == address then value else memory other

-- The loop of `next_pow_of_two`, on fuel. The shift drops the bit that leaves the `size_t`.
pub shift_until : ℕ → ℕ → ℕ → Option ℕ
shift_until num zero result = none
shift_until num (suc fuel) result =
    let rest = shift_until num fuel (result * 2 % 2 ^ 64) in
    if ltb result num then rest else some result

-- 63 rounds are enough wherever the loop ends.
pub next_pow_of_two : ℕ → Option ℕ
unfolding shift_until
next_pow_of_two num = shift_until num 63 2

-- The two branches of `kmalloc`, once the size is rounded.
pub big_alloc : Bool → Heap → ℕ → Option (ℕ × Heap)
big_alloc la57 h new_size = do
  (ptr, pmm) ← Pmm.alloc la57 h.pmm (new_size / page_size + 1)
  require (not (ptr == 0))
  some (add64 ptr page_size, record h { pmm = pmm; memory = write h.memory ptr new_size })

pub small_alloc : Heap → ℕ → Option (ℕ × Heap)
small_alloc h new_size = do
  (ptr, slabs) ← Slab.alloc h.slabs new_size
  require (not (ptr == 0))
  some (add64 ptr metadata_size, record h { slabs = slabs; memory = write h.memory ptr new_size })

pub kmalloc : Bool → Heap → ℕ → Option (ℕ × Heap)
unfolding next_pow_of_two big_alloc small_alloc
kmalloc la57 h size = do
  new_size ← next_pow_of_two size
  (if leb page_size new_size
      then big_alloc la57 h new_size
      else (do padded ← next_pow_of_two (add64 size metadata_size); small_alloc h padded))

pub kfree : Bool → Heap → ℕ → Option Heap
kfree la57 h ptr =
    if ptr == 0
    then some h
    else if bit_and ptr 0xFFF == 0
    then (do
      pmm ← Pmm.free la57 h.pmm (sub64 ptr page_size) (h.memory (sub64 ptr page_size) / 4096 + 1)
      some (record h { pmm = pmm }))
    else (do slabs ← Slab.free h.slabs (sub64 ptr metadata_size); some (record h { slabs = slabs }))
