-- ===== src/Slab/Init.antt =====
-- `slab_init` of src/kernel/memory/slab.c: the objects are cut out of pages of the physical memory
-- manager, one after the other.
pub mod Layout
pub mod Whole
pub mod Starts
pub mod First
pub mod Samples
mod Tests
use knut_os.Base.{
  ℕ, zero, suc, ◌+◌, ◌-◌, ◌==◌, if◌then◌else◌, Bool, false, ◌||◌, List, [], ◌∷◌, ◌++◌, Option, some,
  ◌>>=◌, get_elem?, replicate,
}
use knut_os.Base.Words.{u32, add64, sub64}
use knut_os.Mem.{page_size}
use knut_os.Pmm
use knut_os.Pmm.{Pmm}
use knut_os.Slab.{Slab, slab_size, objects_per_slab, slab_count, max_objects_per_slab}

-- The globals `internal_mem_ptr`, `internal_mem_len` and `page_alloc_count`, over the allocator of
-- pages.
pub record Pool : Type 0 where
  pub pmm : Pmm
  pub internal_mem_ptr : ℕ
  pub internal_mem_len : ℕ
  pub page_alloc_count : ℕ

-- A new page where there is none yet, or where the last one is used up.
pub refill : Bool → Pool → Option Pool
refill la57 pool =
    if pool.internal_mem_ptr == 0 || pool.internal_mem_ptr == pool.internal_mem_len
    then (do
      (pointer, pmm) ← Pmm.alloc la57 pool.pmm 1
      some (record {
        pmm = pmm;
        internal_mem_ptr = pointer;
        internal_mem_len = add64 pointer page_size;
        page_alloc_count = u32 (pool.page_alloc_count + 1);
      }))
    else some pool

-- The inner loop, with `left` objects of `size` bytes to go.
pub cut_objects : Bool → ℕ → ℕ → Pool → Option (List ℕ × Pool)
cut_objects la57 size zero pool = some ([], pool)
cut_objects la57 size (suc left) pool = do
  pool' ← refill la57 pool
  let pointer = pool'.internal_mem_ptr
  (objects, rest) ←
      cut_objects la57 size left (record pool' { internal_mem_ptr = add64 pointer size })
  some (pointer ∷ objects, rest)

-- One round of the outer loop. The array behind the objects is static, and so zero.
pub init_slab : Bool → ℕ → Pool → Option (Slab × Pool)
init_slab la57 i pool = do
  size ← slab_size i
  n ← objects_per_slab i
  (objects, pool') ← cut_objects la57 size n pool
  first ← get_elem? objects 0
  some (
    record {
      start = first;
      last = sub64 (add64 first 1024) size;
      size = size;
      is_full = false;
      objects = objects ++ replicate (max_objects_per_slab - n) 0;
    },
    pool',
  )

init_slabs : Bool → ℕ → ℕ → Pool → Option (List Slab × Pool)
init_slabs la57 zero i pool = some ([], pool)
init_slabs la57 (suc left) i pool = do
  (s, pool') ← init_slab la57 i pool
  (slabs, rest) ← init_slabs la57 left (i + 1) pool'
  some (s ∷ slabs, rest)

-- The slabs, and what is left of the last page.
pub init : Bool → Pmm → Option (List Slab × Pool)
unfolding init_slabs
init la57 pmm =
    init_slabs la57 slab_count 0
      (record { pmm = pmm; internal_mem_ptr = 0; internal_mem_len = 0; page_alloc_count = 0 })
