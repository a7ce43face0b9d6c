-- ===== src/Kmalloc/Samples.antt =====
-- A heap that has four objects of 512 bytes to give.
use knut_os.Base.{ℕ, zero, suc, ◌+◌, ◌*◌, ◌≡◌, refl, false, some}
use knut_os.Pmm.Samples.{eight}
use knut_os.Slab.Samples.{shelf, shelf_runs}
use knut_os.Kmalloc.{Heap, write, shift_until, next_pow_of_two, small_alloc, kmalloc}

-- The metadata of the first `n` of them.
abbrev pub sizes_of : ℕ → ℕ → ℕ
sizes_of zero = λ _. 0
sizes_of (suc n) = write (sizes_of n) (0x6000 + 0x200 * n) 512

-- The heap after `n` of them have been given.
abbrev pub stock : ℕ → Heap
stock n = record { pmm = eight; slabs = shelf n; memory = sizes_of n }

pub stock_runs :
    (kmalloc false (stock 0) 256 ≡ some (0x6008, stock 1))
    × (kmalloc false (stock 1) 256 ≡ some (0x6208, stock 2))
    × (kmalloc false (stock 2) 256 ≡ some (0x6408, stock 3))
    × (kmalloc false (stock 3) 256 ≡ some (0x6608, stock 4))
unfolding kmalloc next_pow_of_two shift_until small_alloc
stock_runs =
    (rw shelf_runs.0 refl, rw shelf_runs.1 refl, rw shelf_runs.2 refl, rw shelf_runs.3 refl)
