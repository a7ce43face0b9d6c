-- ===== src/Kmalloc/Tests.antt =====
-- `kmalloc` over eight pages and eleven slabs.
use knut_os.Base.{ℕ, ◌≡◌, refl, arith, false, none, some, List, length-replicate}
use knut_os.Pmm.Samples.{eight, eight_after, eight_run, sixteen, with_bytes}
use knut_os.Slab.Samples.{
  row, row-IsSized, shelf_slab, shelf_slab_run, shelf-IsSized, shelf-IsOwned,
}
use knut_os.Kmalloc.Samples.{stock}
use knut_os.Kmalloc.Again.{IsSlabFor, kmalloc-after_kfree}
use knut_os.Kmalloc.Fresh.{init-kmalloc}
use knut_os.Slab.{Slab}
use knut_os.Slab.Init.{Pool, init}
use knut_os.Slab.Init.Samples.{five_pages, one_page, six-ArePages}
use knut_os.Kmalloc.{Heap, write, next_pow_of_two, big_alloc, kmalloc, kfree}
use knut_os.Kmalloc.Rounding.{Rounded, next_pow_of_two-Rounded}
use knut_os.Kmalloc.Small.{kmalloc-gap}

abbrev heap : Heap
heap = record { pmm = eight; slabs = row 0 11; memory = λ _. 0 }

abbrev after : Heap
after = record {
  pmm = eight_after;
  slabs = row 0 11;
  memory = write (λ _. 0) 0xFFFF800000003000 4096;
}

next_pow_of_two-Rounded_example : Rounded 3000 (next_pow_of_two 3000)
next_pow_of_two-Rounded_example = next_pow_of_two-Rounded 3000 (omega arith)

kmalloc-gap_example : kmalloc false heap 2041 ≡ none
kmalloc-gap_example = kmalloc-gap false heap 2041 row-IsSized refl (omega arith) (omega arith)

run : kmalloc false heap 3000 ≡ some (0xFFFF800000004000, after)
unfolding kmalloc next_pow_of_two big_alloc
run = rw eight_run refl

for_256 : IsSlabFor 256 8
for_256 = record {
  valid = omega arith;
  small = omega arith;
  tight = omega arith;
  large = omega arith;
}

kmalloc-after_kfree_example :
    (first : Heap) × (freed : Heap) × (kmalloc false (stock 0) 256 ≡ some (0x6008, first))
    × (kfree false first 0x6008 ≡ some freed)
    × (kmalloc false freed 256 ≡ some (0x6008, first))
kmalloc-after_kfree_example =
    kmalloc-after_kfree false (stock 0) 256 8 0x6000 (shelf_slab 0) (shelf_slab 1) for_256
      shelf-IsSized refl (omega (arith, length-replicate {A = ℕ} 1020 0)) shelf_slab_run
      (omega arith) (omega arith) shelf-IsOwned

-- The slab of 512 bytes starts in the fifth page.
init-kmalloc_example :
    (slabs : List Slab) × (end : Pool) × (first : Heap) × (freed : Heap) × (init false sixteen
      ≡ some (slabs, end))
    × (kmalloc false (record { pmm = end.pmm; slabs = slabs; memory = λ _. 0 }) 256
        ≡ some (0xFFFF800000007008, first))
    × (kfree false first 0xFFFF800000007008 ≡ some freed)
    × (kmalloc false freed 256 ≡ some (0xFFFF800000007008, first))
init-kmalloc_example =
    init-kmalloc false sixteen (with_bytes 0xFF 0xF0 12) (with_bytes 0xFF 0xF1 13)
      0xFFFF800000003000 0xFFFF800000004000 0xFFFF800000005000 0xFFFF800000006000 0xFFFF800000007000
      0xFFFF800000008000 256 8 (λ _. 0) five_pages one_page six-ArePages for_256 (omega arith)
