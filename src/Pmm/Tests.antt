-- ===== src/Pmm/Tests.antt =====
-- The allocator of pages on a memory of sixteen pages, of which 3 to 11 are free.
use knut_os.Base.{ℕ, ◌≡◌, refl, arith, some, [], ◌∷◌, false, get_elem?}
use knut_os.Bitmap.{Bitmap, set_bit, check_bit}
use knut_os.Mem.{phys_to_higher_half_data}
use knut_os.Pmm.{Pmm, alloc, free, set_bits, find_first_free_page}
use knut_os.Pmm.Samples.{with_bytes, sixteen, sixteen-IsValid}
use knut_os.Pmm.Find.{find_ignores_count}
use knut_os.Pmm.Range.{WritesRange}
use knut_os.Pmm.Alloc.{Allocated, alloc-Allocated, after_free, free-WritesRange}
use knut_os.Pmm.Owners.{Step, Reach, calls_never_fault}

abbrev third : ℕ
third = 0xFFFF800000003000

abbrev fourth : ℕ
fourth = 0xFFFF800000004000

first_run : alloc false sixteen 1 ≡ some (third, with_bytes 0x0F 0xF0 8)
unfolding alloc find_first_free_page set_bit check_bit set_bits phys_to_higher_half_data
first_run = refl

second_run : alloc false (with_bytes 0x0F 0xF0 8) 1 ≡ some (fourth, with_bytes 0x1F 0xF0 9)
unfolding alloc find_first_free_page set_bit check_bit set_bits phys_to_higher_half_data
second_run = refl

two_out : Reach false sixteen (record { pmm = with_bytes 0x1F 0xF0 9; owned = fourth ∷ third ∷ [] })
two_out =
    Reach.later
      (Reach.later Reach.start
        (Step.allocates third (with_bytes 0x0F 0xF0 8) first_run (omega arith)))
      (Step.allocates fourth (with_bytes 0x1F 0xF0 9) second_run (omega arith))

calls_never_fault_example :
    ((r : ℕ × Pmm) × (alloc false (with_bytes 0x1F 0xF0 9) 1 ≡ some r))
    × ((i x : ℕ)
        → get_elem? (fourth ∷ third ∷ []) i ≡ some x
        → (q : Pmm) × (free false (with_bytes 0x1F 0xF0 9) x 1 ≡ some q))
calls_never_fault_example = calls_never_fault sixteen-IsValid two_out

alloc-Allocated_example : Allocated false sixteen 1 (alloc false sixteen 1)
alloc-Allocated_example = alloc-Allocated false sixteen 1 sixteen-IsValid (omega arith)

find_ignores_count_example : find_first_free_page sixteen 1 ≡ find_first_free_page sixteen 10
find_ignores_count_example =
    find_ignores_count sixteen 1 10 sixteen-IsValid (omega arith) (omega arith)

free-WritesRange_example :
    (c : Bitmap) × (free false sixteen (phys_to_higher_half_data false 0x1000) 2
      ≡ some (after_free sixteen 2 c))
    × (free false sixteen 0x1000 2 ≡ some (after_free sixteen 2 c))
    × WritesRange sixteen.bitmap 1 3 0 c
free-WritesRange_example = free-WritesRange false sixteen 2 sixteen-IsValid 1 (omega arith)
