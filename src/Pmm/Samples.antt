-- ===== src/Pmm/Samples.antt =====
-- Memories of sixteen and of eight pages, of which 3 to 11 are free.
use knut_os.Base.{ℕ, zero, suc, ◌<◌, ◌≡◌, refl, arith, false, some, [], ◌∷◌, get_or}
use knut_os.Bitmap.{set_bit, check_bit}
use knut_os.Mem.{phys_to_higher_half_data}
use knut_os.Pmm.{Pmm, alloc, find_first_free_page, set_bits}
use knut_os.Pmm.Find.{IsValid}

abbrev pub with_bytes : ℕ → ℕ → ℕ → Pmm
with_bytes a b used = record {
  memory_size = 0x10000;
  max_pages = 0x4000;
  used_pages = used;
  memory_map = [];
  highest_page = 0x10000;
  map_address = 0xFFFF800000003000;
  bitmap = record { map = a ∷ b ∷ []; size = 2 };
}

abbrev pub sixteen : Pmm
sixteen = with_bytes 0x07 0xF0 7

two_bytes : (a b : ℕ) → a < 256 → b < 256 → (j : ℕ) → get_or (a ∷ b ∷ []) j 0xFF < 256
two_bytes a b ha hb zero = ha
two_bytes a b ha hb (suc zero) = hb
two_bytes a b ha hb (suc (suc j)) = omega arith

pub sixteen-IsValid : IsValid sixteen
sixteen-IsValid = record {
  bitmap = record { bytes = two_bytes 0x07 0xF0 (omega arith) (omega arith); small = omega arith };
  covers = omega arith;
  counter = omega arith;
}

-- The same bitmap for a memory of eight pages.
abbrev pub eight : Pmm
eight = record sixteen { highest_page = 0x8000 }

pub eight-IsValid : IsValid eight
eight-IsValid = record {
  bitmap = sixteen-IsValid.bitmap;
  covers = omega arith;
  counter = omega arith;
}

abbrev pub eight_after : Pmm
eight_after = record (with_bytes 0x1F 0xF0 9) { highest_page = 0x8000 }

pub eight_run : alloc false eight 2 ≡ some (0xFFFF800000003000, eight_after)
unfolding alloc find_first_free_page set_bit check_bit set_bits phys_to_higher_half_data
eight_run = refl

-- Six allocations after one another.
pub six_runs :
    (alloc false sixteen 1 ≡ some (0xFFFF800000003000, with_bytes 0x0F 0xF0 8))
    × (alloc false (with_bytes 0x0F 0xF0 8) 1 ≡ some (0xFFFF800000004000, with_bytes 0x1F 0xF0 9))
    × (alloc false (with_bytes 0x1F 0xF0 9) 1 ≡ some (0xFFFF800000005000, with_bytes 0x3F 0xF0 10))
    × (alloc false (with_bytes 0x3F 0xF0 10) 1 ≡ some (0xFFFF800000006000, with_bytes 0x7F 0xF0 11))
    × (alloc false (with_bytes 0x7F 0xF0 11) 1 ≡ some (0xFFFF800000007000, with_bytes 0xFF 0xF0 12))
    × (alloc false (with_bytes 0xFF 0xF0 12) 1 ≡ some (0xFFFF800000008000, with_bytes 0xFF 0xF1 13))
unfolding alloc find_first_free_page set_bit check_bit set_bits phys_to_higher_half_data
six_runs = (refl, refl, refl, refl, refl, refl)
