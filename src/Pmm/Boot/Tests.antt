-- ===== src/Pmm/Boot/Tests.antt =====
-- Booting on a machine with half a megabyte, whose first page is reserved.
use knut_os.Base.{◌≡◌, inr, refl, arith, some, List, [], ◌∷◌, false}
use knut_os.Pmm.{MmapEntry, Pmm}
use knut_os.Pmm.Boot.{counts_as_memory, host, highest_top, bitmap_byte_size, init}
use knut_os.Pmm.Boot.Init.{Booted, init-Booted}

abbrev entries : List MmapEntry
entries =
    record { base = 0; len = 0x1000; kind = 2 }
    ∷ record { base = 0x1000; len = 0x7F000; kind = 1 }
    ∷ []

abbrev carved : List MmapEntry
carved =
    record { base = 0; len = 0x1000; kind = 2 }
    ∷ record { base = 0x2000; len = 0x7E000; kind = 1 }
    ∷ []

highest : highest_top 0 entries ≡ 0x80000
unfolding highest_top counts_as_memory
highest = refl

hosted : host (bitmap_byte_size (highest_top 0 entries)) entries ≡ some (0x1000, carved)
unfolding highest_top counts_as_memory host bitmap_byte_size
hosted = refl

init-Booted_example :
    (p : Pmm) × (init false (λ _. 0) entries ≡ some p) × Booted (highest_top 0 entries) carved p
init-Booted_example =
    init-Booted false (λ _. 0) entries (omega arith, (omega arith, tt)) (omega (arith, highest))
      (omega (arith, highest)) (inr (omega (arith, highest))) hosted
