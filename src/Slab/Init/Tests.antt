-- ===== src/Slab/Init/Tests.antt =====
-- A pool with a fresh page, and the slab of 16-byte objects cut from it.
use knut_os.Base.{ℕ, ◌+◌, ◌*◌, ◌^◌, ◌≤◌, ◌<◌, ◌≡◌, refl, arith, false, some, List, [], ◌∷◌}
use knut_os.Pmm.Samples.{sixteen, with_bytes}
use knut_os.Slab.{Slab}
use knut_os.Slab.Init.{Pool, refill, init_slab, init}
use knut_os.Slab.Init.Whole.{all_slabs, init-all_slabs}
use knut_os.Slab.Init.Samples.{five_pages, one_page}
use knut_os.Slab.Init.Layout.{HasRoom, advanced, laid, init_slab-laid}
use knut_os.Slab.Route.{Outside, IsSized}

abbrev pool : Pool
pool = record {
  pmm = sixteen;
  internal_mem_ptr = 0x5000;
  internal_mem_len = 0x6000;
  page_alloc_count = 1;
}

no_refill : refill false pool ≡ some pool
unfolding refill
no_refill = refl

pool-HasRoom : HasRoom pool 2048
pool-HasRoom = record { not_null = omega arith; room_left = omega arith; no_wrap = omega arith }

init_slab-laid_example :
    (init_slab false 3 pool ≡ some (laid 3 0x5000, advanced pool 2048))
    × ((j : ℕ)
        → 2048 ≤ 0x5000
        → 1024 < (j + 1) * 2 ^ (3 + 1)
        → Outside (0x5000 + j * 2 ^ (3 + 1)) (laid 3 0x5000))
init_slab-laid_example = init_slab-laid false 3 pool pool (omega arith) no_refill pool-HasRoom

abbrev slabs : List Slab
slabs =
    all_slabs
      (0xFFFF800000003000 ∷ 0xFFFF800000004000 ∷ 0xFFFF800000005000 ∷ 0xFFFF800000006000
        ∷ 0xFFFF800000007000 ∷ [])
      0xFFFF800000008000

init-all_slabs_example :
    ((end : Pool) × (init false sixteen ≡ some (slabs, end)) × (end.pmm ≡ with_bytes 0xFF 0xF1 13))
    × IsSized slabs
init-all_slabs_example =
    init-all_slabs false sixteen (with_bytes 0xFF 0xF0 12) (with_bytes 0xFF 0xF1 13)
      0xFFFF800000003000 0xFFFF800000004000 0xFFFF800000005000 0xFFFF800000006000 0xFFFF800000007000
      0xFFFF800000008000 five_pages one_page
