-- ===== src/Mem/Tests.antt =====
-- Addresses around the fourth page.
use knut_os.Base.{◌≡◌, refl, false}
use knut_os.Mem.{page_size, align_down, align_up, phys_to_higher_half_data}

down_runs : align_down 0x3001 page_size ≡ 0x3000
unfolding align_down
down_runs = refl

up_runs : align_up 0x3001 page_size ≡ 0x4000
unfolding align_up
up_runs = refl

higher_half_runs : phys_to_higher_half_data false 0x3001 ≡ 0xFFFF800000003001
unfolding phys_to_higher_half_data
higher_half_runs = refl
