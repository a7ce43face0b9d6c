-- ===== src/Vmm/Tests.antt =====
-- Four tables, at 0x1000 to 0x4000.
use knut_os.Base.{
  ℕ, ◌+◌, ◌*◌, ◌%◌, ◌≡◌, refl, arith, ◌==◌, if◌then◌else◌, ◌≢◌, none, false, [], some,
}
use knut_os.Base.All.{All}
use knut_os.Mem.{page_size, higher_half_data_to_phys}
use knut_os.Pmm.Samples.{sixteen}
use knut_os.Vmm.{Vmm, behind, index_at, upper_indices, map_page, unmap_page, write}
use knut_os.Vmm.Walks.{Walks, here, next}
use knut_os.Vmm.Others.{entries, indices, unmap_page-isolates}
use knut_os.Vmm.Translate.{Tables, end, down, translate, translate-map_page}

abbrev memory : ℕ → ℕ
memory address =
    if address == 0x1000
    then 0x2003
    else if address == 0x2000
    then 0x3003
    else if address == 0x3000
    then 0x4003
    else 0

abbrev vmm : Vmm
vmm = record { pmm = sixteen; memory = memory; cr3 = 0x1000; flushed = [] }

abbrev directory : ℕ
directory = 0xFFFF800000001000

walks : Walks false memory directory (upper_indices false 0x5678) 0x4000
unfolding index_at higher_half_data_to_phys
walks =
    next (λ e. omega (arith, e)) (next (λ e. omega (arith, e)) (next (λ e. omega (arith, e)) here))

tables : Tables memory (0x4000 + 8 * 5) (behind false directory) (upper_indices false 0x5678) 0x4000
unfolding index_at higher_half_data_to_phys
tables = down refl (omega arith) (omega arith) (omega arith) (
    down refl (omega arith) (omega arith) (omega arith)
      (down refl (omega arith) (omega arith) (omega arith) end))

translate-map_page_example :
    (s' : Vmm) × (map_page false vmm directory (9 * page_size) 0x5678 3 ≡ some s')
    × (translate s'.memory (behind false directory) 0x5678
        ≡ some (9 * page_size + 0x5678 % page_size))
translate-map_page_example =
    translate-map_page vmm directory 9 0x5678 3 0x4000 tables (omega arith) (omega arith) refl

read_elsewhere :
    All (λ a. a ≢ 0x4000 + 8 * 5) (entries memory (behind false directory) (indices 0x6678))
unfolding higher_half_data_to_phys
read_elsewhere = (
  λ e. omega (arith, e),
  (λ e. omega (arith, e), (λ e. omega (arith, e), (λ e. omega (arith, e), tt))),
)

-- The next page, which is not mapped, is on the same tables.
unmap_page-isolates_example :
    ((s' : Vmm) × (unmap_page false vmm directory 0x5678 ≡ some s')
      × (translate s'.memory (behind false directory) 0x5678 ≡ none)
      × (translate s'.memory (behind false directory) 0x6678
          ≡ translate memory (behind false directory) 0x6678))
    × ((s' : Vmm) × (map_page false vmm directory 0x9000 0x5678 3 ≡ some s')
        × (translate s'.memory (behind false directory) 0x6678
            ≡ translate memory (behind false directory) 0x6678))
unmap_page-isolates_example =
    unmap_page-isolates vmm directory 0x5678 0x9000 3 0x4000 0x6678 tables read_elsewhere

-- Only the second table is there.
abbrev two_tables : ℕ → ℕ
two_tables address = if address == 0x1000 then 0x2003 else 0

abbrev four_tables : ℕ → ℕ
four_tables = write (write two_tables 0x2000 (3 * page_size + 3)) 0x3000 (4 * page_size + 3)

abbrev sparse : Vmm
sparse = record { pmm = sixteen; memory = two_tables; cr3 = 0x1000; flushed = [] }
