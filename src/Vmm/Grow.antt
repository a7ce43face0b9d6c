-- ===== src/Vmm/Grow.antt =====
-- Mapping a page where some of its tables are not there yet.
use knut_os.Base.{ℕ, ◌+◌, ◌*◌, ◌%◌, ◌^◌, ◌<◌, ◌≡◌, ◌≢◌, false, List, [], ◌∷◌, some}
use knut_os.Mem.{page_size, higher_half_data_to_phys}
use knut_os.Pmm
use knut_os.Pmm.{Pmm}
use knut_os.Vmm.{Vmm, write}
use knut_os.Vmm.Translate.{frame}

-- The tables from `table` down to `last`, with the memory and the allocator at the start and at the
-- end. A table that is there is kept; where there is none, a page is taken and becomes one, without
-- being cleared. At the end, each entry on the way is what it was when it was passed, and none stands
-- at the address `apart`.
pub data Leads (flags apart : ℕ) (memory' : ℕ → ℕ) (pmm' : Pmm)
    : (ℕ → ℕ) → Pmm → ℕ → List ℕ → ℕ → Type 0 where
  arrived : {table : ℕ} → Leads flags apart memory' pmm' memory' pmm' table [] table
  old :
      {memory : ℕ → ℕ} {pmm : Pmm} {table index last : ℕ} {indices : List ℕ}
      → memory (table + 8 * index) % 2 ≡ 1
      → memory (table + 8 * index) < 2 ^ 52
      → memory (table + 8 * index) % page_size < 512
      → table + 8 * index ≢ apart
      → memory' (table + 8 * index) ≡ memory (table + 8 * index)
      → Leads flags apart memory' pmm' memory pmm (frame (memory (table + 8 * index))) indices last
      → Leads flags apart memory' pmm' memory pmm table (index ∷ indices) last
  new :
      {memory : ℕ → ℕ} {pmm next : Pmm} {table index last pointer k : ℕ} {indices : List ℕ}
      → memory (table + 8 * index) % 2 ≡ 0
      → Pmm.alloc false pmm 1 ≡ some (pointer, next)
      → higher_half_data_to_phys false pointer ≡ k * page_size
      → k < 2 ^ 40
      → table + 8 * index ≢ apart
      → memory' (table + 8 * index) ≡ k * page_size + flags
      → Leads flags apart memory' pmm'
          (write memory (table + 8 * index) (k * page_size + flags))
          next
          (k * page_size)
          indices
          last
      → Leads flags apart memory' pmm' memory pmm table (index ∷ indices) last
