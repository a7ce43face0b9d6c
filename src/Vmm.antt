-- ===== src/Vmm.antt =====
-- src/kernel/memory/vmm.c and vmm.h: page tables of four and of five levels.
pub mod Walks
pub mod Translate
pub mod Others
pub mod Grow
mod Tests
use knut_os.Base.{
  ℕ, zero, suc, ◌+◌, ◌-◌, ◌*◌, ◌/◌, ◌^◌, ◌%◌, ◌==◌, leb, if◌then◌else◌, Bool, List, [], ◌∷◌, Option,
  none, some, ◌>>=◌, bit_and, bit_or,
}
use knut_os.Base.Words.{add64, not64}
use knut_os.Mem.{
  page_size, higher_half_data_lv4, higher_half_data_lv5, phys_to_higher_half_data,
  phys_to_higher_half_code, higher_half_data_to_phys,
}
use knut_os.Pmm
use knut_os.Pmm.{Pmm}

abbrev pub pte_present : ℕ
pte_present = 1

abbrev pub pte_read_write : ℕ
pte_read_write = 2

-- The allocator of pages, physical memory by the addresses of its 64-bit words, the value of cr3, and
-- the addresses flushed from the translation lookaside buffer, the last one first.
pub record Vmm : Type 0 where
  pub pmm : Pmm
  pub memory : ℕ → ℕ
  pub cr3 : ℕ
  pub flushed : List ℕ

-- The physical address behind a pointer. Under the boot loader's mapping, memory is seen both at its
-- physical addresses and in the higher half.
abbrev pub behind : Bool → ℕ → ℕ
behind la57 pointer =
    if leb (if la57 then higher_half_data_lv5 else higher_half_data_lv4) pointer
    then higher_half_data_to_phys la57 pointer
    else pointer

-- The address of the entry `index` of a table.
abbrev pub entry_address : Bool → ℕ → ℕ → ℕ
entry_address la57 table index = behind la57 table + 8 * index

abbrev pub write : (ℕ → ℕ) → ℕ → ℕ → ℕ → ℕ
write memory address value other = if other == address then value else memory other

-- `memset` of a page to zero, by words.
abbrev pub clear_page : (ℕ → ℕ) → ℕ → ℕ → ℕ
clear_page memory page other = if other / page_size == page / page_size then 0 else memory other

pub create_page_directory : Bool → Vmm → Option (ℕ × Vmm)
create_page_directory la57 s = do
  (pointer, pmm) ← Pmm.alloc la57 s.pmm 1
  some (
    pointer,
    record s { pmm = pmm; memory = clear_page s.memory (higher_half_data_to_phys la57 pointer) },
  )

-- The table that an entry names; an entry that is not present is first given a new table.
pub get_page_map_level : Bool → Vmm → ℕ → ℕ → ℕ → Option (ℕ × Vmm)
get_page_map_level la57 s table index flags =
    let at = entry_address la57 table index in
    if bit_and (s.memory at) 1 == 0
    then (do
      (pointer, pmm) ← Pmm.alloc la57 s.pmm 1
      let entry = bit_or (higher_half_data_to_phys la57 pointer) flags
      some (bit_and entry (not64 511), record s { pmm = pmm; memory = write s.memory at entry }))
    else some (bit_and (s.memory at) (not64 511), s)

-- The nine bits of an address from bit `shift` on.
pub index_at : ℕ → ℕ → ℕ
index_at shift virtual_address = bit_and virtual_address (0x1FF * 2 ^ shift) / 2 ^ shift

-- The indices of the levels above the first, the highest one first.
abbrev pub upper_indices : Bool → ℕ → List ℕ
upper_indices la57 virtual_address =
    if la57
    then index_at 48 virtual_address
      ∷ index_at 39 virtual_address
      ∷ index_at 30 virtual_address
      ∷ index_at 21 virtual_address
      ∷ []
    else index_at 39 virtual_address
      ∷ index_at 30 virtual_address
      ∷ index_at 21 virtual_address
      ∷ []

-- The calls of `vmm_get_page_map_level`, each with the table that the last one gave.
pub descend : Bool → Vmm → ℕ → List ℕ → ℕ → Option (ℕ × Vmm)
unfolding get_page_map_level
descend la57 s table [] flags = some (table, s)
descend la57 s table (index ∷ indices) flags = do
  (next, s') ← get_page_map_level la57 s table index flags
  descend la57 s' next indices flags

-- The write to the table of the first level, and the flush.
abbrev pub set_entry : Bool → Vmm → ℕ → ℕ → ℕ → Vmm
set_entry la57 s table virtual_address entry = record s {
  memory = write s.memory (entry_address la57 table (index_at 12 virtual_address)) entry;
  flushed = virtual_address ∷ s.flushed;
}

pub map_page : Bool → Vmm → ℕ → ℕ → ℕ → ℕ → Option Vmm
unfolding descend
map_page la57 s directory physical_address virtual_address flags = do
  (table, s') ← descend la57 s directory (upper_indices la57 virtual_address) flags
  some (set_entry la57 s' table virtual_address (bit_or physical_address flags))

pub unmap_page : Bool → Vmm → ℕ → ℕ → Option Vmm
unfolding descend
unmap_page la57 s directory virtual_address = do
  (table, s') ← descend la57 s directory (upper_indices la57 virtual_address) 0
  some (set_entry la57 s' table virtual_address 0)

pub activate_page_directory : Bool → Vmm → ℕ → Vmm
activate_page_directory la57 s directory = record s {
  cr3 = higher_half_data_to_phys la57 directory;
}

-- A loop over `count` pages from `i` on; where a page goes is a function of its physical address.
pub map_pages : Bool → Vmm → ℕ → (ℕ → ℕ) → ℕ → ℕ → ℕ → Option Vmm
unfolding map_page
map_pages la57 s directory place flags i zero = some s
map_pages la57 s directory place flags i (suc count) = do
  s' ← map_page la57 s directory i (place i) flags
  map_pages la57 s' directory place flags (i + page_size) count

-- 4 GiB are `2 ^ 20` pages, and the 0x80000000 bytes of the last loop `2 ^ 19`.
pub init : Bool → Vmm → Option Vmm
unfolding create_page_directory map_pages activate_page_directory
init la57 s = do
  (root, s0) ← create_page_directory la57 s
  s1 ← map_pages la57 s0 root (λ i. i) (bit_or pte_present pte_read_write) 0 (2 ^ 20)
  s2 ←
      map_pages la57 s1 root (phys_to_higher_half_data la57) (bit_or pte_present pte_read_write) 0
        (2 ^ 20)
  s3 ← map_pages la57 s2 root phys_to_higher_half_code pte_present 0 (2 ^ 19)
  some (activate_page_directory la57 s3 root)
