-- ===== src/Vmm/Walks.antt =====
-- Mapping and unmapping along tables that are there already, and what happens where they are not.
use knut_os.Base.{ℕ, ◌≡◌, ◌≢◌, refl, arith, Bool, List, [], ◌∷◌, some, bit_and, bit_or}
use knut_os.Base.Words.{not64}
use knut_os.Pmm
use knut_os.Pmm.{Pmm}
use knut_os.Vmm.{
  Vmm, entry_address, get_page_map_level, descend, upper_indices, set_entry, map_page, unmap_page,
}

-- From `table`, present entries at the indices lead to the table `last`.
pub data Walks (la57 : Bool) (memory : ℕ → ℕ) : ℕ → List ℕ → ℕ → Type 0 where
  here : {table : ℕ} → Walks la57 memory table [] table
  next :
      {table index last : ℕ} {indices : List ℕ}
      → bit_and (memory (entry_address la57 table index)) 1 ≢ 0
      → Walks la57 memory
          (bit_and (memory (entry_address la57 table index)) (not64 511))
          indices
          last
      → Walks la57 memory table (index ∷ indices) last

pub get_page_map_level-present :
    (la57 : Bool) (s : Vmm) (table index flags : ℕ)
    → bit_and (s.memory (entry_address la57 table index)) 1 ≢ 0
    → get_page_map_level la57 s table index flags
      ≡ some (bit_and (s.memory (entry_address la57 table index)) (not64 511), s)
unfolding get_page_map_level
get_page_map_level-present la57 s table index flags present = ground (arith, present)

descend-Walks :
    (la57 : Bool) (s : Vmm) (flags : ℕ) {table last : ℕ} {indices : List ℕ}
    → Walks la57 s.memory table indices last
    → descend la57 s table indices flags ≡ some (last, s)
unfolding descend
descend-Walks la57 s flags here = refl
descend-Walks la57 s flags {table} (next {index = index} present rest) =
    rw (get_page_map_level-present la57 s table index flags present)
      (descend-Walks la57 s flags rest)

-- Where the tables of an address are there, with four levels and with five, `vmm_map_page` and
-- `vmm_unmap_page` take no page and write one entry: that of the address in its first level table,
-- which becomes the frame with the flags, or 0. Both flush the address.
pub map_page-Walks :
    (la57 : Bool) (s : Vmm) (directory physical virtual flags last : ℕ)
    → Walks la57 s.memory directory (upper_indices la57 virtual) last
    → (map_page la57 s directory physical virtual flags
        ≡ some (set_entry la57 s last virtual (bit_or physical flags)))
      × (unmap_page la57 s directory virtual ≡ some (set_entry la57 s last virtual 0))
unfolding map_page unmap_page
map_page-Walks la57 s directory physical virtual flags last walks =
    (rw (descend-Walks la57 s flags walks) refl, rw (descend-Walks la57 s 0 walks) refl)
