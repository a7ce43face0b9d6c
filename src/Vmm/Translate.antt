-- ===== src/Vmm/Translate.antt =====
-- Four-level translation, as the processor does it, of an address that was just mapped.
use native.Mathlib.Nat.{one-le-pow, mul-div_cancel}
use knut_os.Base.{
  ℕ, ◌+◌, ◌*◌, ◌/◌, ◌%◌, ◌^◌, ◌<◌, ◌≡◌, ◌≢◌, refl, ap, ◌∙◌, arith, ◌==◌, ◌++◌, if◌then◌else◌, false,
  List, [], ◌∷◌, Option, none, some, ◌>>=◌, bit_and, bit_or,
}
use knut_os.Base.Words.{not64}
use knut_os.Bits.{bit_and_mask, bit_and_window, bit_or_disjoint}
use knut_os.Mem.{page_size}
use knut_os.Vmm.{Vmm, behind, entry_address, write, index_at, upper_indices, set_entry, map_page}
use knut_os.Vmm.Walks.{Walks, here, next, map_page-Walks}

pub index_at_lem : (shift va : ℕ) → index_at shift va ≡ va / 2 ^ shift % 512
unfolding index_at
index_at_lem shift va =
    ap (λ x. x / 2 ^ shift) (bit_and_window 9 shift va)
    ∙ mul-div_cancel (va / 2 ^ shift % 512) (omega (arith, one-le-pow shift 2))

-- The frame in an entry: its bits from 12 to 51.
abbrev pub frame : ℕ → ℕ
frame entry = entry / page_size % 2 ^ 40 * page_size

-- The processor's walk over physical memory from a table, by the indices of the levels from the
-- highest one on; an entry that is not present is a page fault.
unfoldable pub walk : (ℕ → ℕ) → ℕ → List ℕ → Option ℕ
walk memory table [] = some table
walk memory table (index ∷ indices) =
    let entry = memory (table + 8 * index) in
    let rest = walk memory (frame entry) indices in if entry % 2 == 0 then none else rest

-- From the table at `table`, present entries at the indices lead to the table at `last`. They hold
-- a frame and flags below 512, and none of them stands at the address `apart`.
pub data Tables (memory : ℕ → ℕ) (apart : ℕ) : ℕ → List ℕ → ℕ → Type 0 where
  end : {table : ℕ} → Tables memory apart table [] table
  down :
      {table index last : ℕ} {indices : List ℕ}
      → memory (table + 8 * index) % 2 ≡ 1
      → memory (table + 8 * index) < 2 ^ 52
      → memory (table + 8 * index) % page_size < 512
      → table + 8 * index ≢ apart
      → Tables memory apart (frame (memory (table + 8 * index))) indices last
      → Tables memory apart table (index ∷ indices) last

-- The kernel reads the frame of such an entry by clearing nine bits.
pub cleared-frame :
    (entry : ℕ) → entry < 2 ^ 52 → entry % page_size < 512 → bit_and entry (not64 511) ≡ frame entry
cleared-frame entry small flags = omega (arith, bit_and_window 55 9 entry)

pub Tables-Walks :
    (memory : ℕ → ℕ) (apart pointer : ℕ) {table last : ℕ} {indices : List ℕ}
    → behind false pointer ≡ table
    → Tables memory apart table indices last
    → (pointer' : ℕ) × (behind false pointer' ≡ last) × Walks false memory pointer indices pointer'
Tables-Walks memory apart pointer at end = (pointer, at, here)
Tables-Walks memory apart pointer {table} at (down {index = index} present small flags ne rest) =
    let entry = memory (table + 8 * index) in
    let low : behind false (bit_and entry (not64 511)) ≡ frame entry =
      rw (cleared-frame entry small flags) (ground (arith, small)) in
    let (pointer', last_at, walks) =
      Tables-Walks memory apart (bit_and entry (not64 511)) low rest in
    let set : bit_and (memory (entry_address false pointer index)) 1 ≢ 0 =
      rw at (λ e. omega (arith, e, present, bit_and_mask 1 entry)) in
    (pointer', last_at, next set (rw at walks))

pub walk-step :
    (memory : ℕ → ℕ) (table index : ℕ) (indices : List ℕ)
    → memory (table + 8 * index) % 2 ≡ 1
    → walk memory table (index ∷ indices) ≡ walk memory (frame (memory (table + 8 * index))) indices
unfolding walk
walk-step memory table index indices present = ground (arith, present)

pub write-same : (memory : ℕ → ℕ) (at v : ℕ) → write memory at v at ≡ v
write-same memory at v = ground arith

pub write-other :
    (memory : ℕ → ℕ) (at v other : ℕ) → other ≢ at → write memory at v other ≡ memory other
write-other memory at v other ne = ground (arith, ne)

walk-write :
    (memory : ℕ → ℕ) (apart entry i : ℕ) {table last : ℕ} {indices : List ℕ}
    → Tables memory apart table indices last
    → apart ≡ last + 8 * i
    → entry % 2 ≡ 1
    → walk (write memory apart entry) table (indices ++ i ∷ []) ≡ some (frame entry)
unfolding walk
walk-write memory apart entry i {table} end at present =
    let same : write memory apart entry (table + 8 * i) ≡ entry =
      rw (← at) (write-same memory apart entry) in
    walk-step (write memory apart entry) table i [] (ap (λ x. x % 2) same ∙ present)
    ∙ ap (λ x. some (frame x)) same
walk-write memory apart entry i {table}
      (down {index = index} {indices = indices} set small flags ne rest) at present =
    let same = write-other memory apart entry (table + 8 * index) ne in
    walk-step (write memory apart entry) table index (indices ++ i ∷ [])
      (ap (λ x. x % 2) same ∙ set)
    ∙ ap (λ x. walk (write memory apart entry) (frame x) (indices ++ i ∷ [])) same
    ∙ walk-write memory apart entry i rest at present

-- The physical address that the processor finds for a virtual one, from the top table.
unfoldable pub translate : (ℕ → ℕ) → ℕ → ℕ → Option ℕ
unfolding walk
translate memory root va = do
  base ←
      walk memory root
        (va / 2 ^ 39 % 512 ∷ va / 2 ^ 30 % 512 ∷ va / 2 ^ 21 % 512 ∷ va / 2 ^ 12 % 512 ∷ [])
  some (base + va % page_size)

-- With four levels whose tables are there, and whose last one is none of the others, an address that
-- `vmm_map_page` mapped to a frame, present, is translated by the processor to that frame, with the
-- offset in the page kept.
pub translate-map_page :
    (s : Vmm) (directory k virtual flags last : ℕ)
    → Tables s.memory
        (last + 8 * (virtual / 2 ^ 12 % 512))
        (behind false directory)
        (upper_indices false virtual)
        last
    → k < 2 ^ 40
    → flags < 512
    → flags % 2 ≡ 1
    → (s' : Vmm) × (map_page false s directory (k * page_size) virtual flags ≡ some s')
      × (translate s'.memory (behind false directory) virtual
          ≡ some (k * page_size + virtual % page_size))
unfolding translate
translate-map_page s directory k virtual flags last tables frame_small flags_small present =
    let entry = bit_or (k * page_size) flags in
    let whole : entry ≡ k * page_size + flags =
      bit_or_disjoint 12 k flags (omega (arith, flags_small)) in
    let (pointer, last_at, walks) = Tables-Walks s.memory _ directory refl tables in
    let at : entry_address false pointer (index_at 12 virtual)
        ≡ last + 8 * (virtual / 2 ^ 12 % 512) =
      omega (arith, last_at, index_at_lem 12 virtual) in
    let found =
      walk-write s.memory _ entry (virtual / 2 ^ 12 % 512) tables refl
        (omega (arith, whole, present)) in
    let found' : walk (write s.memory (last + 8 * (virtual / 2 ^ 12 % 512)) entry)
          (behind false directory)
          (virtual / 2 ^ 39 % 512
            ∷ virtual / 2 ^ 30 % 512
            ∷ virtual / 2 ^ 21 % 512
            ∷ virtual / 2 ^ 12 % 512
            ∷ [])
        ≡ some (frame entry) =
      rw (index_at_lem 39 virtual, index_at_lem 30 virtual, index_at_lem 21 virtual) at found in
    let framed : frame entry ≡ k * page_size = omega (arith, whole, frame_small, flags_small) in
    (
      set_entry false s pointer virtual entry,
      (map_page-Walks false s directory (k * page_size) virtual flags pointer walks).0,
      rw (at, found', framed) refl,
    )
