-- ===== src/Vmm/Others.antt =====
-- Mapping and unmapping a page, and the translation of the other pages.
use knut_os.Base.{
  ℕ, ◌+◌, ◌*◌, ◌/◌, ◌%◌, ◌^◌, ◌≡◌, ◌≢◌, refl, ap, ◌∙◌, arith, ◌==◌, ◌++◌, if◌then◌else◌, false,
  List, [], ◌∷◌, Option, none, some, ◌>>=◌, bit_or, Bool-cases, inl, inr,
}
use knut_os.Base.All.{All}
use knut_os.Mem.{page_size}
use knut_os.Vmm.{
  Vmm, behind, entry_address, write, index_at, upper_indices, set_entry, map_page, unmap_page,
}
use knut_os.Vmm.Walks.{map_page-Walks}
use knut_os.Vmm.Translate.{
  frame, walk, Tables, end, down, translate, index_at_lem, write-same, write-other, walk-step,
  Tables-Walks,
}

-- The addresses of the entries that the processor reads on its walk.
abbrev pub entries : (ℕ → ℕ) → ℕ → List ℕ → List ℕ
entries memory table [] = []
entries memory table (index ∷ indices) =
    let entry = memory (table + 8 * index) in
    let rest = entries memory (frame entry) indices in
    (table + 8 * index) ∷ (if entry % 2 == 0 then [] else rest)

-- The four indices of an address.
abbrev pub indices : ℕ → List ℕ
indices va = va / 2 ^ 39 % 512 ∷ va / 2 ^ 30 % 512 ∷ va / 2 ^ 21 % 512 ∷ va / 2 ^ 12 % 512 ∷ []

walk-other :
    (memory : ℕ → ℕ) (at v table : ℕ) (path : List ℕ)
    → All (λ a. a ≢ at) (entries memory table path)
    → walk (write memory at v) table path ≡ walk memory table path
unfolding walk
walk-other memory at v table [] avoid = refl
walk-other memory at v table (index ∷ path) avoid =
    let same = write-other memory at v (table + 8 * index) avoid.0 in
    elim (Bool-cases (memory (table + 8 * index) % 2 == 0)) [
      | inl absent ↦ rw (same, absent) refl
      | inr present ↦
          let rest : All (λ a. a ≢ at) (entries memory (frame (memory (table + 8 * index))) path) =
            rw present at avoid.1 in
          rw (same, present) (walk-other memory at v (frame (memory (table + 8 * index))) path rest)
    ]

-- The entry of the page becomes 0.
walk-clear :
    (memory : ℕ → ℕ) (apart i : ℕ) {table last : ℕ} {path : List ℕ}
    → Tables memory apart table path last
    → apart ≡ last + 8 * i
    → walk (write memory apart 0) table (path ++ i ∷ []) ≡ none
unfolding walk
walk-clear memory apart i {table} end at =
    let same : write memory apart 0 (table + 8 * i) ≡ 0 = rw (← at) (write-same memory apart 0) in
    rw same refl
walk-clear memory apart i {table} (down {index = index} {indices = path} set small flags ne rest)
      at =
    let same = write-other memory apart 0 (table + 8 * index) ne in
    walk-step (write memory apart 0) table index (path ++ i ∷ []) (ap (λ x. x % 2) same ∙ set)
    ∙ ap (λ x. walk (write memory apart 0) (frame x) (path ++ i ∷ [])) same
    ∙ walk-clear memory apart i rest at

translate-other :
    (memory : ℕ → ℕ) (at v root other : ℕ)
    → All (λ a. a ≢ at) (entries memory root (indices other))
    → translate (write memory at v) root other ≡ translate memory root other
unfolding translate
translate-other memory at v root other avoid =
    ap (λ (base : Option ℕ). base >>= λ b. some (b + other % page_size))
      (walk-other memory at v root (indices other) avoid)

-- With four levels whose tables are there, and whose last one is none of the others: after
-- `vmm_unmap_page` an access to the page is a page fault. Neither it nor `vmm_map_page`, with whatever
-- frame and flags, changes the translation of an address whose walk does not read the entry of the
-- page, be it mapped or not.
pub unmap_page-isolates :
    (s : Vmm) (directory virtual physical flags last other : ℕ)
    → Tables s.memory
        (last + 8 * (virtual / 2 ^ 12 % 512))
        (behind false directory)
        (upper_indices false virtual)
        last
    → All
        (λ a. a ≢ last + 8 * (virtual / 2 ^ 12 % 512))
        (entries s.memory (behind false directory) (indices other))
    → ((s' : Vmm) × (unmap_page false s directory virtual ≡ some s')
        × (translate s'.memory (behind false directory) virtual ≡ none)
        × (translate s'.memory (behind false directory) other
            ≡ translate s.memory (behind false directory) other))
      × ((s' : Vmm) × (map_page false s directory physical virtual flags ≡ some s')
          × (translate s'.memory (behind false directory) other
              ≡ translate s.memory (behind false directory) other))
unfolding translate
unmap_page-isolates s directory virtual physical flags last other tables avoid =
    let (pointer, last_at, walks) = Tables-Walks s.memory _ directory refl tables in
    let at : entry_address false pointer (index_at 12 virtual)
        ≡ last + 8 * (virtual / 2 ^ 12 % 512) =
      omega (arith, last_at, index_at_lem 12 virtual) in
    let runs = map_page-Walks false s directory physical virtual flags pointer walks in
    let gone = walk-clear s.memory _ (virtual / 2 ^ 12 % 512) tables refl in
    let gone' : walk (write s.memory (last + 8 * (virtual / 2 ^ 12 % 512)) 0)
          (behind false directory) (indices virtual)
        ≡ none =
      rw (index_at_lem 39 virtual, index_at_lem 30 virtual, index_at_lem 21 virtual) at gone in
    (
      (
        set_entry false s pointer virtual 0,
        runs.1,
        rw (at, gone') refl,
        rw at (translate-other s.memory _ 0 (behind false directory) other avoid),
      ),
      (
        set_entry false s pointer virtual (bit_or physical flags),
        runs.0,
        rw at (
            translate-other s.memory _ (bit_or physical flags) (behind false directory) other
              avoid),
      ),
    )
