-- ===== src/Slab.antt =====
-- src/kernel/memory/slab.c and slab.h: objects of the sizes 2, 4, …, 2048 bytes.
-- A pointer is a number, and 0 is NULL.
pub mod Init
pub mod Sizes
pub mod Search
pub mod Object
pub mod Owners
pub mod Route
pub mod Again
pub mod Owned
pub mod Samples
mod Tests
use mathlib.Core.Option
use knut_os.Base.{
  ℕ, zero, suc, ◌+◌, ◌-◌, ◌/◌, ◌%◌, ◌==◌, leb, if◌then◌else◌, Bool, true, false, not, ◌&&◌, List,
  [], ◌∷◌, Option, none, some, ◌>>=◌, ◌>>◌, require, get_or, set,
}
use knut_os.Base.Words.{add64, sub64}
use knut_os.Base.Int.{pos}
use knut_os.Power.{pow}

abbrev pub slab_count : ℕ
slab_count = 11

abbrev pub max_slab_size : ℕ
max_slab_size = 2048

abbrev pub max_objects_per_slab : ℕ
max_objects_per_slab = 1024

-- `slab_t` with its `address_range`. An object is the address of free memory, or NULL where the
-- memory is allocated.
pub record Slab : Type 0 where
  pub start : ℕ
  pub last : ℕ
  pub size : ℕ
  pub is_full : Bool
  pub objects : List ℕ

-- The size of the objects of slab `i`, and how many there are.
pub slab_size : ℕ → Option ℕ
slab_size i = pow (pos 2) (pos (i + 1))

pub objects_per_slab : ℕ → Option ℕ
unfolding slab_size
objects_per_slab i = do size ← slab_size i; require (not (size == 0)); some (max_slab_size / size)

-- The two searches, over the array from `i` on with `left` objects to go. `some none` is the -1.
pub find_free : ℕ → ℕ → List ℕ → Option (Option ℕ)
find_free zero i objects = some none
find_free (suc left) i [] = none
find_free (suc left) i (x ∷ objects) =
    let rest = find_free left (i + 1) objects in if x == 0 then rest else some (some i)

pub find_allocated : ℕ → ℕ → List ℕ → Option (Option ℕ)
find_allocated zero i objects = some none
find_allocated (suc left) i [] = none
find_allocated (suc left) i (x ∷ objects) =
    let rest = find_allocated left (i + 1) objects in if x == 0 then some (some i) else rest

pub find_free_object : ℕ → Slab → Option (Option ℕ)
unfolding find_free
find_free_object slab_index s = do n ← objects_per_slab slab_index; find_free n 0 s.objects

pub find_allocated_object : ℕ → Slab → Option (Option ℕ)
unfolding find_allocated
find_allocated_object slab_index s = do
  n ← objects_per_slab slab_index
  find_allocated n 0 s.objects

-- The body of the loop of `slab_alloc` at the slab of the wanted size.
pub take_object : ℕ → Slab → Option (ℕ × Slab)
take_object i s = if s.is_full then some (0, s) else do
  found ← find_free_object i s
  elim found [
    | none ↦ some (0, record s { is_full = true })
    | some j ↦ some (get_or s.objects j 0, record s { objects = set s.objects j 0 })
  ]

-- The loop of `slab_alloc` from slab `i` on: the pointer, and the slabs afterwards.
alloc_from : ℕ → ℕ → List Slab → Option (ℕ × List Slab)
alloc_from size i [] = some (0, [])
alloc_from size i (s ∷ slabs) =
    let rest = alloc_from size (i + 1) slabs in
    if s.size == size
    then (do (pointer, s') ← take_object i s; some (pointer, s' ∷ slabs))
    else (do (pointer, slabs') ← rest; some (pointer, s ∷ slabs'))

pub alloc : List Slab → ℕ → Option (ℕ × List Slab)
unfolding alloc_from
alloc slabs size = alloc_from size 0 slabs

-- Whether `slab_free` takes `ptr` for an object of the slab. The remainder is computed only where
-- the address is in range.
pub is_object : Slab → ℕ → Option Bool
is_object s ptr =
    if leb s.start ptr && leb ptr s.last
    then (do require (not (s.size == 0)); some (add64 (sub64 ptr s.start) s.size % s.size == 0))
    else some false

-- What `slab_free` does to such a slab; `some none` where it has no allocated object, and the
-- function returns.
pub put_object : ℕ → ℕ → Slab → Option (Option Slab)
put_object ptr i s = do
  found ← find_allocated_object i s
  elim found [
    | none ↦ some none
    | some j ↦ some (some (record s { objects = set s.objects j ptr }))
  ]

-- The loop of `slab_free` from slab `i` on. It goes on after a match.
free_from : ℕ → ℕ → List Slab → Option (List Slab)
free_from ptr i [] = some []
free_from ptr i (s ∷ slabs) =
    let rest = free_from ptr (i + 1) slabs in
    do
      ours ← is_object s ptr
      elim ours [
        | false ↦ Option.map (λ t. s ∷ t) rest
        | true ↦ do
          put ← put_object ptr i s
          elim put [ none ↦ some (s ∷ slabs) | some s' ↦ Option.map (λ t. s' ∷ t) rest ]
      ]

pub free : List Slab → ℕ → Option (List Slab)
unfolding free_from
free slabs ptr = if ptr == 0 then some slabs else free_from ptr 0 slabs
