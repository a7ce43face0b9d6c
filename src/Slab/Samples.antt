-- ===== src/Slab/Samples.antt =====
-- An array of eleven slabs.
use knut_os.Base.{
  ℕ, zero, suc, ◌+◌, ◌^◌, ◌≡◌, refl, arith, some, List, [], ◌∷◌, ◌++◌, ◌⊎◌, inl, inr, sym, ap, ◌∙◌,
  get_elem?, replicate, true, false,
}
use knut_os.Slab.Sizes.{objects_per_slab_lem}
use knut_os.Str.Laws.{drop}
use knut_os.Slab.{Slab, alloc, alloc_from, take_object, find_free_object, find_free}
use knut_os.Slab.Route.{IsSized}
use knut_os.Slab.Owned.{IsOwned}

abbrev pub full_of_size : ℕ → Slab
full_of_size i = record {
  start = 0x5000;
  last = 0x5400;
  size = 2 ^ (i + 1);
  is_full = true;
  objects = replicate 1024 0x5000;
}

abbrev pub row : ℕ → ℕ → List Slab
row i zero = []
row i (suc n) = full_of_size i ∷ row (i + 1) n

row-sized :
    (n i k m : ℕ) (s : Slab) → m ≡ i + k → get_elem? (row i n) k ≡ some s → s.size ≡ 2 ^ (m + 1)
row-sized zero i k m s e at = cc
row-sized (suc n) i zero m s e at =
    let same : m ≡ i = omega (arith, e) in let it : full_of_size i ≡ s = cc in rw (← it, same) refl
row-sized (suc n) i (suc k) m s e at = row-sized n (i + 1) k m s (omega (arith, e)) at

pub row-IsSized : IsSized (row 0 11)
row-IsSized k s at = row-sized 11 0 k k s (omega arith) at

-- The objects after `n` of the four have been taken, and their slab.
abbrev pub taken : ℕ → List ℕ
taken n = replicate n 0 ++ drop n (0x6000 ∷ 0x6200 ∷ 0x6400 ∷ 0x6600 ∷ [])

abbrev pub shelf_slab : ℕ → Slab
shelf_slab n = record {
  start = 0x6000;
  last = 0x6800;
  size = 512;
  is_full = false;
  objects = taken n ++ replicate 1020 0;
}

-- The slabs up to 256 bytes are full, and the one of 512 bytes has those objects.
abbrev pub shelf : ℕ → List Slab
shelf n = row 0 8 ++ shelf_slab n ∷ []

pub shelf_runs :
    (alloc (shelf 0) 512 ≡ some (0x6000, shelf 1))
    × (alloc (shelf 1) 512 ≡ some (0x6200, shelf 2))
    × (alloc (shelf 2) 512 ≡ some (0x6400, shelf 3))
    × (alloc (shelf 3) 512 ≡ some (0x6600, shelf 4))
unfolding alloc alloc_from take_object find_free_object find_free
shelf_runs =
    let four = objects_per_slab_lem 8 (omega arith) in
    (rw four refl, rw four refl, rw four refl, rw four refl)

pub shelf_slab_run : take_object 8 (shelf_slab 0) ≡ some (0x6000, shelf_slab 1)
unfolding take_object find_free_object find_free
shelf_slab_run = rw (objects_per_slab_lem 8 (omega arith)) refl

row_cases :
    (n i k : ℕ) (x s : Slab)
    → get_elem? (row i n ++ x ∷ []) k ≡ some s
    → ((k ≡ n) × (x ≡ s)) ⊎ (s ≡ full_of_size (i + k))
row_cases zero i zero x s at = inl (refl, cc)
row_cases zero i (suc k) x s at = cc
row_cases (suc n) i zero x s at =
    let it : full_of_size i ≡ s = cc in inr (sym it ∙ ap full_of_size (omega arith))
row_cases (suc n) i (suc k) x s at = elim (row_cases n (i + 1) k x s at) [
  | inl (same, it) ↦ inl (ap suc same, it)
  | inr it ↦ inr (it ∙ ap full_of_size (omega arith))
]

pub shelf-IsSized : IsSized (shelf 0)
shelf-IsSized k s at = elim (row_cases 8 0 k (shelf_slab 0) s at) [
  | inl (same, it) ↦ rw (← it, same) refl
  | inr it ↦ rw it (ap (λ j. 2 ^ (j + 1)) (omega arith))
]

pub shelf-IsOwned : IsOwned (shelf 0) 8 (shelf_slab 0) 0x6000
shelf-IsOwned = record {
  low = omega arith;
  high = omega arith;
  aligned = refl;
  positive = omega arith;
  no_wrap = omega arith;
  others = λ j t ne at. elim (row_cases 8 0 j (shelf_slab 0) t at) [
    | inl (same, it) ↦ absurd (ne same)
    | inr it ↦ inr (rw it (omega arith))
  ];
}
