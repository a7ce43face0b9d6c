-- ===== src/Slab/Tests.antt =====
-- The slab of two objects of 1024 bytes, and an array of eleven slabs.
use knut_os.Base.{
  ℕ, zero, suc, ◌≡◌, ◌≢◌, refl, arith, some, [], ◌∷◌, length, get_or, replicate, length-replicate,
  false,
}
use knut_os.Slab.{Slab, take_object, find_free_object, find_free, max_objects_per_slab}
use knut_os.Slab.Sizes.{objects_per_slab_lem}
use knut_os.Slab.Object.{object_at}
use knut_os.Slab.Owners.{Step, Reach, no_object_out_twice}

abbrev pair_of : ℕ → ℕ → Slab
pair_of a b = record {
  start = 0x5000;
  last = 0x5000;
  size = 1024;
  is_full = false;
  objects = a ∷ b ∷ replicate 1022 0;
}

abbrev fresh : Slab
fresh = pair_of 0x5000 0x5400

abbrev first : ℕ
first = 0x5000

abbrev second : ℕ
second = 0x5400

zeros : (n j : ℕ) → get_or {A = ℕ} (replicate n 0) j 0 ≡ 0
zeros zero j = refl
zeros (suc n) zero = refl
zeros (suc n) (suc j) = zeros n j

array : (a b : ℕ) → length (pair_of a b).objects ≡ max_objects_per_slab
array a b = omega (arith, length-replicate {A = ℕ} 1022 0)

once : (j k : ℕ) → object_at fresh j ≢ 0 → object_at fresh j ≡ object_at fresh k → j ≡ k
once zero zero ne e = refl
once zero (suc zero) ne e = absurd (omega (arith, e))
once zero (suc (suc k)) ne e = absurd (omega (arith, e, zeros 1022 k))
once (suc zero) zero ne e = absurd (omega (arith, e))
once (suc zero) (suc zero) ne e = refl
once (suc zero) (suc (suc k)) ne e = absurd (omega (arith, e, zeros 1022 k))
once (suc (suc j)) k ne e = absurd (ne (zeros 1022 j))

take_first : take_object 9 fresh ≡ some (0x5000, pair_of 0 0x5400)
unfolding take_object find_free_object find_free
take_first = rw (objects_per_slab_lem 9 (omega arith)) refl

take_second : take_object 9 (pair_of 0 0x5400) ≡ some (0x5400, pair_of 0 0)
unfolding take_object find_free_object find_free
take_second = rw (objects_per_slab_lem 9 (omega arith)) refl

both_out : Reach 9 fresh (record { slab = pair_of 0 0; owned = second ∷ first ∷ [] })
both_out =
    Reach.later
      (Reach.later Reach.start (Step.takes 0x5000 (pair_of 0 0x5400) take_first (omega arith)))
      (Step.takes 0x5400 (pair_of 0 0) take_second (omega arith))

no_object_out_twice_example : (second ≢ first) × ((j : ℕ) → object_at (pair_of 0 0) j ≢ second)
no_object_out_twice_example =
    no_object_out_twice (omega arith) (array 0x5000 0x5400) once both_out 0 1 refl refl
      (omega arith)
