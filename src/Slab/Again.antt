-- ===== src/Slab/Again.antt =====
-- An object that is given back is the next one to be given.
use native.Mathlib.Decide.{ℕ_discrete}
use knut_os.Base.{
  ℕ, zero, suc, ◌≤◌, ◌<◌, ◌≡◌, ◌≢◌, refl, ap, ◌∙◌, arith, Option, some, List, [], ◌∷◌, length,
  get_or, set, false, get_or-set_self, get_or-set_ne, length-set,
}
use knut_os.Slab.{
  Slab, find_free, find_allocated, find_free_object, find_allocated_object, take_object, put_object,
  slab_count, max_objects_per_slab,
}
use knut_os.Slab.Sizes.{object_count, objects_per_slab_lem, object_count_bounds}
use knut_os.Slab.Object.{object_at, Took, was_full, becomes_full, took, take_object-Took}

find_allocated-head :
    (n : ℕ) (objects : List ℕ)
    → 1 ≤ n
    → 1 ≤ length objects
    → get_or objects 0 0 ≡ 0
    → find_allocated n 0 objects ≡ some (some 0)
unfolding find_allocated
find_allocated-head zero objects some_n some_o null = elim some_n [ ]
find_allocated-head (suc n) [] some_n some_o null = elim some_o [ ]
find_allocated-head (suc n) (x ∷ xs) some_n some_o null = ground (arith, null)

find_free-head :
    (n o : ℕ) (objects : List ℕ)
    → 1 ≤ n
    → 1 ≤ length objects
    → o ≢ 0
    → find_free n 0 (set objects 0 o) ≡ some (some 0)
unfolding find_free
find_free-head zero o objects some_n some_o ne = elim some_n [ ]
find_free-head (suc n) o [] some_n some_o ne = elim some_o [ ]
find_free-head (suc n) o (x ∷ xs) some_n some_o ne = ground (arith, ne)

set_head : (o : ℕ) (objects : List ℕ) → get_or objects 0 0 ≡ 0 → set (set objects 0 o) 0 0 ≡ objects
set_head o [] null = refl
set_head o (x ∷ xs) null = rw null refl

head_of : (o : ℕ) (objects : List ℕ) → 1 ≤ length objects → get_or (set objects 0 o) 0 0 ≡ o
head_of o [] some_o = elim some_o [ ]
head_of o (x ∷ xs) some_o = refl

-- A slab from which an object has been taken.
pub record IsTaken (s t : Slab) : Type 0 where
  pub not_full : t.is_full ≡ false
  pub head : object_at t 0 ≡ 0
  pub array : length t.objects ≡ max_objects_per_slab
  pub same_start : t.start ≡ s.start
  pub same_last : t.last ≡ s.last
  pub same_size : t.size ≡ s.size

-- The slab with an object at the head of its array.
abbrev pub with_head : Slab → ℕ → Slab
with_head t o = record t { objects = set t.objects 0 o }

module _ (i : ℕ) (valid : i < slab_count) where
  null_head :
      (objects : List ℕ) (j : ℕ)
      → j < length objects
      → ((k : ℕ) → k < j → get_or objects k 0 ≡ 0)
      → get_or (set objects j 0) 0 0 ≡ 0
  null_head objects j inside before = elim (ℕ_discrete j 0) [
    | yes z ↦ rw z (get_or-set_self objects 0 0 0 (omega (arith, inside)))
    | no ne ↦ get_or-set_ne objects j 0 0 0 ne ∙ before 0 (omega arith)
  ]

  Took-IsTaken :
      (s t : Slab) (o : ℕ) {r : Option (ℕ × Slab)}
      → length s.objects ≡ max_objects_per_slab
      → Took i s r
      → r ≡ some (o, t)
      → o ≢ 0
      → IsTaken s t
  Took-IsTaken s t o array (was_full full e) run ne = absurd (ne (cc))
  Took-IsTaken s t o array (becomes_full free none_left e) run ne = absurd (ne (cc))
  Took-IsTaken s t o array (took j free lt nz first e) run ne =
      let same : record s { objects = set s.objects j 0 } ≡ t = cc in
      rw (← same) (record {
        not_full = free;
        head =
            null_head s.objects j (omega (arith, array, lt, (object_count_bounds i valid).1)) first;
        array = length-set s.objects j 0 ∙ array;
        same_start = refl;
        same_last = refl;
        same_size = refl;
      })

  pub take_object-IsTaken :
      (s t : Slab) (o : ℕ)
      → length s.objects ≡ max_objects_per_slab
      → take_object i s ≡ some (o, t)
      → o ≢ 0
      → IsTaken s t
  take_object-IsTaken s t o array run ne =
      Took-IsTaken s t o array (take_object-Took i s valid array) run ne

  module _ (s t : Slab) (o : ℕ) (taken : IsTaken s t) (ne : o ≢ 0) where
    pub put_object-head : put_object o i t ≡ some (some (with_head t o))
    unfolding put_object find_allocated_object
    put_object-head =
        let here =
          find_allocated-head (object_count i) t.objects (object_count_bounds i valid).0
            (omega (arith, taken.array)) taken.head in
        rw (objects_per_slab_lem i valid, here) refl

    pub take_object-again : take_object i (with_head t o) ≡ some (o, t)
    unfolding take_object find_free_object
    take_object-again =
        let here =
          find_free-head (object_count i) o t.objects (object_count_bounds i valid).0
            (omega (arith, taken.array)) ne in
        rw (taken.not_full, objects_per_slab_lem i valid, here)
          (rw (head_of o t.objects (omega (arith, taken.array)), set_head o t.objects taken.head)
            (ap (λ b. some (o, record t { is_full = b })) taken.not_full))
