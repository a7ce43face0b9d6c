-- ===== src/Slab/Object.antt =====
-- What taking an object from a slab and putting one back do to its array.
use knut_os.Base.{
  ℕ, ◌≤◌, ◌<◌, ◌≡◌, ◌≢◌, refl, ap, ◌∙◌, arith, Option, none, some, length, get_or, set, true, false,
  Bool-cases, inl, inr,
}
use native.Mathlib.Decide.{ℕ_discrete}
use knut_os.Slab.{
  Slab, find_free, find_allocated, find_free_object, find_allocated_object, take_object, put_object,
  slab_count, max_objects_per_slab,
}
use knut_os.Slab.Sizes.{object_count, objects_per_slab_lem, object_count_bounds}
use knut_os.Slab.Search.{
  Found, missing, found, NotNull, Null, find_free-Found, find_allocated-Found,
}

abbrev pub object_at : Slab → ℕ → ℕ
object_at s j = get_or s.objects j 0

-- What `slab_alloc` does at the slab `i`.
pub data Took (i : ℕ) (s : Slab) (r : Option (ℕ × Slab)) : Type 0 where
  was_full : s.is_full ≡ true → r ≡ some (0, s) → Took i s r
  becomes_full :
      s.is_full ≡ false
      → ((j : ℕ) → j < object_count i → object_at s j ≡ 0)
      → r ≡ some (0, record s { is_full = true })
      → Took i s r
  took :
      (j : ℕ)
      → s.is_full ≡ false
      → j < object_count i
      → object_at s j ≢ 0
      → ((k : ℕ) → k < j → object_at s k ≡ 0)
      → r ≡ some (object_at s j, record s { objects = set s.objects j 0 })
      → Took i s r

-- What `slab_free` does at the slab `i` that it takes the pointer for an object of.
pub data Put (ptr i : ℕ) (s : Slab) (r : Option (Option Slab)) : Type 0 where
  none_allocated :
      ((j : ℕ) → j < object_count i → object_at s j ≢ 0) → r ≡ some none → Put ptr i s r
  put :
      (j : ℕ)
      → j < object_count i
      → object_at s j ≡ 0
      → r ≡ some (some (record s { objects = set s.objects j ptr }))
      → Put ptr i s r

not-NotNull : (x : ℕ) → ¬ NotNull x → x ≡ 0
not-NotNull x h = elim (ℕ_discrete x 0) [ yes e ↦ e | no ne ↦ absurd (h ne) ]

module _ (i : ℕ) (s : Slab) (valid : i < slab_count)
    (array : length s.objects ≡ max_objects_per_slab) where
  fits : object_count i ≤ length s.objects
  fits = omega (arith, array, (object_count_bounds i valid).1)

  take_not_full :
      s.is_full ≡ false
      → Found NotNull s.objects (object_count i) 0 (find_free (object_count i) 0 s.objects)
      → Took i s (take_object i s)
  unfolding take_object find_free_object
  take_not_full free (missing e h) =
      becomes_full free (λ j lt. not-NotNull _ (h j lt))
        (simp (free, objects_per_slab_lem i valid, e))
  take_not_full free (found j e lt p h) =
      let at : find_free (object_count i) 0 s.objects ≡ some (some j) =
        e ∙ ap (λ k. some (some k)) (omega arith) in
      took j free lt p (λ k less. not-NotNull _ (h k less))
        (simp (free, objects_per_slab_lem i valid, at))

  -- On a slab marked full `slab_alloc` gives NULL and changes nothing; with no free object left it
  -- marks the slab and gives NULL; else it gives the first free object and makes its entry NULL.
  pub take_object-Took : Took i s (take_object i s)
  take_object-Took = elim (Bool-cases s.is_full) [
    | inl full ↦ was_full full (unfold take_object in rw full refl)
    | inr free ↦ take_not_full free (find_free-Found (object_count i) 0 s.objects fits)
  ]

  Put-Found :
      (ptr : ℕ)
      → Found Null s.objects (object_count i) 0 (find_allocated (object_count i) 0 s.objects)
      → Put ptr i s (put_object ptr i s)
  unfolding put_object find_allocated_object
  Put-Found ptr (missing e h) = none_allocated h (rw (objects_per_slab_lem i valid, e) refl)
  Put-Found ptr (found j e lt p h) =
      let at : find_allocated (object_count i) 0 s.objects ≡ some (some j) =
        e ∙ ap (λ k. some (some k)) (omega arith) in
      put j lt p (rw (objects_per_slab_lem i valid, at) refl)

  -- `slab_free` writes the pointer over an entry that is NULL, or gives up where there is none.
  pub put_object-Put : (ptr : ℕ) → Put ptr i s (put_object ptr i s)
  put_object-Put ptr = Put-Found ptr (find_allocated-Found (object_count i) 0 s.objects fits)
