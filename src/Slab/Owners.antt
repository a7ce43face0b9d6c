-- ===== src/Slab/Owners.antt =====
-- Clients of one slab: whoever gets an object owns it until it is given back.
use native.Mathlib.Decide.{ℕ_discrete}
use knut_os.Base.{
  ℕ, ◌<◌, ◌≡◌, ◌≢◌, refl, sym, ◌∙◌, arith, Option, some, List, [], ◌∷◌, ◌==◌, if◌then◌else◌, length,
  get_or-set_self, get_or-set_ne, set, length-set, get_elem?, true,
}
use knut_os.Base.All.{
  All, Distinct, remove, All-map, All-zip, All-remove, All-get, Distinct-remove, removed-ne,
  Distinct-get,
}
use knut_os.Slab.{Slab, take_object, put_object, slab_count, max_objects_per_slab}
use knut_os.Slab.Sizes.{object_count, object_count_bounds}
use knut_os.Slab.Object.{
  object_at, Took, was_full, becomes_full, took, take_object-Took, Put, none_allocated, put,
  put_object-Put,
}

pub record Client : Type 0 where
  pub slab : Slab
  pub owned : List ℕ

-- A call of `slab_alloc` that reaches the slab `i`, or one of `slab_free` by the owner of an object.
pub data Step (i : ℕ) (c : Client) : Client → Type 0 where
  takes :
      (pointer : ℕ) (s : Slab)
      → take_object i c.slab ≡ some (pointer, s)
      → pointer ≢ 0
      → Step i c (record { slab = s; owned = pointer ∷ c.owned })
  fails : (s : Slab) → take_object i c.slab ≡ some (0, s) → Step i c (record c { slab = s })
  puts :
      (at pointer : ℕ) (s : Slab)
      → get_elem? c.owned at ≡ some pointer
      → put_object pointer i c.slab ≡ some (some s)
      → Step i c (record { slab = s; owned = remove c.owned at })

pub data Reach (i : ℕ) (s : Slab) : Client → Type 0 where
  start : Reach i s (record { slab = s; owned = [] })
  later : {c d : Client} → Reach i s c → Step i c d → Reach i s d

-- An address that is not NULL stands in the array at one place at most.
pub record IsSafe (i : ℕ) (c : Client) : Type 0 where
  pub array : length c.slab.objects ≡ max_objects_per_slab
  pub once : (j k : ℕ) → object_at c.slab j ≢ 0 → object_at c.slab j ≡ object_at c.slab k → j ≡ k
  pub out : All (λ x. (x ≢ 0) × ((j : ℕ) → object_at c.slab j ≢ x)) c.owned
  pub distinct : Distinct (λ x. x) c.owned

-- The array with the entry `j` made `v`.
abbrev written : Slab → ℕ → ℕ → Slab
written s j v = record s { objects = set s.objects j v }

module _ (s : Slab) (j v : ℕ) (inside : j < length s.objects) where
  object_at-written : (k : ℕ) → object_at (written s j v) k ≡ (if j == k then v else object_at s k)
  object_at-written k = elim (ℕ_discrete j k) [
    | yes e ↦ rw (← e) (get_or-set_self s.objects j v 0 inside ∙ ground arith)
    | no ne ↦ get_or-set_ne s.objects j k v 0 ne ∙ ground arith
  ]

  written-out :
      (x : ℕ)
      → (x ≢ 0) × ((k : ℕ) → object_at s k ≢ x) × (v ≢ x)
      → (x ≢ 0) × ((k : ℕ) → object_at (written s j v) k ≢ x)
  written-out x (ne, absent, other) = (ne, λ k e. ground (arith, object_at-written k, absent k))

  written-once :
      ((a b : ℕ) → object_at s a ≢ 0 → object_at s a ≡ object_at s b → a ≡ b)
      → ((k : ℕ) → v ≢ 0 → object_at s k ≢ v)
      → (a b : ℕ) → object_at (written s j v) a ≢ 0
      → object_at (written s j v) a ≡ object_at (written s j v) b
      → a ≡ b
  written-once once fresh a b ne e =
      ground (arith, object_at-written a, object_at-written b, once a b, fresh a, fresh b)

-- An address that is out is not NULL and stands nowhere in the array.
abbrev pub IsOut : Slab → ℕ → Type 0
IsOut s x = (x ≢ 0) × ((j : ℕ) → object_at s j ≢ x)

module _ (i : ℕ) (valid : i < slab_count) (s : Slab) (owned : List ℕ)
    (safe : IsSafe i (record { slab = s; owned = owned })) where
  inside : (j : ℕ) → j < object_count i → j < length s.objects
  inside j lt = omega (arith, safe.array, (object_count_bounds i valid).1)

  took-IsSafe :
      (j : ℕ)
      → j < object_count i
      → object_at s j ≢ 0
      → IsSafe i (record { slab = written s j 0; owned = object_at s j ∷ owned })
  took-IsSafe j lt ne = record {
    array = length-set s.objects j 0 ∙ safe.array;
    once = written-once s j 0 (inside j lt) safe.once (λ k h. absurd (h refl));
    out = (
      (ne, (λ k e. ground (arith, object_at-written s j 0 (inside j lt) k, safe.once j k))),
      All-map (IsOut s) (IsOut (written s j 0))
          (λ x h. written-out s j 0 (inside j lt) x (h.0, h.1, (λ e. h.0 (sym e)))) owned safe.out,
    );
    distinct =
        (All-map (IsOut s) (λ y. object_at s j ≢ y) (λ y h. h.1 j) owned safe.out, safe.distinct);
  }

  put-IsSafe :
      (at j pointer : ℕ)
      → get_elem? owned at ≡ some pointer
      → j < object_count i
      → IsSafe i (record { slab = written s j pointer; owned = remove owned at })
  put-IsSafe at j pointer e lt =
      let (ne, absent) = All-get (IsOut s) owned at safe.out e in
      record {
        array = length-set s.objects j pointer ∙ safe.array;
        once = written-once s j pointer (inside j lt) safe.once (λ k h. absent k);
        out =
            All-map (λ x. IsOut s x × (pointer ≢ x)) (IsOut (written s j pointer))
              (λ x h. written-out s j pointer (inside j lt) x (h.0.0, h.0.1, h.1)) (remove owned at)
              (All-zip (IsOut s) (λ x. pointer ≢ x) (remove owned at)
                (All-remove (IsOut s) owned at safe.out)
                (removed-ne (λ x. x) owned at safe.distinct e));
        distinct = Distinct-remove (λ x. x) owned at safe.distinct;
      }

  taken-IsSafe :
      {r : Option (ℕ × Slab)} {pointer : ℕ} {t : Slab}
      → Took i s r
      → r ≡ some (pointer, t)
      → pointer ≢ 0
      → IsSafe i (record { slab = t; owned = pointer ∷ owned })
  taken-IsSafe (was_full full e) run ne = absurd (ne (cc))
  taken-IsSafe (becomes_full free none_left e) run ne = absurd (ne (cc))
  taken-IsSafe {pointer = pointer} {t} (took j free lt nz first e) run ne =
      let here : object_at s j ≡ pointer = cc in
      let same : written s j 0 ≡ t = cc in rw (← here, ← same) (took-IsSafe j lt nz)

  failed-IsSafe :
      {r : Option (ℕ × Slab)} {t : Slab}
      → Took i s r
      → r ≡ some (0, t)
      → IsSafe i (record { slab = t; owned = owned })
  failed-IsSafe {t = t} (was_full full e) run = let same : s ≡ t = cc in rw (← same) safe
  failed-IsSafe {t = t} (becomes_full free none_left e) run =
      let same : record s { is_full = true } ≡ t = cc in
      rw (← same)
        (record { array = safe.array; once = safe.once; out = safe.out; distinct = safe.distinct })
  failed-IsSafe (took j free lt nz first e) run = absurd (nz (cc))

  Put-IsSafe :
      (at pointer : ℕ) {r : Option (Option Slab)} {t : Slab}
      → get_elem? owned at ≡ some pointer
      → Put pointer i s r
      → r ≡ some (some t)
      → IsSafe i (record { slab = t; owned = remove owned at })
  Put-IsSafe at pointer at_e (none_allocated h e) run = cc
  Put-IsSafe at pointer {t = t} at_e (put j lt z e) run =
      let same : written s j pointer ≡ t = cc in rw (← same) (put-IsSafe at j pointer at_e lt)

Step-IsSafe : {i : ℕ} {c d : Client} → i < slab_count → Step i c d → IsSafe i c → IsSafe i d
Step-IsSafe {i} {c} valid (takes pointer s run ne) safe =
    taken-IsSafe i valid c.slab c.owned safe (take_object-Took i c.slab valid safe.array) run ne
Step-IsSafe {i} {c} valid (fails s run) safe =
    failed-IsSafe i valid c.slab c.owned safe (take_object-Took i c.slab valid safe.array) run
Step-IsSafe {i} {c} valid (puts at pointer s e run) safe =
    Put-IsSafe i valid c.slab c.owned safe at pointer e
      (put_object-Put i c.slab valid safe.array pointer) run

Reach-IsSafe :
    {i : ℕ} {s : Slab} {c : Client}
    → i < slab_count
    → IsSafe i (record { slab = s; owned = [] })
    → Reach i s c
    → IsSafe i c
Reach-IsSafe valid fresh start = fresh
Reach-IsSafe valid fresh (later r st) = Step-IsSafe valid st (Reach-IsSafe valid fresh r)

-- From a slab whose objects are all different, whatever its owners take and put back: no object is
-- out twice, and none that is out is still offered by the array.
pub no_object_out_twice :
    {i : ℕ} {s : Slab} {c : Client} {x y : ℕ}
    → i < slab_count
    → length s.objects ≡ max_objects_per_slab
    → ((j k : ℕ) → object_at s j ≢ 0 → object_at s j ≡ object_at s k → j ≡ k)
    → Reach i s c
    → (a b : ℕ) → get_elem? c.owned a ≡ some x
    → get_elem? c.owned b ≡ some y
    → a ≢ b
    → (x ≢ y) × ((j : ℕ) → object_at c.slab j ≢ x)
no_object_out_twice {c = c} valid array once r a b at_a at_b ne =
    let safe =
      Reach-IsSafe valid (record { array = array; once = once; out = tt; distinct = tt }) r in
    (
      Distinct-get (λ x. x) c.owned a b safe.distinct at_a at_b ne,
      (All-get (IsOut c.slab) c.owned a safe.out at_a).1,
    )
