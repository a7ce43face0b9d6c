-- ===== src/Slab/Search.antt =====
-- The searches for a free and for an allocated object find the first one.
use knut_os.Base.{
  ℕ, zero, suc, ◌+◌, ◌≤◌, ◌<◌, ◌≡◌, ◌≢◌, refl, ap, ◌∙◌, arith, Option, none, some, List, [], ◌∷◌,
  length, get_or,
}
use native.Mathlib.Decide.{ℕ_discrete}
use knut_os.Slab.{find_free, find_allocated}

-- What a search for an object with `P` says of the first `n` objects, numbered from `i` on.
pub data Found {κ} (P : ℕ → Type κ) (objects : List ℕ) (n i : ℕ) (r : Option (Option ℕ))
    : Type κ where
  missing : r ≡ some none → ((j : ℕ) → j < n → ¬ P (get_or objects j 0)) → Found P objects n i r
  found :
      (j : ℕ)
      → r ≡ some (some (i + j))
      → j < n
      → P (get_or objects j 0)
      → ((k : ℕ) → k < j → ¬ P (get_or objects k 0))
      → Found P objects n i r

Found-cons {κ} :
    {P : ℕ → Type κ} {x : ℕ} {objects : List ℕ} {n i : ℕ} {r : Option (Option ℕ)}
    → ¬ P x
    → Found P objects n (i + 1) r
    → Found P (x ∷ objects) (suc n) i r
Found-cons {P = P} {x} {objects} {n} {i} h (missing e rest) = missing e at
  where
    at : (j : ℕ) → j < suc n → ¬ P (get_or (x ∷ objects) j 0)
    at zero lt = h
    at (suc j) lt = rest j (omega arith)
Found-cons {P = P} {x} {objects} {n} {i} h (found j e lt p rest) =
    found (suc j) (e ∙ ap (λ k. some (some k)) (omega arith)) (omega arith) p at
  where
    at : (k : ℕ) → k < suc j → ¬ P (get_or (x ∷ objects) k 0)
    at zero less = h
    at (suc k) less = rest k (omega arith)

abbrev pub NotNull : ℕ → Type 0
NotNull x = x ≢ 0

abbrev pub Null : ℕ → Type 0
Null x = x ≡ 0

pub find_free-Found :
    (n i : ℕ) (objects : List ℕ)
    → n ≤ length objects
    → Found NotNull objects n i (find_free n i objects)
unfolding find_free
find_free-Found zero i objects h = missing refl (λ j lt. elim lt [ ])
find_free-Found (suc n) i [] h = elim h [ ]
find_free-Found (suc n) i (x ∷ objects) h = elim (ℕ_discrete x 0) [
  | yes e ↦
      let skip : find_free (suc n) i (x ∷ objects) ≡ find_free n (i + 1) objects = ground arith in
      rw skip (Found-cons (λ ne. ne e) (find_free-Found n (i + 1) objects (omega arith)))
  | no ne ↦ found 0 (ground arith) (omega arith) ne (λ k lt. elim lt [ ])
]

pub find_allocated-Found :
    (n i : ℕ) (objects : List ℕ)
    → n ≤ length objects
    → Found Null objects n i (find_allocated n i objects)
unfolding find_allocated
find_allocated-Found zero i objects h = missing refl (λ j lt. elim lt [ ])
find_allocated-Found (suc n) i [] h = elim h [ ]
find_allocated-Found (suc n) i (x ∷ objects) h = elim (ℕ_discrete x 0) [
  | yes e ↦ found 0 (ground arith) (omega arith) e (λ k lt. elim lt [ ])
  | no ne ↦
      let skip : find_allocated (suc n) i (x ∷ objects) ≡ find_allocated n (i + 1) objects =
        ground arith in
      rw skip (Found-cons ne (find_allocated-Found n (i + 1) objects (omega arith)))
]
