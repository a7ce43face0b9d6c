-- ===== src/Slab/Init/First.antt =====
-- The first object of each slab of `slab_init`.
use native.Mathlib.Nat.{pow-le-pow_right, sub_self, zero-mod}
use native.Mathlib.Decide.{ℕ_discrete, dec_lt}
use knut_os.Base.{
  ℕ, zero, suc, ◌+◌, ◌-◌, ◌/◌, ◌^◌, ◌≤◌, ◌<◌, ◌≡◌, ◌≢◌, refl, sym, ap, ◌∙◌, arith, Option, some,
  List, [], ◌∷◌, ◌++◌, length, length-append, length-replicate, replicate, get_elem?, get_or, set,
  inl, inr, get_elem?-lt,
}
use knut_os.Slab.{Slab, take_object, slab_count, max_objects_per_slab}
use knut_os.Slab.Sizes.{object_count, object_count_bounds}
use knut_os.Slab.Object.{object_at, Took, was_full, becomes_full, took, take_object-Took}
use knut_os.Slab.Route.{Outside}
use knut_os.Slab.Owned.{IsOwned}
use knut_os.Slab.Init.Layout.{laid, addresses}
use knut_os.Slab.Init.Whole.{all_slabs}
use knut_os.Slab.Init.Starts.{start_of, slab_at, ArePages, start_bounds, start_ne}

length-addresses : (first size n : ℕ) → length (addresses first size n) ≡ n
length-addresses first size zero = refl
length-addresses first size (suc n) = ap suc (length-addresses (first + size) size n)

pub laid-array :
    (i first : ℕ) → i < slab_count → length (laid i first).objects ≡ max_objects_per_slab
laid-array i first valid = omega (
  arith,
  length-append (addresses first (2 ^ (i + 1)) (object_count i))
      (replicate (max_objects_per_slab - object_count i) 0),
  length-addresses first (2 ^ (i + 1)) (object_count i),
  length-replicate {A = ℕ} (max_objects_per_slab - object_count i) 0,
  (object_count_bounds i valid).1,
)

head-addresses :
    (first size n : ℕ) (rest : List ℕ) → 1 ≤ n → get_or (addresses first size n ++ rest) 0 0 ≡ first
head-addresses first size zero rest some_n = elim some_n [ ]
head-addresses first size (suc n) rest some_n = refl

module _ (i first : ℕ) (valid : i < slab_count) (ne : first ≢ 0) where
  head-laid : object_at (laid i first) 0 ≡ first
  head-laid =
      head-addresses first (2 ^ (i + 1)) (object_count i)
        (replicate (max_objects_per_slab - object_count i) 0) (object_count_bounds i valid).0

  first-Took :
      {r : Option (ℕ × Slab)} → Took i (laid i first) r → (t : Slab) × (r ≡ some (first, t))
  first-Took (was_full full e) = absurd (cc)
  first-Took (becomes_full free none_left e) =
      absurd (ne (sym head-laid ∙ none_left 0 (object_count_bounds i valid).0))
  first-Took (took j free lt nz before e) = elim (ℕ_discrete j 0) [
    | yes z ↦ (
      record (laid i first) { objects = set (laid i first).objects j 0 },
      e
          ∙ ap (λ x. some (x, record (laid i first) { objects = set (laid i first).objects j 0 }))
              (ap (object_at (laid i first)) z ∙ head-laid),
    )
    | no later ↦ absurd (ne (sym head-laid ∙ before 0 (omega arith)))
  ]

  -- The first call on a slab gives its first object.
  pub take_object-first : (t : Slab) × (take_object i (laid i first) ≡ some (first, t))
  take_object-first =
      first-Took (take_object-Took i (laid i first) valid (laid-array i first valid))

-- The range of a slab ends less than 2048 bytes behind its start, and that of a slab of up to 1024
-- bytes not before it.
laid-range :
    (i first : ℕ)
    → i < slab_count
    → 2048 ≤ first
    → first + 2048 < 2 ^ 64
    → ((laid i first).last < first + 1024) × (i ≤ 9 → first ≤ (laid i first).last)
laid-range i first valid low high =
    let size = (object_count_bounds i valid).2 in
    let large =
      pow-le-pow_right {n = 2} (omega arith) {i = i + 1} {j = 11} (omega (arith, valid)) in
    (
      omega (arith, size, large, low, high),
      λ small.
          let half =
            pow-le-pow_right {n = 2} (omega arith) {i = i + 1} {j = 10} (omega (arith, small)) in
          omega (arith, size, half, low, high),
    )

-- Of two slabs, the one is not in the range of the other.
start-Outside :
    (pages : List ℕ) (are : ArePages pages) (k j : ℕ)
    → k / 2 < length pages
    → j / 2 < length pages
    → j < slab_count
    → j ≢ k
    → Outside (start_of pages k) (laid j (start_of pages j))
start-Outside pages are k j in_k in_j valid ne =
    let (k_aligned, k_low, k_high) = start_bounds pages are k in_k in
    let (j_aligned, j_low, j_high) = start_bounds pages are j in_j in
    let apart = start_ne pages are k j in_k in_j (λ e. ne (sym e)) in
    let (ends, _) = laid-range j (start_of pages j) valid j_low j_high in
    elim (dec_lt (start_of pages k) (start_of pages j)) [
      | yes below ↦ inl below
      | no not_below ↦ inr (
          let gap : start_of pages j + 2048 ≤ start_of pages k =
            omega (arith, k_aligned, j_aligned, apart, not_below) in
          omega (arith, gap, ends))
    ]

module _ (a b c d e f : ℕ) (are : ArePages (a ∷ b ∷ c ∷ d ∷ e ∷ f ∷ [])) where
  -- The pages, and the slabs in them.
  abbrev pub pages : List ℕ
  pages = a ∷ b ∷ c ∷ d ∷ e ∷ f ∷ []

  abbrev pub slabs : List Slab
  slabs = all_slabs (a ∷ b ∷ c ∷ d ∷ e ∷ []) f

  pub slabs_at :
      (k : ℕ) (s : Slab) → get_elem? slabs k ≡ some s → (s ≡ laid k (start_of pages k)) × (k < 11)
  slabs_at k s at =
      (slab_at (a ∷ b ∷ c ∷ d ∷ e ∷ []) 0 f k k s (omega arith) at, get_elem?-lt slabs k at)

  -- The first object of a slab of up to 1024 bytes is in the range of its slab and of no other.
  pub first-IsOwned :
      (k : ℕ) (s : Slab)
      → k ≤ 9
      → get_elem? slabs k ≡ some s
      → IsOwned slabs k (laid k (start_of pages k)) (start_of pages k)
  first-IsOwned k s small at =
      let (aligned, low, high) = start_bounds pages are k (omega (arith, small)) in
      let size = (object_count_bounds k (omega (arith, small))).2 in
      let large =
        pow-le-pow_right {n = 2} (omega arith) {i = k + 1} {j = 10} (omega (arith, small)) in
      record {
        low = omega arith;
        high = (laid-range k (start_of pages k) (omega (arith, small)) low high).1 small;
        aligned = rw (sub_self (start_of pages k)) (zero-mod (2 ^ (k + 1)));
        positive = omega (arith, size);
        no_wrap = omega (arith, high, large);
        others = λ j t ne at_j.
            let (it, inside) = slabs_at j t at_j in
            rw it (
              start-Outside pages are k j (omega (arith, small)) (omega (arith, inside)) inside ne);
      }
