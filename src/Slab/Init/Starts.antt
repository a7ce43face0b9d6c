-- ===== src/Slab/Init/Starts.antt =====
-- Where the slabs of `slab_init` start, and that their ranges do not meet.
use native.Mathlib.Decide.{ℕ_discrete}
use knut_os.Base.{
  ℕ, zero, suc, ◌+◌, ◌*◌, ◌/◌, ◌%◌, ◌^◌, ◌≤◌, ◌<◌, ◌≡◌, ◌≢◌, refl, sym, ap, ◌∙◌, arith, some, List,
  [], ◌∷◌, ◌++◌, length, get_or, get_elem?,
}
use knut_os.Mem.{page_size}
use knut_os.Slab.{Slab}
use knut_os.Slab.Init.Layout.{laid}
use knut_os.Slab.Init.Whole.{two_each, after}

-- The page of slab `m`, and its half.
abbrev pub start_of : List ℕ → ℕ → ℕ
start_of pages m = get_or pages (m / 2) 0 + 2048 * (m % 2)

start_of-next : (q m : ℕ) (pages : List ℕ) → start_of (q ∷ pages) (suc (suc m)) ≡ start_of pages m
start_of-next q m pages =
    let half : suc (suc m) / 2 ≡ suc (m / 2) = omega arith in
    let rest : suc (suc m) % 2 ≡ m % 2 = omega arith in rw (half, rest) refl

pub slab_at :
    (ps : List ℕ) (i p m k : ℕ) (s : Slab)
    → k ≡ i + m
    → get_elem? (two_each i ps ++ laid (after ps i) p ∷ []) m ≡ some s
    → s ≡ laid k (start_of (ps ++ p ∷ []) m)
slab_at [] i p zero k s e at =
    let same : k ≡ i = omega (arith, e) in
    let it : laid i p ≡ s = cc in sym it ∙ rw same (ap (laid i) (omega arith))
slab_at [] i p (suc m) k s e at = cc
slab_at (q ∷ ps) i p zero k s e at =
    let same : k ≡ i = omega (arith, e) in
    let it : laid i q ≡ s = cc in sym it ∙ rw same (ap (laid i) (omega arith))
slab_at (q ∷ ps) i p (suc zero) k s e at =
    let same : k ≡ i + 1 = omega (arith, e) in
    let it : laid (i + 1) (q + 2048) ≡ s = cc in sym it ∙ rw same (ap (laid (i + 1)) (omega arith))
slab_at (q ∷ ps) i p (suc (suc m)) k s e at =
    slab_at ps (i + 1 + 1) p m k s (omega (arith, e)) at
    ∙ ap (laid k) (sym (start_of-next q m (ps ++ p ∷ [])))

-- Pages of memory, no two of them the same.
pub record ArePages (pages : List ℕ) : Type 0 where
  pub aligned : (i : ℕ) → i < length pages → get_or pages i 0 % page_size ≡ 0
  pub not_null : (i : ℕ) → i < length pages → get_or pages i 0 ≢ 0
  pub no_wrap : (i : ℕ) → i < length pages → get_or pages i 0 + page_size < 2 ^ 64
  pub distinct :
      (i j : ℕ) → i < length pages → j < length pages → i ≢ j → get_or pages i 0 ≢ get_or pages j 0

module _ (pages : List ℕ) (are : ArePages pages) where
  pub start_bounds :
      (k : ℕ)
      → k / 2 < length pages
      → (start_of pages k % 2048 ≡ 0)
        × (2048 ≤ start_of pages k)
        × (start_of pages k + 2048 < 2 ^ 64)
  start_bounds k inside =
      let a = are.aligned (k / 2) inside in
      let n = are.not_null (k / 2) inside in
      let w = are.no_wrap (k / 2) inside in
      (omega (arith, a), omega (arith, a, n), omega (arith, w))

  pub start_ne :
      (k j : ℕ)
      → k / 2 < length pages
      → j / 2 < length pages
      → k ≢ j
      → start_of pages k ≢ start_of pages j
  start_ne k j in_k in_j ne = elim (ℕ_discrete (k / 2) (j / 2)) [
    | yes same ↦ λ e. ne (omega (arith, e, same, ap (λ h. get_or pages h 0) same))
    | no other ↦
        let apart = are.distinct (k / 2) (j / 2) in_k in_j other in
        λ e. omega (arith, e, apart, are.aligned (k / 2) in_k, are.aligned (j / 2) in_j)
  ]
