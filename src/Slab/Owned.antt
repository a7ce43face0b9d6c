-- ===== src/Slab/Owned.antt =====
-- `slab_free` of an object that is in the range of one slab only.
use native.Mathlib.Nat.{add-mod_right}
use knut_os.Base.{
  ℕ, zero, suc, ◌+◌, ◌-◌, ◌%◌, ◌^◌, ◌≤◌, ◌<◌, ◌≡◌, ◌≢◌, refl, ◌∙◌, arith, some, List, [], ◌∷◌,
  get_elem?, set, true,
}
use knut_os.Base.Words.{add64, sub64}
use knut_os.Slab.{Slab, is_object, put_object, free_from, free}
use knut_os.Slab.Route.{Outside, is_object-Outside}

-- The address is that of an object of slab `k`, and in the range of no other.
pub record IsOwned (slabs : List Slab) (k : ℕ) (s : Slab) (o : ℕ) : Type 0 where
  pub low : s.start ≤ o
  pub high : o ≤ s.last
  pub aligned : (o - s.start) % s.size ≡ 0
  pub positive : 1 ≤ s.size
  pub no_wrap : o + s.size < 2 ^ 64
  pub others : (j : ℕ) (t : Slab) → j ≢ k → get_elem? slabs j ≡ some t → Outside o t

is_object-own :
    (s : Slab) (o : ℕ)
    → s.start ≤ o
    → o ≤ s.last
    → (o - s.start) % s.size ≡ 0
    → 1 ≤ s.size
    → o + s.size < 2 ^ 64
    → is_object s o ≡ some true
unfolding is_object
is_object-own s o low high aligned positive no_wrap =
    let offset : add64 (sub64 o s.start) s.size ≡ o - s.start + s.size =
      omega (arith, low, no_wrap) in
    let rest : (o - s.start + s.size) % s.size ≡ 0 = add-mod_right (o - s.start) s.size ∙ aligned in
    rw (offset, rest) (ground (arith, low, high, positive))

module _ (o : ℕ) where
  no_match :
      (slabs : List Slab)
      → ((j : ℕ) (t : Slab) → get_elem? slabs j ≡ some t → Outside o t)
      → (i : ℕ) → free_from o i slabs ≡ some slabs
  unfolding free_from
  no_match [] outside i = refl
  no_match (t ∷ slabs) outside i =
      rw
        (
          is_object-Outside o t (outside 0 t refl),
          no_match slabs (λ j u at. outside (suc j) u at) (i + 1),
        )
        refl

  free_from-reaches :
      (slabs : List Slab) (i k n : ℕ) (s s' : Slab)
      → n ≡ i + k
      → get_elem? slabs k ≡ some s
      → is_object s o ≡ some true
      → put_object o n s ≡ some (some s')
      → ((j : ℕ) (t : Slab) → j ≢ k → get_elem? slabs j ≡ some t → Outside o t)
      → free_from o i slabs ≡ some (set slabs k s')
  unfolding free_from
  free_from-reaches [] i k n s s' here at ours put others = cc
  free_from-reaches (t ∷ slabs) i zero n s s' here at ours put others =
      let same : t ≡ s = cc in
      let index : n ≡ i = omega (arith, here) in
      let ours' : is_object t o ≡ some true = rw same ours in
      let put' : put_object o i t ≡ some (some s') = rw (same, ← index) put in
      rw (ours', put', no_match slabs (λ j u at_j. others (suc j) u (omega arith) at_j) (i + 1))
        refl
  free_from-reaches (t ∷ slabs) i (suc k) n s s' here at ours put others =
      rw
        (
          is_object-Outside o t (others 0 t (omega arith) refl),
          free_from-reaches slabs (i + 1) k n s s' (omega (arith, here)) at ours put
              (λ j u ne at_j. others (suc j) u (λ e. ne (omega (arith, e))) at_j),
        )
        refl

-- `slab_free` of the object reaches that slab and no other.
pub free-reaches :
    (slabs : List Slab) (k : ℕ) (s s' : Slab) (o : ℕ)
    → o ≢ 0
    → get_elem? slabs k ≡ some s
    → IsOwned slabs k s o
    → put_object o k s ≡ some (some s')
    → free slabs o ≡ some (set slabs k s')
unfolding free
free-reaches slabs k s s' o ne at own put =
    let ours = is_object-own s o own.low own.high own.aligned own.positive own.no_wrap in
    let run = free_from-reaches o slabs 0 k k s s' (omega arith) at ours put own.others in
    ground (arith, ne, run)
