-- ===== src/Slab/Route.antt =====
-- Which slabs a call of `slab_alloc` or `slab_free` reaches.
use knut_os.Base.{
  ◌⊎◌, inl, inr, false, ℕ, zero, suc, ◌+◌, ◌^◌, ◌<◌, ◌≡◌, ◌≢◌, refl, ap, sym, ◌∙◌, arith, Option,
  some, ◌>>=◌, >>=-some, List, [], ◌∷◌, length, get_elem?, get_elem?-lt, set,
}
use knut_os.Base.All.{All}
use knut_os.Slab.{Slab, alloc, alloc_from, take_object, is_object, free_from, free}
use knut_os.Slab.Sizes.{two-pow-lt}

-- What `slab_alloc` does when the slab `k` is the one of the wanted size.
abbrev pub at_slab : List Slab → ℕ → Slab → Option (ℕ × List Slab)
at_slab slabs k s = do (pointer, s') ← take_object k s; some (pointer, set slabs k s')

-- Slab `k` of the array has objects of `2 ^ (k + 1)` bytes.
abbrev pub IsSized : List Slab → Type 0
IsSized slabs = (k : ℕ) (s : Slab) → get_elem? slabs k ≡ some s → s.size ≡ 2 ^ (k + 1)

alloc_from-skip :
    (size i : ℕ) (t : Slab) (slabs : List Slab)
    → t.size ≢ size
    → alloc_from size i (t ∷ slabs) ≡ (alloc_from size (i + 1) slabs >>= λ r. some (r.0, t ∷ r.1))
unfolding alloc_from
alloc_from-skip size i t slabs ne = ground arith

alloc_from-here :
    (size i : ℕ) (t : Slab) (slabs : List Slab)
    → t.size ≡ size
    → alloc_from size i (t ∷ slabs) ≡ (take_object i t >>= λ r. some (r.0, r.1 ∷ slabs))
unfolding alloc_from
alloc_from-here size i t slabs e = ground arith

alloc_from-reaches :
    (slabs : List Slab) (size i k n : ℕ) (s : Slab)
    → n ≡ i + k
    → s.size ≡ size
    → ((j : ℕ) (t : Slab) → j < k → get_elem? slabs j ≡ some t → t.size ≢ size)
    → get_elem? slabs k ≡ some s
    → alloc_from size i slabs ≡ (take_object n s >>= λ r. some (r.0, set slabs k r.1))
alloc_from-reaches [] size i k n s here own others at = cc
alloc_from-reaches (t ∷ slabs) size i zero n s here own others at =
    let same : t ≡ s = cc in
    rw same (
      alloc_from-here size i s slabs own
      ∙ ap (λ j. take_object j s >>= λ r. some (r.0, r.1 ∷ slabs)) (omega (arith, here)))
alloc_from-reaches (t ∷ slabs) size i (suc k) n s here own others at =
    let ih =
      alloc_from-reaches slabs size (i + 1) k n s (omega (arith, here)) own
        (λ j u lt. others (suc j) u (omega (arith, lt))) at in
    alloc_from-skip size i t slabs (others 0 t (omega arith) refl)
    ∙ rw ih (>>=-some (take_object n s) (λ r. (r.0, set slabs k r.1)) (λ r. (r.0, t ∷ r.1)))

none_of_size :
    (slabs : List Slab) (size i : ℕ)
    → ((j : ℕ) (t : Slab) → get_elem? slabs j ≡ some t → t.size ≢ size)
    → alloc_from size i slabs ≡ some (0, slabs)
none_of_size [] size i others = unfold alloc_from in refl
none_of_size (t ∷ slabs) size i others =
    alloc_from-skip size i t slabs (others 0 t refl)
    ∙ rw (none_of_size slabs size (i + 1) (λ j u. others (suc j) u)) refl

alloc-from : (slabs : List Slab) (size : ℕ) → alloc slabs size ≡ alloc_from size 0 slabs
unfolding alloc
alloc-from slabs size = refl

size_ne :
    (slabs : List Slab) (j k : ℕ) (t : Slab)
    → IsSized slabs
    → j < k
    → get_elem? slabs j ≡ some t
    → t.size ≢ 2 ^ (k + 1)
size_ne slabs j k t sized lt at e =
    omega (arith, sized j t at, e, two-pow-lt (j + 1) (k + 1) (omega (arith, lt)))

-- On an array whose slab `k` has the size `2 ^ (k + 1)` for every `k`, `slab_alloc` of such a size
-- takes an object from that slab and from no other, and a call for any other size gives NULL and
-- leaves every slab as it is.
pub alloc-routes :
    (slabs : List Slab)
    → IsSized slabs
    → ((k : ℕ) (s : Slab)
        → get_elem? slabs k ≡ some s
        → alloc slabs (2 ^ (k + 1)) ≡ at_slab slabs k s)
      × ((size : ℕ)
          → ((k : ℕ) → k < length slabs → size ≢ 2 ^ (k + 1))
          → alloc slabs size ≡ some (0, slabs))
alloc-routes slabs sized = (
  (λ k s at.
      alloc-from slabs (2 ^ (k + 1))
      ∙ alloc_from-reaches slabs (2 ^ (k + 1)) 0 k k s (omega arith) (sized k s at)
          (λ j t lt at_j. size_ne slabs j k t sized lt at_j) at),
  (λ size other.
      alloc-from slabs size
      ∙ none_of_size slabs size 0
          (λ j t at e. other j (get_elem?-lt slabs j at) (sym e ∙ sized j t at))),
)

-- The address is not in the range of the slab.
abbrev pub Outside : ℕ → Slab → Type 0
Outside ptr s = (ptr < s.start) ⊎ (s.last < ptr)

pub is_object-Outside : (ptr : ℕ) (s : Slab) → Outside ptr s → is_object s ptr ≡ some false
unfolding is_object
is_object-Outside ptr s (inl below) = ground (arith, below)
is_object-Outside ptr s (inr above) = ground (arith, above)

free_from-Outside :
    (ptr i : ℕ) (slabs : List Slab) → All (Outside ptr) slabs → free_from ptr i slabs ≡ some slabs
unfolding free_from
free_from-Outside ptr i [] out = refl
free_from-Outside ptr i (s ∷ slabs) out =
    rw (is_object-Outside ptr s out.0, free_from-Outside ptr (i + 1) slabs out.1) refl

-- `slab_free` of an address that is in the range of no slab changes nothing, be it an object that
-- `slab_alloc` gave.
pub free-ignores :
    (slabs : List Slab) (ptr : ℕ) → All (Outside ptr) slabs → free slabs ptr ≡ some slabs
unfolding free
free-ignores slabs ptr out = ground (arith, free_from-Outside ptr 0 slabs out)
