-- ===== src/Kmalloc/Small.antt =====
-- `kmalloc` of up to 2048 bytes, which asks for a slab.
use knut_os.Base.{
  ℕ, ◌+◌, ◌^◌, ◌≤◌, ◌<◌, ◌==◌, ◌≡◌, refl, ◌∙◌, arith, Bool, not, Option, none, some, ◌>>=◌, ◌>>◌,
  require, >>=-pure, length, get_elem?, set,
}
use knut_os.Base.Words.{add64}
use knut_os.Slab.{Slab, take_object, slab_count}
use knut_os.Slab.Sizes.{two-pow-lt}
use knut_os.Slab.Route.{IsSized, alloc-routes}
use knut_os.Kmalloc.{Heap, metadata_size, write, kmalloc, small_alloc, next_pow_of_two}
use knut_os.Kmalloc.Rounding.{next_pow_of_two-Rounded, Rounded-unique, page_size-Rounded}

-- What `kmalloc` does with the slab `k`: the first word of the object is its size, and the pointer
-- is the one after it. An object at NULL is written to.
abbrev pub from_slab : Heap → ℕ → Slab → Option (ℕ × Heap)
from_slab h k s = do
  (object, s') ← take_object k s
  require (not (object == 0))
  some (
    add64 object metadata_size,
    record h { slabs = set h.slabs k s'; memory = write h.memory object (2 ^ (k + 1)) },
  )

pub kmalloc-small_alloc :
    (la57 : Bool) (h : Heap) (size : ℕ) {r : ℕ}
    → size ≤ 2048
    → next_pow_of_two (size + metadata_size) ≡ some r
    → kmalloc la57 h size ≡ small_alloc h r
unfolding kmalloc
kmalloc-small_alloc la57 h size {r} small padded =
    let rounded = next_pow_of_two-Rounded size (omega arith) in
    let fits = (page_size-Rounded rounded).1 small in
    let sum : add64 size metadata_size ≡ size + metadata_size = omega arith in
    rw (rounded.result, sum, padded) (ground (arith, fits))

pub small_alloc-from_slab :
    (h : Heap) (k : ℕ) (s : Slab)
    → IsSized h.slabs
    → get_elem? h.slabs k ≡ some s
    → small_alloc h (2 ^ (k + 1)) ≡ from_slab h k s
unfolding small_alloc
small_alloc-from_slab h k s sized at =
    rw ((alloc-routes h.slabs sized).0 k s at)
      (>>=-pure (take_object k s) (λ r. (r.0, set h.slabs k r.1)) _)

small_alloc-no_slab :
    (h : Heap) → IsSized h.slabs → length h.slabs ≡ slab_count → small_alloc h 4096 ≡ none
unfolding small_alloc
small_alloc-no_slab h sized all =
    rw
      ((alloc-routes h.slabs sized).1 4096
        (λ k lt e. omega (arith, e, all, lt, two-pow-lt (k + 1) 12 (omega (arith, all, lt)))))
      refl

-- The slab that a request of `size` bytes goes to.
pub record Serves (h : Heap) (size k : ℕ) (r : Option (ℕ × Heap)) : Type 0 where
  pub slab : k < slab_count
  pub large : size + metadata_size ≤ 2 ^ (k + 1)
  pub tight : 2 ^ k < size + metadata_size
  pub serves : (s : Slab) → get_elem? h.slabs k ≡ some s → r ≡ from_slab h k s

-- From 2041 to 2048 bytes, `kmalloc` is never served: with the metadata the size is rounded up to
-- 4096, which no slab has, and the metadata is written through NULL.
pub kmalloc-gap :
    (la57 : Bool) (h : Heap) (size : ℕ)
    → IsSized h.slabs
    → length h.slabs ≡ slab_count
    → 2041 ≤ size
    → size ≤ 2048
    → kmalloc la57 h size ≡ none
kmalloc-gap la57 h size sized all low high =
    kmalloc-small_alloc la57 h size high (
      Rounded-unique 12 (next_pow_of_two-Rounded (size + metadata_size) (omega arith)) (omega arith)
        (omega arith) (omega arith))
    ∙ small_alloc-no_slab h sized all
