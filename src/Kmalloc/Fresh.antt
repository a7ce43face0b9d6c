-- ===== src/Kmalloc/Fresh.antt =====
-- The first requests after `slab_init`.
use native.Mathlib.Decide.{dec_lt}
use native.Mathlib.Nat.{pow-le-pow_right}
use knut_os.Base.{
  ℕ, ◌+◌, ◌≤◌, ◌<◌, ◌≡◌, ◌≢◌, ap, ◌∙◌, arith, Bool, some, List, [], ◌∷◌, get_elem?,
  get_elem?-eq-get_or, get_or,
}
use knut_os.Pmm.{Pmm}
use knut_os.Slab.{Slab, slab_count}
use knut_os.Slab.Init.{Pool, init}
use knut_os.Slab.Init.Layout.{laid}
use knut_os.Slab.Init.Whole.{Gives, all_slabs, init-all_slabs}
use knut_os.Slab.Init.Starts.{ArePages, start_of, start_bounds}
use knut_os.Slab.Init.First.{laid-array, take_object-first, slabs_at, first-IsOwned}
use knut_os.Kmalloc.{Heap, metadata_size, kmalloc, kfree}
use knut_os.Kmalloc.Again.{IsSlabFor, kmalloc-after_kfree}

slab_up_to_1024 : (size k : ℕ) → IsSlabFor size k → size ≤ 1016 → k ≤ 9
slab_up_to_1024 size k for small = elim (dec_lt 9 k) [
  | yes more ↦ absurd (
      omega (
        arith,
        for.tight,
        pow-le-pow_right {n = 2} (omega arith) {i = 10} {j = k} (omega (arith, more)),
      ))
  | no not_more ↦ omega arith
]

slab_there :
    (a b c d e f k : ℕ)
    → ArePages (a ∷ b ∷ c ∷ d ∷ e ∷ f ∷ [])
    → k < slab_count
    → get_elem? (all_slabs (a ∷ b ∷ c ∷ d ∷ e ∷ []) f) k
      ≡ some (laid k (start_of (a ∷ b ∷ c ∷ d ∷ e ∷ f ∷ []) k))
slab_there a b c d e f k are valid =
    let slabs = all_slabs (a ∷ b ∷ c ∷ d ∷ e ∷ []) f in
    let at = get_elem?-eq-get_or slabs k (laid 0 0) valid in
    at ∙ ap some (slabs_at a b c d e f are k (get_or slabs k (laid 0 0)) at).0

-- Where `pmm_alloc` gives six pages one after the other, each of them aligned, not NULL and not up
-- to the end of the address space, and no two of them the same: `slab_init` ends, and then a first
-- `kmalloc` of up to 1016 bytes gives the address 8 bytes behind the start of the slab of its size.
-- Two slabs start in each page, 2048 bytes apart. A `kfree` of the pointer ends, and the next
-- `kmalloc` of that size gives it again and leaves the same heap.
pub init-kmalloc :
    (la57 : Bool) (pmm before last : Pmm) (a b c d e f size k : ℕ) (memory : ℕ → ℕ)
    → Gives la57 pmm (a ∷ b ∷ c ∷ d ∷ e ∷ []) before
    → Gives la57 before (f ∷ []) last
    → ArePages (a ∷ b ∷ c ∷ d ∷ e ∷ f ∷ [])
    → IsSlabFor size k
    → size ≤ 1016
    → (slabs : List Slab) × (end : Pool) × (first : Heap) × (freed : Heap) × (init la57 pmm
        ≡ some (slabs, end))
      × (kmalloc la57 (record { pmm = end.pmm; slabs = slabs; memory = memory }) size
          ≡ some (start_of (a ∷ b ∷ c ∷ d ∷ e ∷ f ∷ []) k + metadata_size, first))
      × (kfree la57 first (start_of (a ∷ b ∷ c ∷ d ∷ e ∷ f ∷ []) k + metadata_size) ≡ some freed)
      × (kmalloc la57 freed size
          ≡ some (start_of (a ∷ b ∷ c ∷ d ∷ e ∷ f ∷ []) k + metadata_size, first))
init-kmalloc la57 pmm before last a b c d e f size k memory five one are for small =
    let ((end, run, at_end), sized) = init-all_slabs la57 pmm before last a b c d e f five one in
    let slabs = all_slabs (a ∷ b ∷ c ∷ d ∷ e ∷ []) f in
    let start = start_of (a ∷ b ∷ c ∷ d ∷ e ∷ f ∷ []) k in
    let at = slab_there a b c d e f k are for.valid in
    let (aligned, low, high) =
      start_bounds (a ∷ b ∷ c ∷ d ∷ e ∷ f ∷ []) are k (omega (arith, for.valid)) in
    let not_null : start ≢ 0 = omega (arith, low) in
    let (t, taken) = take_object-first k start for.valid not_null in
    let (first, freed, kmalloc_run, kfree_run, again) =
      kmalloc-after_kfree la57 (record { pmm = end.pmm; slabs = slabs; memory = memory }) size k
        start (laid k start) t for sized at (laid-array k start for.valid) taken not_null
        (omega (arith, aligned))
        (first-IsOwned a b c d e f are k (laid k start) (slab_up_to_1024 size k for small) at) in
    (slabs, end, first, freed, run, kmalloc_run, kfree_run, again)
