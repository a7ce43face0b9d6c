-- ===== src/Kmalloc/Again.antt =====
-- `kfree` of what `kmalloc` took from a slab, and the next `kmalloc` of the same size.
use native.Mathlib.Decide.{ℕ_discrete}
use knut_os.Base.{
  ℕ, ◌+◌, ◌-◌, ◌%◌, ◌^◌, ◌≤◌, ◌<◌, ◌≡◌, ◌≢◌, ◌==◌, refl, sym, ap, ◌∙◌, arith, fun_ext, some, List,
  length, get_elem?, get_elem?-lt, get_elem?-set_self, get_elem?-set_ne, set, set-set, bit_and,
  Bool, false,
}
use knut_os.Base.Words.{add64, sub64}
use knut_os.Bits.{bit_and_mask}
use knut_os.Slab.{Slab, take_object, slab_count, max_objects_per_slab}
use knut_os.Slab.Route.{IsSized}
use knut_os.Slab.Again.{IsTaken, with_head, take_object-IsTaken, put_object-head, take_object-again}
use knut_os.Slab.Owned.{IsOwned, free-reaches}
use knut_os.Kmalloc.{Heap, metadata_size, write, kmalloc, kfree}
use knut_os.Kmalloc.Rounding.{next_pow_of_two-Rounded, Rounded-unique}
use knut_os.Kmalloc.Small.{from_slab, kmalloc-small_alloc, small_alloc-from_slab}

-- The slab `k` has the least objects that hold the bytes and the metadata.
pub record IsSlabFor (size k : ℕ) : Type 0 where
  pub valid : k < slab_count
  pub small : size ≤ 2040
  pub tight : 2 ^ k < size + metadata_size
  pub large : size + metadata_size ≤ 2 ^ (k + 1)

kmalloc-from_slab :
    (la57 : Bool) (h : Heap) (size k : ℕ) (s : Slab)
    → IsSlabFor size k
    → IsSized h.slabs
    → get_elem? h.slabs k ≡ some s
    → kmalloc la57 h size ≡ from_slab h k s
kmalloc-from_slab la57 h size k s for sized at =
    let back : k + 1 - 1 ≡ k = omega arith in
    kmalloc-small_alloc la57 h size (omega (arith, for.small)) (
      Rounded-unique (k + 1)
        (next_pow_of_two-Rounded (size + metadata_size) (omega (arith, for.small))) (omega arith)
        (rw back for.tight) for.large)
    ∙ small_alloc-from_slab h k s sized at

-- The heap after slab `k` gave the object and became `t`.
abbrev given : Heap → ℕ → Slab → ℕ → Heap
given h k t o = record h { slabs = set h.slabs k t; memory = write h.memory o (2 ^ (k + 1)) }

kmalloc-given :
    (la57 : Bool) (h : Heap) (size k o : ℕ) (s t : Slab)
    → IsSlabFor size k
    → IsSized h.slabs
    → get_elem? h.slabs k ≡ some s
    → take_object k s ≡ some (o, t)
    → o ≢ 0
    → o + metadata_size < 2 ^ 64
    → kmalloc la57 h size ≡ some (o + metadata_size, given h k t o)
kmalloc-given la57 h size k o s t for sized at run ne small =
    let sum : add64 o metadata_size ≡ o + metadata_size = omega (arith, small) in
    let there : (o == 0) ≡ false = ground (arith, ne) in
    kmalloc-from_slab la57 h size k s for sized at ∙ rw (run, there, sum) refl

IsSized-set :
    (slabs : List Slab) (k : ℕ) (t : Slab)
    → IsSized slabs
    → t.size ≡ 2 ^ (k + 1)
    → k < length slabs
    → IsSized (set slabs k t)
IsSized-set slabs k t sized e inside j u at = elim (ℕ_discrete k j) [
  | yes same ↦
      let it : some t ≡ some u =
        sym (get_elem?-set_self slabs k t inside)
        ∙ ap (λ i. get_elem? (set slabs k t) i) same
        ∙ at in
      let it' : t ≡ u = cc in rw (← it', ← same) e
  | no other ↦ sized j u (sym (get_elem?-set_ne slabs k j t other) ∙ at)
]

write_twice : (memory : ℕ → ℕ) (a v : ℕ) → write (write memory a v) a v ≡ write memory a v
write_twice memory a v = fun_ext (λ b. ground arith)

-- The object is still that of the slab `k` when it is out.
IsOwned-taken :
    (slabs : List Slab) (k o : ℕ) (s t : Slab)
    → IsOwned slabs k s o
    → IsTaken s t
    → IsOwned (set slabs k t) k t o
IsOwned-taken slabs k o s t own taken = record {
  low = rw taken.same_start own.low;
  high = rw taken.same_last own.high;
  aligned = rw (taken.same_start, taken.same_size) own.aligned;
  positive = rw taken.same_size own.positive;
  no_wrap = rw taken.same_size own.no_wrap;
  others =
      λ j u ne at. own.others j u ne (sym (get_elem?-set_ne slabs k j t (λ e. ne (sym e))) ∙ at);
}

kfree-given :
    (la57 : Bool) (h : Heap) (k o : ℕ) (s t : Slab)
    → k < slab_count
    → get_elem? h.slabs k ≡ some s
    → o ≢ 0
    → o + metadata_size < 2 ^ 64
    → (o + metadata_size) % 4096 ≢ 0
    → IsOwned h.slabs k s o
    → IsTaken s t
    → kfree la57 (given h k t o) (o + metadata_size)
      ≡ some (record (given h k t o) { slabs = set h.slabs k (with_head t o) })
unfolding kfree
kfree-given la57 h k o s t valid at ne small inside own taken =
    let null : (o + metadata_size == 0) ≡ false = ground arith in
    let page : (bit_and (o + metadata_size) 0xFFF == 0) ≡ false =
      rw (bit_and_mask 12 (o + metadata_size)) (ground (arith, inside)) in
    let back : sub64 (o + metadata_size) metadata_size ≡ o = omega (arith, small) in
    let freed =
      free-reaches (set h.slabs k t) k t (with_head t o) o ne
        (get_elem?-set_self h.slabs k t (get_elem?-lt h.slabs k at))
        (IsOwned-taken h.slabs k o s t own taken) (put_object-head k valid s t o taken ne) in
    rw (null, page, back, freed, set-set h.slabs k t (with_head t o)) refl

-- On slabs where slab `k` has objects of `2 ^ (k + 1)` bytes for every `k`, a request of up to 2040
-- bytes that the slab of its size, with its 1024 entries, has an object for gives the object's
-- address plus 8. Where the object lies in the range of its slab and of no other, and the pointer
-- is not a multiple of 4096, `kfree` of the pointer ends, and the next request of the same size
-- gives the same pointer and leaves the same heap as the first did.
pub kmalloc-after_kfree :
    (la57 : Bool) (h : Heap) (size k o : ℕ) (s t : Slab)
    → IsSlabFor size k
    → IsSized h.slabs
    → get_elem? h.slabs k ≡ some s
    → length s.objects ≡ max_objects_per_slab
    → take_object k s ≡ some (o, t)
    → o ≢ 0
    → (o + metadata_size) % 4096 ≢ 0
    → IsOwned h.slabs k s o
    → (first : Heap) × (freed : Heap) × (kmalloc la57 h size ≡ some (o + metadata_size, first))
      × (kfree la57 first (o + metadata_size) ≡ some freed)
      × (kmalloc la57 freed size ≡ some (o + metadata_size, first))
kmalloc-after_kfree la57 h size k o s t for sized at array run ne inside own =
    let taken = take_object-IsTaken k for.valid s t o array run ne in
    let fits : o + metadata_size < 2 ^ 64 = omega (arith, own.no_wrap, sized k s at, for.large) in
    let inside_array = get_elem?-lt h.slabs k at in
    let freed : Heap = record (given h k t o) { slabs = set h.slabs k (with_head t o) } in
    let again =
      kmalloc-given la57 freed size k o (with_head t o) t for
        (IsSized-set h.slabs k (with_head t o) sized (taken.same_size ∙ sized k s at) inside_array)
        (get_elem?-set_self h.slabs k (with_head t o) inside_array)
        (take_object-again k for.valid s t o taken ne) ne fits in
    let same : given freed k t o ≡ given h k t o =
      rw (set-set h.slabs k (with_head t o) t, write_twice h.memory o (2 ^ (k + 1))) refl in
    (
      given h k t o,
      freed,
      kmalloc-given la57 h size k o s t for sized at run ne fits,
      kfree-given la57 h k o s t for.valid at ne fits inside own taken,
      again ∙ ap (λ g. some (o + metadata_size, g)) same,
    )
