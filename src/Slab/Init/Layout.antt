-- ===== src/Slab/Init/Layout.antt =====
-- Where `slab_init` puts the objects of a slab.
use native.Mathlib.Nat.{pow-le-pow_right}
use knut_os.Base.{
  ℕ, zero, suc, ◌+◌, ◌-◌, ◌*◌, ◌^◌, ◌≤◌, ◌<◌, ◌≡◌, ◌≢◌, refl, ap, ◌∙◌, arith, Bool, false, some,
  List, [], ◌∷◌, ◌++◌, get_elem?, replicate, inr,
}
use knut_os.Base.Words.{add64, sub64}
use knut_os.Slab.{Slab, slab_count, max_objects_per_slab}
use knut_os.Slab.Sizes.{
  slab_size_lem, objects_per_slab_lem, object_count, object_count_fills, object_count_bounds,
}
use knut_os.Slab.Init.{Pool, refill, cut_objects, init_slab}
use knut_os.Slab.Route.{Outside}

-- `n` addresses, `size` bytes apart.
abbrev pub addresses : ℕ → ℕ → ℕ → List ℕ
addresses first size zero = []
addresses first size (suc n) = first ∷ addresses (first + size) size n

-- The pool has `room` bytes left in its page.
pub record HasRoom (pool : Pool) (room : ℕ) : Type 0 where
  pub not_null : pool.internal_mem_ptr ≢ 0
  pub room_left : pool.internal_mem_ptr + room ≤ pool.internal_mem_len
  pub no_wrap : pool.internal_mem_len < 2 ^ 64

abbrev pub advanced : Pool → ℕ → Pool
advanced pool bytes = record pool { internal_mem_ptr = pool.internal_mem_ptr + bytes }

pub refill-HasRoom :
    (la57 : Bool) (pool : Pool) (room : ℕ)
    → 1 ≤ room
    → HasRoom pool room
    → refill la57 pool ≡ some pool
unfolding refill
refill-HasRoom la57 pool room some_room has = ground (arith, has.not_null, has.room_left, some_room)

suc-mul : (n size : ℕ) → suc n * size ≡ size + n * size
suc-mul n size = grind arith

cut_objects-addresses :
    (la57 : Bool) (size n : ℕ) (pool : Pool)
    → 1 ≤ size
    → HasRoom pool (n * size)
    → cut_objects la57 size n pool
      ≡ some (addresses pool.internal_mem_ptr size n, advanced pool (n * size))
unfolding cut_objects
cut_objects-addresses la57 size zero pool positive has =
    let same : pool.internal_mem_ptr + 0 * size ≡ pool.internal_mem_ptr = omega arith in
    rw same refl
cut_objects-addresses la57 size (suc n) pool positive has =
    let product = suc-mul n size in
    let here = refill-HasRoom la57 pool (suc n * size) (omega (arith, positive, product)) has in
    let next : add64 pool.internal_mem_ptr size ≡ pool.internal_mem_ptr + size =
      omega (arith, has.room_left, has.no_wrap, product) in
    let rest = cut_objects-addresses la57 size n (advanced pool size) positive (record {
      not_null = omega (arith, positive);
      room_left = omega (arith, has.room_left, product);
      no_wrap = has.no_wrap;
    }) in
    let sum : pool.internal_mem_ptr + suc n * size ≡ pool.internal_mem_ptr + size + n * size =
      omega (arith, product) in
    rw (here, next, rest, sum) refl

add_one : (j : ℕ) → j + 1 ≡ suc j
add_one j = omega arith

-- The slab `i` whose objects start at `first`.
abbrev pub laid : ℕ → ℕ → Slab
laid i first = record {
  start = first;
  last = sub64 (add64 first 1024) (2 ^ (i + 1));
  size = 2 ^ (i + 1);
  is_full = false;
  objects =
      addresses first (2 ^ (i + 1)) (object_count i)
      ++ replicate (max_objects_per_slab - object_count i) 0;
}

cut_objects-refill :
    (la57 : Bool) (size n : ℕ) (pool pool' : Pool)
    → 1 ≤ n
    → refill la57 pool ≡ some pool'
    → refill la57 pool' ≡ some pool'
    → cut_objects la57 size n pool ≡ cut_objects la57 size n pool'
unfolding cut_objects
cut_objects-refill la57 size zero pool pool' positive first again = absurd (omega arith)
cut_objects-refill la57 size (suc n) pool pool' positive first again = rw (first, again) refl

first_object : (first size n : ℕ) → 1 ≤ n → get_elem? (addresses first size n) 0 ≡ some first
first_object first size zero positive = absurd (omega arith)
first_object first size (suc n) positive = refl

-- Where the page at hand, or the new one, has 2048 bytes left, `slab_init` cuts the objects of a
-- slab out of those bytes, one after the other from their start, and leaves the rest of the page.
-- The range that it notes ends 1024 bytes in: an object that ends past these bytes is outside it,
-- and among them is every object of the slab of 2048 bytes.
pub init_slab-laid :
    (la57 : Bool) (i : ℕ) (pool pool' : Pool)
    → i < slab_count
    → refill la57 pool ≡ some pool'
    → HasRoom pool' 2048
    → (init_slab la57 i pool ≡ some (laid i pool'.internal_mem_ptr, advanced pool' 2048))
      × ((j : ℕ)
          → 2048 ≤ pool'.internal_mem_ptr
          → 1024 < (j + 1) * 2 ^ (i + 1)
          → Outside (pool'.internal_mem_ptr + j * 2 ^ (i + 1)) (laid i pool'.internal_mem_ptr))
unfolding init_slab
init_slab-laid la57 i pool pool' valid refilled has =
    let (one, many, size) = object_count_bounds i valid in
    let fills = object_count_fills i valid in
    let has' : HasRoom pool' (object_count i * 2 ^ (i + 1)) = rw fills has in
    let cut : cut_objects la57 (2 ^ (i + 1)) (object_count i) pool
        ≡ some
            (addresses pool'.internal_mem_ptr (2 ^ (i + 1)) (object_count i), advanced pool' 2048) =
      cut_objects-refill la57 (2 ^ (i + 1)) (object_count i) pool pool' one refilled
        (refill-HasRoom la57 pool' 2048 (omega arith) has)
      ∙ cut_objects-addresses la57 (2 ^ (i + 1)) (object_count i) pool' (omega (arith, size)) has'
      ∙ rw fills refl in
    (
      rw (slab_size_lem i valid, objects_per_slab_lem i valid, cut)
          (rw (first_object pool'.internal_mem_ptr (2 ^ (i + 1)) (object_count i) one) refl),
      λ j high past. inr (
          omega (
            arith,
            high,
            past,
            size,
            has.room_left,
            has.no_wrap,
            suc-mul j (2 ^ (i + 1)),
            ap (λ n. n * 2 ^ (i + 1)) (add_one j),
            pow-le-pow_right {n = 2} (omega arith) {i = i + 1} {j = 11} (omega (arith, valid)),
          )),
    )
