-- ===== src/Slab/Sizes.antt =====
-- Slab `i` has objects of `2 ^ (i + 1)` bytes, 2048 bytes of them.
use native.Mathlib.Nat.{pow-suc, one-le-pow, pow-le-pow_right}
use knut_os.Base.{
  ℕ, suc, Bool, ◌+◌, ◌*◌, ◌/◌, ◌^◌, ◌≤◌, ◌<◌, ◌≡◌, refl, arith, some, passes, passes-at, ◌==◌,
  ==_iff, leb, ◌&&◌, true,
}
use knut_os.Power.Laws.{pow_positive}
use knut_os.Slab.{slab_size, objects_per_slab, slab_count, max_slab_size}

pub two-pow-lt : (a b : ℕ) → a < b → 2 ^ a < 2 ^ b
two-pow-lt a b h = omega (
  arith,
  pow-suc 2 a,
  one-le-pow a 2 (omega arith),
  pow-le-pow_right {n = 2} (omega arith) {i = suc a} {j = b} h,
)

pub slab_size_lem : (i : ℕ) → i < slab_count → slab_size i ≡ some (2 ^ (i + 1))
unfolding slab_size
slab_size_lem i h = pow_positive 2 (i + 1) (omega arith) (two-pow-lt (i + 1) 31 (omega arith))

-- How many objects fit.
abbrev pub object_count : ℕ → ℕ
object_count i = max_slab_size / 2 ^ (i + 1)

pub objects_per_slab_lem : (i : ℕ) → i < slab_count → objects_per_slab i ≡ some (object_count i)
unfolding objects_per_slab
objects_per_slab_lem i h = rw (slab_size_lem i h) (ground (arith, one-le-pow (i + 1) 2))

abbrev fills : ℕ → Bool
fills i = object_count i * 2 ^ (i + 1) == max_slab_size

all_fill : passes fills slab_count ≡ true
unfolding passes
all_fill = refl

-- The objects of a slab fill exactly 2048 bytes.
pub object_count_fills : (i : ℕ) → i < slab_count → object_count i * 2 ^ (i + 1) ≡ max_slab_size
object_count_fills i h = (==_iff _ _).0 (passes-at fills slab_count all_fill h)

abbrev bounded : ℕ → Bool
bounded i = leb 1 (object_count i) && leb (object_count i) 1024 && leb 2 (2 ^ (i + 1))

all_bounded : passes bounded slab_count ≡ true
unfolding passes
all_bounded = refl

pub object_count_bounds :
    (i : ℕ) → i < slab_count → (1 ≤ object_count i) × (object_count i ≤ 1024) × (2 ≤ 2 ^ (i + 1))
object_count_bounds i h = ground (arith, passes-at bounded slab_count {x = i} all_bounded h)
