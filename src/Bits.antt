-- ===== src/Bits.antt =====
-- Laws of `&`, `|` and `~` at every width.
mod Digits
use Digits.{bit_and_step, bit_or_step}
use mathlib.Core.WellFounded
use native.Mathlib.Nat.{pow-suc, pow-succ', one-le-pow, div-div-eq-div-mul}
use knut_os.Base.{
  ℕ, zero, suc, ◌+◌, ◌-◌, ◌*◌, ◌/◌, ◌%◌, ◌^◌, ◌≤◌, ◌<◌, min, max, bit_and, bit_or, ◌≡◌, refl, ap,
  arith, ◌==◌, if◌then◌else◌,
}

-- The bit of weight `2 ^ k`.
abbrev pub bit_at : ℕ → ℕ → ℕ
bit_at x zero = x % 2
bit_at x (suc k) = bit_at (x / 2) k

pub bit_at-lt : (x k : ℕ) → bit_at x k < 2
bit_at-lt x zero = omega arith
bit_at-lt x (suc k) = bit_at-lt (x / 2) k

bit_and-half : (a b : ℕ) → bit_and a b / 2 ≡ bit_and (a / 2) (b / 2)
bit_and-half a b = omega (arith, bit_and_step a b)

bit_or-half : (a b : ℕ) → bit_or a b / 2 ≡ bit_or (a / 2) (b / 2)
bit_or-half a b = omega (arith, bit_or_step a b)

pub bit_at-bit_and : (a b k : ℕ) → bit_at (bit_and a b) k ≡ min (bit_at a k) (bit_at b k)
bit_at-bit_and a b zero = omega (arith, bit_and_step a b)
bit_at-bit_and a b (suc k) = simp bit_and-half (bit_at-bit_and (a / 2) (b / 2) k)

pub bit_at-bit_or : (a b k : ℕ) → bit_at (bit_or a b) k ≡ max (bit_at a k) (bit_at b k)
bit_at-bit_or a b zero = omega (arith, bit_or_step a b)
bit_at-bit_or a b (suc k) = simp bit_or-half (bit_at-bit_or (a / 2) (b / 2) k)

pub bit_at-zero : (k : ℕ) → bit_at 0 k ≡ 0
bit_at-zero zero = refl
bit_at-zero (suc k) = bit_at-zero k

pow-half : (k : ℕ) → 2 ^ suc k / 2 ≡ 2 ^ k
pow-half k = omega (arith, pow-suc 2 k)

pub bit_at-pow : (j k : ℕ) → bit_at (2 ^ j) k ≡ (if j == k then 1 else 0)
bit_at-pow zero zero = refl
bit_at-pow zero (suc k) = ground (arith, bit_at-zero k)
bit_at-pow (suc j) zero = ground (arith, pow-suc 2 j)
bit_at-pow (suc j) (suc k) = rw pow-half (ground (arith, bit_at-pow j k))

-- `~x` at `w` bits turns every bit round.
pub bit_at-complement : (w x k : ℕ) → x < 2 ^ w → k < w → bit_at (2 ^ w - 1 - x) k ≡ 1 - bit_at x k
bit_at-complement zero x k h l = elim l [ ]
bit_at-complement (suc w) x zero h l = omega (arith, pow-suc 2 w)
bit_at-complement (suc w) x (suc k) h l =
    let e : (2 ^ suc w - 1 - x) / 2 ≡ 2 ^ w - 1 - x / 2 = omega (arith, pow-suc 2 w) in
    rw e (bit_at-complement w (x / 2) k (omega (arith, pow-suc 2 w)) (omega arith))

-- Numbers of `w` bits with the same bits are equal.
pub bit_ext :
    (w x y : ℕ) → x < 2 ^ w → y < 2 ^ w → ((k : ℕ) → k < w → bit_at x k ≡ bit_at y k) → x ≡ y
bit_ext zero x y hx hy h = omega arith
bit_ext (suc w) x y hx hy h =
    let rest : x / 2 ≡ y / 2 =
      bit_ext w (x / 2) (y / 2) (omega (arith, pow-suc 2 w)) (omega (arith, pow-suc 2 w))
        (λ k l. h (suc k) (omega arith)) in
    omega (arith, h 0 (omega arith), rest)

mul-pow-suc : (q k : ℕ) → q * 2 ^ suc k ≡ 2 * (q * 2 ^ k)
mul-pow-suc q k = omega (arith, ap (λ (t : ℕ). q * t) (pow-suc 2 k))

-- An operation on digits treats the low `k` bits and the rest apart.
module _ (op digit : ℕ → ℕ → ℕ)
    (step : (a b : ℕ) → op a b ≡ op (a / 2) (b / 2) * 2 + digit (a % 2) (b % 2)) where
  fields :
      (k q r p s : ℕ)
      → r < 2 ^ k
      → s < 2 ^ k
      → op (q * 2 ^ k + r) (p * 2 ^ k + s) ≡ op q p * 2 ^ k + op r s
  fields zero q r p s hr hs = ground (arith, step 0 0)
  fields (suc k) q r p s hr hs = ground (
    arith,
    step (q * 2 ^ suc k + r) (p * 2 ^ suc k + s),
    step r s,
    mul-pow-suc q k,
    mul-pow-suc p k,
    mul-pow-suc (op q p) k,
    pow-suc 2 k,
    fields k q (r / 2) p (s / 2),
  )

pub bit_and_fields :
    (k q r p s : ℕ)
    → r < 2 ^ k
    → s < 2 ^ k
    → bit_and (q * 2 ^ k + r) (p * 2 ^ k + s) ≡ bit_and q p * 2 ^ k + bit_and r s
bit_and_fields = fields bit_and min bit_and_step

pub bit_or_fields :
    (k q r p s : ℕ)
    → r < 2 ^ k
    → s < 2 ^ k
    → bit_or (q * 2 ^ k + r) (p * 2 ^ k + s) ≡ bit_or q p * 2 ^ k + bit_or r s
bit_or_fields = fields bit_or max bit_or_step

-- Fuel `n` bounds the halvings.
bit_and-zero_fuel : (n x : ℕ) → x ≤ n → bit_and x 0 ≡ 0
bit_and-zero_fuel zero x h = ground (arith, bit_and_step 0 0)
bit_and-zero_fuel (suc n) x h =
    ground (arith, bit_and_step 0 0, bit_and_step x 0, bit_and-zero_fuel n (x / 2))

bit_or-zero_fuel : (n x : ℕ) → x ≤ n → (bit_or x 0 ≡ x) × (bit_or 0 x ≡ x)
bit_or-zero_fuel zero x h = ground (arith, bit_or_step 0 0)
bit_or-zero_fuel (suc n) x h =
    ground (arith, bit_or_step 0 0, bit_or_step x 0, bit_or_step 0 x, bit_or-zero_fuel n (x / 2))

pub bit_and-zero : (x : ℕ) → bit_and x 0 ≡ 0
bit_and-zero x = bit_and-zero_fuel x x (omega arith)

bit_and-ones : (w x : ℕ) → x < 2 ^ w → bit_and x (2 ^ w - 1) ≡ x
bit_and-ones zero x h = ground (arith, bit_and-zero 0)
bit_and-ones (suc w) x h =
    ground
      (arith, bit_and_step x (2 ^ suc w - 1), pow-suc 2 w, one-le-pow w 2, bit_and-ones w (x / 2))

-- `x & (2 ^ k - 1)` is the remainder.
pub bit_and_mask : (k x : ℕ) → bit_and x (2 ^ k - 1) ≡ x % 2 ^ k
bit_and_mask k x = ground (
  arith,
  one-le-pow k 2,
  bit_and_fields k (x / 2 ^ k) (x % 2 ^ k) 0 (2 ^ k - 1),
  bit_and-zero (x / 2 ^ k),
  bit_and-ones k (x % 2 ^ k),
)

-- `x & (ones << k)` keeps the `j` bits above the low `k`.
pub bit_and_window : (j k x : ℕ) → bit_and x ((2 ^ j - 1) * 2 ^ k) ≡ x / 2 ^ k % 2 ^ j * 2 ^ k
bit_and_window j k x = ground (
  arith,
  one-le-pow k 2,
  bit_and_fields k (x / 2 ^ k) (x % 2 ^ k) (2 ^ j - 1) 0,
  bit_and-zero (x % 2 ^ k),
  bit_and_mask j (x / 2 ^ k),
)

-- `(q << k) | r` is a sum where `r` has `k` bits.
pub bit_or_disjoint : (k q r : ℕ) → r < 2 ^ k → bit_or (q * 2 ^ k) r ≡ q * 2 ^ k + r
bit_or_disjoint k q r h =
    ground
      (arith, one-le-pow k 2, bit_or_fields k q 0 0 r, bit_or-zero_fuel q q, bit_or-zero_fuel r r)

-- Cutting a number to `w` bits keeps those bits.
pub bit_at-mod : (w x k : ℕ) → k < w → bit_at (x % 2 ^ w) k ≡ bit_at x k
bit_at-mod w x k h = ground (
  arith,
  bit_and_mask w x,
  bit_at-bit_and x (2 ^ w - 1) k,
  one-le-pow w 2,
  bit_at-complement w 0 k,
  bit_at-zero k,
  bit_at-lt x k,
)

pub bit_at-eq-div : (x k : ℕ) → bit_at x k ≡ x / 2 ^ k % 2
bit_at-eq-div x zero = omega arith
bit_at-eq-div x (suc k) =
    ground (arith, bit_at-eq-div (x / 2) k, div-div-eq-div-mul x 2 (2 ^ k), pow-succ' 2 k)

-- `x & (1 << k)`.
pub bit_and_pow : (x k : ℕ) → bit_and x (2 ^ k) ≡ bit_at x k * 2 ^ k
bit_and_pow x k = ground (arith, bit_and_window 1 k x, bit_at-eq-div x k)
