-- ===== src/Kmalloc/Rounding.antt =====
-- `next_pow_of_two`: the least power of two from 2 on that is not below its argument, or no end.
use native.Mathlib.Decide.{dec_lt}
use native.Mathlib.Nat.{pow-suc, pow-le-pow_right}
use knut_os.Base.{
  ℕ, zero, suc, ◌+◌, ◌-◌, ◌*◌, ◌%◌, ◌^◌, ◌≤◌, ◌<◌, ◌≡◌, ◌⊎◌, inl, inr, refl, ◌∙◌, arith, Option,
  none, some,
}
use knut_os.Slab.Sizes.{two-pow-lt}
use knut_os.Kmalloc.{next_pow_of_two, shift_until}

-- `r` is the power of two that `num` is rounded to.
pub record Rounded (num : ℕ) (r : Option ℕ) : Type 0 where
  pub exponent : ℕ
  pub result : r ≡ some (2 ^ exponent)
  pub positive : 1 ≤ exponent
  pub large : num ≤ 2 ^ exponent
  pub least : (exponent ≡ 1) ⊎ (2 ^ (exponent - 1) < num)

shift_until-stop : (num fuel r : ℕ) → ¬ (r < num) → shift_until num (suc fuel) r ≡ some r
unfolding shift_until
shift_until-stop num fuel r h = ground arith

shift_until-step :
    (num fuel k : ℕ)
    → k < 63
    → 2 ^ k < num
    → shift_until num (suc fuel) (2 ^ k) ≡ shift_until num fuel (2 ^ suc k)
unfolding shift_until
shift_until-step num fuel k small h =
    let doubled : 2 ^ k * 2 % 2 ^ 64 ≡ 2 ^ suc k =
      omega (arith, pow-suc 2 k, two-pow-lt (suc k) 64 (omega arith)) in
    rw doubled (ground arith)

stopped :
    (num fuel k : ℕ)
    → ¬ (2 ^ k < num)
    → 1 ≤ k
    → ((k ≡ 1) ⊎ (2 ^ (k - 1) < num))
    → Rounded num (shift_until num (suc fuel) (2 ^ k))
stopped num fuel k reached low before = record {
  exponent = k;
  result = shift_until-stop num fuel (2 ^ k) reached;
  positive = low;
  large = omega (arith, reached);
  least = before;
}

shift_until-Rounded :
    (num left k : ℕ)
    → num ≤ 2 ^ 63
    → 1 ≤ k
    → k + left ≡ 63
    → ((k ≡ 1) ⊎ (2 ^ (k - 1) < num))
    → Rounded num (shift_until num (suc left) (2 ^ k))
shift_until-Rounded num zero k small low sum before =
    let last : k ≡ 63 = omega (arith, sum) in
    stopped num zero k (rw last (omega (arith, small))) low before
shift_until-Rounded num (suc left) k small low sum before = elim (dec_lt (2 ^ k) num) [
  | no reached ↦ stopped num (suc left) k reached low before
  | yes below ↦ rw (shift_until-step num (suc left) k (omega arith) below) (
      shift_until-Rounded num left (suc k) small (omega arith) (omega arith)
        (inr (let back : suc k - 1 ≡ k = omega arith in rw back below)))
]

-- Up to `2 ^ 63`, `next_pow_of_two` ends, with the least power of two that is 2 at least and not
-- below its argument.
pub next_pow_of_two-Rounded : (num : ℕ) → num ≤ 2 ^ 63 → Rounded num (next_pow_of_two num)
unfolding next_pow_of_two
next_pow_of_two-Rounded num small =
    shift_until-Rounded num 62 1 small (omega arith) (omega arith) (inl refl)

shift_until-zero : (num fuel : ℕ) → 0 < num → shift_until num fuel 0 ≡ none
unfolding shift_until
shift_until-zero num zero h = refl
shift_until-zero num (suc fuel) h = ground (arith, shift_until-zero num fuel h)

-- Above `2 ^ 63` the loop of `next_pow_of_two` goes on whatever the fuel: the bit is shifted out,
-- and the result stays 0.
pub next_pow_of_two-never_ends : (num fuel : ℕ) → 2 ^ 63 < num → shift_until num fuel 2 ≡ none
unfolding shift_until
next_pow_of_two-never_ends num fuel large = from 62 fuel 1 (omega arith) (omega arith)
  where
    from : (left fuel k : ℕ) → 1 ≤ k → k + left ≡ 63 → shift_until num fuel (2 ^ k) ≡ none
    from left zero k low sum = refl
    from zero (suc fuel) k low sum =
        let last : k ≡ 63 = omega (arith, sum) in
        rw last (ground (arith, shift_until-zero num fuel (omega (arith, large))))
    from (suc left) (suc fuel) k low sum =
        shift_until-step num fuel k (omega arith)
          (omega (arith, large, two-pow-lt k 63 (omega arith)))
        ∙ from left fuel (suc k) (omega arith) (omega arith)

-- The power between two bounds is the one that `num` is rounded to.
pub Rounded-unique :
    {num : ℕ} {r : Option ℕ} (k : ℕ)
    → Rounded num r
    → 1 ≤ k
    → 2 ^ (k - 1) < num
    → num ≤ 2 ^ k
    → r ≡ some (2 ^ k)
Rounded-unique {num} k rounded low below above =
    let e = rounded.exponent in
    let same : e ≡ k = elim (dec_lt e k) [
      | yes less ↦ absurd (
          omega (
            arith,
            rounded.large,
            below,
            pow-le-pow_right {n = 2} (omega arith) {i = e} {j = k - 1} (omega arith),
          ))
      | no not_less ↦ elim (dec_lt k e) [
        | yes more ↦ absurd (elim rounded.least [
          | inl one ↦ omega arith
          | inr before ↦ omega (
            arith,
            before,
            above,
            pow-le-pow_right {n = 2} (omega arith) {i = k} {j = e - 1} (omega arith),
          )
        ])
        | no not_more ↦ omega arith
      ]
    ] in
    rounded.result ∙ rw same refl

-- A size that is rounded up to a page or more, and one that is not.
pub page_size-Rounded :
    {num : ℕ} {r : Option ℕ} (rounded : Rounded num r)
    → (2048 < num → 4096 ≤ 2 ^ rounded.exponent) × (num ≤ 2048 → 2 ^ rounded.exponent < 4096)
page_size-Rounded {num} rounded = (
  (λ more. elim (dec_lt rounded.exponent 12) [
    | yes less ↦ absurd (
        omega (
          arith,
          rounded.large,
          more,
          pow-le-pow_right {n = 2} (omega arith) {i = rounded.exponent} {j = 11} (omega arith),
        ))
    | no not_less ↦
        pow-le-pow_right {n = 2} (omega arith) {i = 12} {j = rounded.exponent} (omega arith)
  ]),
  (λ less. elim rounded.least [
    | inl one ↦ rw one (omega arith)
    | inr before ↦ elim (dec_lt rounded.exponent 12) [
      | yes small ↦ two-pow-lt rounded.exponent 12 small
      | no large ↦ absurd (
          omega (
            arith,
            before,
            less,
            pow-le-pow_right {n = 2} (omega arith) {i = 11} {j = rounded.exponent - 1}
                (omega arith),
          ))
    ]
  ]),
)
