-- ===== src/Power.antt =====
-- `pow` of src/libs/libk/math/math.c. `none` is a signed overflow, which C leaves undefined, or the
-- division by zero.
pub mod Laws
mod Tests
use knut_os.Base.{
  ℕ, zero, suc, ◌+◌, ◌-◌, ◌/◌, ◌%◌, ◌^◌, ◌==◌, leb, ltb, if◌then◌else◌, Option, none, some, ◌>>=◌,
  true, false,
}
use knut_os.Base.Int.{ℤ, pos, negsuc, ◌*ℤ◌, negate, pos_part, neg_part}

-- A result of `int32_t` arithmetic.
abbrev pub int32 : ℤ → Option ℤ
int32 (pos n) = if ltb n (2 ^ 31) then some (pos n) else none
int32 (negsuc n) = if ltb n (2 ^ 31) then some (negsuc n) else none

-- An `int32_t` returned as a `uint32_t`.
abbrev pub as_uint32 : ℤ → ℕ
as_uint32 (pos n) = n
as_uint32 (negsuc n) = 2 ^ 32 - suc n

-- `1 / base`, cut towards zero.
abbrev pub reciprocal : ℤ → Option ℤ
reciprocal (pos zero) = none
reciprocal (pos (suc zero)) = some (pos 1)
reciprocal (pos (suc (suc n))) = some (pos 0)
reciprocal (negsuc zero) = some (negsuc 0)
reciprocal (negsuc (suc n)) = some (pos 0)

-- The loop on a positive exponent, and the product after it. The exponent at the start is fuel
-- enough, since it is halved.
square : ℕ → ℤ → ℤ → ℕ → Option ℕ
square zero base temp exponent = none
square (suc fuel) base temp exponent = elim (leb exponent 1) [
  | true ↦ do r ← int32 (base *ℤ temp); some (as_uint32 r)
  | false ↦ elim (exponent % 2 == 0) [
    | true ↦ do b ← int32 (base *ℤ base); square fuel b temp (exponent / 2)
    | false ↦ do
      t ← int32 (base *ℤ temp)
      b ← int32 (base *ℤ base)
      square fuel b t ((exponent - 1) / 2)
  ]
]

pub pow : ℤ → ℤ → Option ℕ
unfolding square ◌*ℤ◌
pow base (pos zero) = some 1
pow base (pos (suc e)) = square (suc e) base (pos 1) (suc e)
pow base (negsuc e) = do
  b ← reciprocal base
  exponent ← int32 (negate (negsuc e))
  square (pos_part exponent) b (pos 1) (pos_part exponent)
