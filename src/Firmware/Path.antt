-- ===== src/Firmware/Path.antt =====
-- The first table that passes the check is the one found, and where it is mapped.
use native.Mathlib.Decide.{dec_lt}
use knut_os.Base.{ℕ, ◌+◌, ◌^◌, ◌<◌, ◌≡◌, ◌≢◌, sym, arith, Bool, true, false, Option, some}
use knut_os.Mem.{phys_to_higher_half_data}
use knut_os.Acpi.Find.{Found, absent, found}
use knut_os.Firmware.{word32}

-- Entry `k` is the first that passes.
pub record IsFirst (result : ℕ → ℕ) (k stop : ℕ) : Type 0 where
  pub below : k < stop
  pub passes : result k ≡ 0
  pub before : (j : ℕ) → j < k → result j ≢ 0

pub Found-first :
    (la57 : Bool) (entries result : ℕ → ℕ) (k stop : ℕ) (r : Option ℕ)
    → IsFirst result k stop
    → Found la57 entries result 0 stop r
    → r ≡ some (phys_to_higher_half_data la57 (entries k))
Found-first la57 entries result k stop r first (absent e none_passes) =
    absurd (none_passes k (omega arith) first.below first.passes)
Found-first la57 entries result k stop r first (found j e low high passes before) =
    elim (dec_lt j k) [
      | yes less ↦ absurd (first.before j less passes)
      | no not_less ↦ elim (dec_lt k j) [
        | yes more ↦ absurd (before k (omega arith) more first.passes)
        | no not_more ↦ let same : j ≡ k = omega arith in rw (sym same) e
      ]
    ]

pub word32-lt : (byte : ℕ → ℕ) (a : ℕ) → ((b : ℕ) → byte b < 256) → word32 byte a < 2 ^ 32
word32-lt byte a bytes = omega (arith, bytes a, bytes (a + 1), bytes (a + 2), bytes (a + 3))

-- A physical address of 32 bits is mapped above 0, with 4 GiB and more behind it.
pub phys_to_higher_half_data-bounds :
    (la57 : Bool) (a : ℕ)
    → a < 2 ^ 32
    → (0 < phys_to_higher_half_data la57 a) × (phys_to_higher_half_data la57 a + 2 ^ 32 < 2 ^ 64)
unfolding phys_to_higher_half_data
phys_to_higher_half_data-bounds true a small = (omega (arith, small), omega (arith, small))
phys_to_higher_half_data-bounds false a small = (omega (arith, small), omega (arith, small))
