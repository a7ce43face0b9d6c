-- ===== src/Base/Words.antt =====
-- The fixed-width integer types of C: what a value becomes when it is stored.
use Prim.Native.Nat.{ℕ, ◌+◌, ◌-◌, ◌*◌, ◌%◌, ◌^◌}
use mathlib.Core.Option.{Option, none, some}
use knut_os.Base.Tests.{ltb, if◌then◌else◌}

abbrev pub u8 : ℕ → ℕ
u8 n = n % 2 ^ 8

abbrev pub u16 : ℕ → ℕ
u16 n = n % 2 ^ 16

abbrev pub u32 : ℕ → ℕ
u32 n = n % 2 ^ 32

abbrev pub u64 : ℕ → ℕ
u64 n = n % 2 ^ 64

-- Sums, differences and products of `size_t`, `uint64_t` and `uintptr_t`.
abbrev pub add64 : ℕ → ℕ → ℕ
add64 a b = u64 (a + b)

abbrev pub sub64 : ℕ → ℕ → ℕ
sub64 a b = u64 (a + 2 ^ 64 - b)

abbrev pub mul64 : ℕ → ℕ → ℕ
mul64 a b = u64 (a * b)

-- `~x` at 32 and at 64 bits.
abbrev pub not32 : ℕ → ℕ
not32 x = 2 ^ 32 - 1 - x

abbrev pub not64 : ℕ → ℕ
not64 x = 2 ^ 64 - 1 - x

-- A wide value passed as an `int`: its low 32 bits. `none` where that is a negative number.
abbrev pub as_int : ℕ → Option ℕ
as_int n = if ltb (u32 n) (2 ^ 31) then some (u32 n) else none
