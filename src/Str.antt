-- ===== src/Str.antt =====
-- src/libs/libk/string/string.c: blocks of memory as lists of bytes.
pub mod Laws
mod Tests
use knut_os.Base.{
  ℕ, zero, suc, ◌+◌, ◌-◌, ◌==◌, if◌then◌else◌, List, [], ◌∷◌, Option, none, some, ◌>>=◌,
}
use knut_os.Base.Words.{u8}
use knut_os.Base.Int.{ℤ, pos, sub_ℕ}

-- The first `size` bytes from `pointer` on become `value`, cut to a byte; a block that is shorter
-- is overrun.
pub memset : List ℕ → ℕ → ℕ → Option (List ℕ)
memset block value zero = some block
memset [] value (suc size) = none
memset (x ∷ block) value (suc size) = do rest ← memset block value size; some (u8 value ∷ rest)

-- The difference of the first two bytes that differ, as an `int`; a block that ends before the
-- comparison does is overrun.
unfoldable pub memcmp : List ℕ → List ℕ → ℕ → Option ℤ
memcmp s t zero = some (pos 0)
memcmp [] t (suc n) = none
memcmp (x ∷ s) [] (suc n) = none
memcmp (x ∷ s) (y ∷ t) (suc n) =
    let rest = memcmp s t n in if x == y then rest else some (sub_ℕ x y)
