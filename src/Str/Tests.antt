-- ===== src/Str/Tests.antt =====
-- Blocks of a few bytes.
use knut_os.Base.{ℕ, ◌≡◌, refl, some, List, [], ◌∷◌}
use knut_os.Base.Int.{pos}
use knut_os.Str.{memcmp}

abbrev left : List ℕ
left = 1 ∷ 2 ∷ 3 ∷ []

abbrev right : List ℕ
right = 1 ∷ 2 ∷ 4 ∷ []

same_start : memcmp left right 2 ≡ some (pos 0)
unfolding memcmp
same_start = refl
