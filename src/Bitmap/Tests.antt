-- ===== src/Bitmap/Tests.antt =====
-- A bitmap of two bytes.
use knut_os.Base.{◌≡◌, refl, some, none, [], ◌∷◌}
use knut_os.Bitmap.{Bitmap, set_bit, unset_bit, check_bit}

abbrev sixteen : Bitmap
sixteen = record { map = 0x07 ∷ 0xF0 ∷ []; size = 2 }

set_runs : set_bit sixteen 5 ≡ some (record sixteen { map = 0x27 ∷ 0xF0 ∷ [] })
unfolding set_bit
set_runs = refl

unset_runs : unset_bit sixteen 13 ≡ some (record sixteen { map = 0x07 ∷ 0xD0 ∷ [] })
unfolding unset_bit
unset_runs = refl

check_runs : check_bit sixteen 13 ≡ some 32
unfolding check_bit
check_runs = refl

check_outside : check_bit sixteen 16 ≡ none
unfolding check_bit
check_outside = refl
