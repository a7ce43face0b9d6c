-- ===== src/Framebuffer/Line/Tests.antt =====
-- Lines in three directions.
use knut_os.Base.{ℕ, ◌≡◌, refl, [], ◌∷◌, some}
use knut_os.Base.All.{All}
use knut_os.Base.Int.{pos, ◌+ℤ◌, ◌-ℤ◌, ◌*ℤ◌}
use knut_os.Framebuffer.Line.{Point, slope, vertical, line_points}

abbrev at_xy : ℕ → ℕ → Point
at_xy x y = record { x = pos x; y = pos y }

-- The loop stops where the line reaches one of the two coordinates: the second half is missing.
line_stops_early :
    line_points (at_xy 0 0) (at_xy 4 1) ≡ some (at_xy 0 0 ∷ at_xy 1 0 ∷ at_xy 2 1 ∷ [])
unfolding line_points slope ◌+ℤ◌ ◌-ℤ◌ ◌*ℤ◌
line_stops_early = refl

upright_line : line_points (at_xy 5 3) (at_xy 5 1) ≡ some (at_xy 5 1 ∷ at_xy 5 2 ∷ at_xy 5 3 ∷ [])
unfolding line_points vertical ◌+ℤ◌ ◌-ℤ◌
upright_line = refl
