-- ===== src/Framebuffer/Circle.antt =====
-- `framebuffer_draw_circle` of src/kernel/devices/framebuffer/framebuffer.c, over integers.
pub mod Square
use knut_os.Base.{
  ℕ, zero, suc, ◌+◌, ◌-◌, ◌*◌, if◌then◌else◌, List, [], ◌∷◌, ◌++◌, Option, none, some, ◌>>=◌,
}
use knut_os.Base.Int.{ℤ, pos, pos_part, ◌+ℤ◌, ◌-ℤ◌, ◌*ℤ◌, ◌≤ℤ◌, ◌<ℤ◌}
use knut_os.Framebuffer.{Gfx}
use knut_os.Framebuffer.Line.{Point, draw_points}

abbrev pub at_xy : ℤ → ℤ → Point
at_xy x y = record { x = x; y = y }

-- `draw_circle_helper`.
pub eight_points : Point → ℤ → ℤ → List Point
eight_points c x y =
    at_xy (c.x +ℤ x) (c.y +ℤ y)
    ∷ at_xy (c.x -ℤ x) (c.y +ℤ y)
    ∷ at_xy (c.x +ℤ x) (c.y -ℤ y)
    ∷ at_xy (c.x -ℤ x) (c.y -ℤ y)
    ∷ at_xy (c.x +ℤ y) (c.y +ℤ x)
    ∷ at_xy (c.x -ℤ y) (c.y +ℤ x)
    ∷ at_xy (c.x +ℤ y) (c.y -ℤ x)
    ∷ at_xy (c.x -ℤ y) (c.y -ℤ x)
    ∷ []

-- The loop, on fuel, with `none` where it goes on.
pub arc : ℕ → Point → ℤ → ℤ → ℤ → Option (List Point)
unfolding eight_points
arc zero c x y d = none
arc (suc fuel) c x y d =
    let x' = x +ℤ pos 1 in
    let inwards = pos 0 <ℤ d in
    let y' = if inwards then y -ℤ pos 1 else y in
    let d' = if inwards then d +ℤ pos 4 *ℤ (x' -ℤ y') +ℤ pos 10 else d +ℤ pos 4 *ℤ x' +ℤ pos 6 in
    let rest = (do points ← arc fuel c x' y' d'; some (eight_points c x' y' ++ points)) in
    if x ≤ℤ y then rest else some []

-- As many rounds as the radius are enough, and one more for the end.
pub circle_points : Point → ℤ → Option (List Point)
unfolding eight_points
circle_points c radius = do
  points ← arc (pos_part radius + 2) c (pos 0) radius (pos 3 -ℤ pos 2 *ℤ radius)
  some (eight_points c (pos 0) radius ++ points)

pub draw_circle : Gfx → Point → ℤ → ℕ → (ℕ → ℕ) → Option (ℕ → ℕ)
unfolding circle_points
draw_circle g c radius color fb = do
  points ← circle_points c radius
  some (draw_points g color points fb)
