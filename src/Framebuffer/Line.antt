-- ===== src/Framebuffer/Line.antt =====
-- `framebuffer_draw_line` of src/kernel/devices/framebuffer/framebuffer.c. Coordinates are integers;
-- that sums of them are within an `int` is not checked.
pub mod Box
pub mod Ends
mod Tests
use knut_os.Base.{
  ℕ, zero, suc, ◌+◌, ◌-◌, ◌*◌, ◌^◌, if◌then◌else◌, Bool, ◌||◌, List, [], ◌∷◌, Option, none, some,
  ◌>>=◌,
}
use knut_os.Base.Words.{u64}
use knut_os.Base.Int.{
  ℤ, pos, negsuc, pos_part, neg_part, negate, ◌+ℤ◌, ◌-ℤ◌, ◌*ℤ◌, ◌==ℤ◌, ◌≤ℤ◌, ◌<ℤ◌,
}
use knut_os.Framebuffer.{Gfx, draw_pixel}

pub record Point : Type 0 where
  pub x : ℤ
  pub y : ℤ

-- An `int` made a `size_t`.
abbrev pub size_of : ℤ → ℕ
size_of (pos n) = u64 n
size_of (negsuc n) = u64 (2 ^ 64 - 1 - u64 n)

-- The calls of `framebuffer_draw_pixel`, in their order.
pub draw_points : Gfx → ℕ → List Point → (ℕ → ℕ) → ℕ → ℕ
unfolding draw_pixel
draw_points g color [] fb = fb
draw_points g color (p ∷ points) fb =
    draw_points g color points (draw_pixel g fb (size_of p.x) (size_of p.y) color)

-- `for (y = first; y <= last; y++)`, with the rounds that this makes.
abbrev pub rounds : ℤ → ℤ → ℕ
rounds first last = pos_part ((last +ℤ pos 1) -ℤ first)

pub vertical : ℤ → ℕ → ℤ → List Point
vertical x zero y = []
vertical x (suc left) y = record { x = x; y = y } ∷ vertical x left (y +ℤ pos 1)

pub horizontal : ℤ → ℕ → ℤ → List Point
horizontal y zero x = []
horizontal y (suc left) x = record { x = x; y = y } ∷ horizontal y left (x +ℤ pos 1)

-- The loop, on fuel, with `none` where it goes on. `d` is `(dx, dy)`, `s` is `(sx, sy)`, and `stop` is
-- the end of the line.
pub slope : ℕ → Point → Point → Point → Point → ℤ → Option (List Point)
slope zero d s stop p error1 = none
slope (suc fuel) d s stop p error1 =
    let error2 = pos 2 *ℤ error1 in
    let sideways = d.y ≤ℤ error2 in
    let upright = error2 ≤ℤ d.x in
    let error1' = if sideways then error1 +ℤ d.y else error1 in
    let error1'' = if upright then error1' +ℤ d.x else error1' in
    let p' : Point = record {
      x = if sideways then p.x +ℤ s.x else p.x;
      y = if upright then p.y +ℤ s.y else p.y;
    } in
    let rest = (do points ← slope fuel d s stop p' error1''; some (p' ∷ points)) in
    if p.x ==ℤ stop.x || p.y ==ℤ stop.y then some [] else rest

-- How far the ends are apart, the fuel of the loop.
abbrev pub distance : ℤ → ℤ → ℕ
distance a b = pos_part (b -ℤ a) + neg_part (b -ℤ a)

pub line_points : Point → Point → Option (List Point)
line_points start stop =
    let dx = if start.x <ℤ stop.x then stop.x -ℤ start.x else start.x -ℤ stop.x in
    let dy = if start.y <ℤ stop.y then negate (stop.y -ℤ start.y) else negate (start.y -ℤ stop.y) in
    let s : Point = record {
      x = if start.x <ℤ stop.x then pos 1 else negsuc 0;
      y = if start.y <ℤ stop.y then pos 1 else negsuc 0;
    } in
    if start.x ==ℤ stop.x
    then some (
        if start.y <ℤ stop.y
        then vertical start.x (rounds start.y stop.y) start.y
        else vertical start.x (rounds stop.y start.y) stop.y)
    else if start.y ==ℤ stop.y
    then some (
        if start.x <ℤ stop.x
        then horizontal start.y (rounds start.x stop.x) start.x
        else horizontal start.y (rounds stop.x start.x) stop.x)
    else (do
      points ←
          slope (suc (distance start.x stop.x + distance start.y stop.y))
            (record { x = dx; y = dy }) s stop start (dx +ℤ dy)
      some (start ∷ points))

pub draw_line : Gfx → Point → Point → ℕ → (ℕ → ℕ) → Option (ℕ → ℕ)
unfolding draw_points line_points
draw_line g start stop color fb = do
  points ← line_points start stop
  some (draw_points g color points fb)
