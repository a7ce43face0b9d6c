-- ===== src/Framebuffer/Circle/Square.antt =====
-- The circle stays in the square around it.
use knut_os.Base.{
  ℕ, zero, suc, ◌+◌, ◌-◌, ◌≤◌, ◌<◌, ◌≡◌, refl, arith, if◌then◌else◌, Bool, true, false, List, [],
  ◌++◌, some, Bool-cases, inl, inr,
}
use knut_os.Base.All.{All}
use knut_os.Base.Int.{
  ℤ, pos, negsuc, pos_part, neg_part, Le, ◌+ℤ◌, ◌-ℤ◌, ◌*ℤ◌, ◌≤ℤ◌, ◌<ℤ◌, +ℤ_parts, -ℤ_parts, -ℤ_pos,
  -ℤ_neg,
}
use knut_os.Framebuffer.Line.{Point}
use knut_os.Framebuffer.Circle.{eight_points, arc, circle_points}

-- `q` is at most `r` away from `c`, in both coordinates.
abbrev pub Near : Point → ℕ → Point → Type 0
Near c r q =
    Le (c.x -ℤ pos r) q.x × Le q.x (c.x +ℤ pos r) × Le (c.y -ℤ pos r) q.y × Le q.y (c.y +ℤ pos r)

-- An offset of at most `r`.
abbrev Small : ℕ → ℤ → Type 0
Small r x = (neg_part x ≤ r) × (pos_part x ≤ r)

plus-near : (c x : ℤ) (r : ℕ) → Small r x → Le (c -ℤ pos r) (c +ℤ x) × Le (c +ℤ x) (c +ℤ pos r)
plus-near c x r small = omega (arith, small, +ℤ_parts c x, +ℤ_parts c (pos r), -ℤ_parts c (pos r))

minus-near : (c x : ℤ) (r : ℕ) → Small r x → Le (c -ℤ pos r) (c -ℤ x) × Le (c -ℤ x) (c +ℤ pos r)
minus-near c x r small = omega (arith, small, -ℤ_parts c x, +ℤ_parts c (pos r), -ℤ_parts c (pos r))

eight_points-Near :
    (c : Point) (x y : ℤ) (r : ℕ) (points : List Point)
    → Small r x
    → Small r y
    → All (Near c r) points
    → All (Near c r) (eight_points c x y ++ points)
unfolding eight_points
eight_points-Near c x y r points sx sy rest =
    let (a, b) = plus-near c.x x r sx in
    let (a', b') = minus-near c.x x r sx in
    let (e, f) = plus-near c.x y r sy in
    let (e', f') = minus-near c.x y r sy in
    let (g, h) = plus-near c.y x r sx in
    let (g', h') = minus-near c.y x r sx in
    let (i, j) = plus-near c.y y r sy in
    let (i', j') = minus-near c.y y r sy in
    (
      (a, b, i, j),
      (
        (a', b', i, j),
        (
          (a, b, i', j'),
          (
            (a', b', i', j'),
            ((e, f, g, h), ((e', f', g, h), ((e, f, g', h'), ((e', f', g', h'), rest)))),
          ),
        ),
      ),
    )

both_parts : (z : ℤ) (r : ℕ) → pos_part z ≤ r + neg_part z → neg_part z ≤ r + pos_part z → Small r z
both_parts (pos n) r above below = omega arith
both_parts (negsuc n) r above below = omega arith

-- `y` goes inwards by one pixel at most.
inward :
    (inwards : Bool) (y : ℤ)
    → let y' = if inwards then y -ℤ pos 1 else y in
      Le y' y × (pos_part y + neg_part y' ≤ pos_part y' + neg_part y + 1)
inward true y = omega (arith, -ℤ_parts y (pos 1))
inward false y = omega arith

-- The rounds that are left: the integers from `x` to `y`.
abbrev left : ℤ → ℤ → ℕ
left x y = pos_part ((y +ℤ pos 1) -ℤ x)

left-le :
    (x y : ℤ) (n : ℕ) → pos_part y + neg_part x + 1 ≤ pos_part x + neg_part y + n → left x y ≤ n
left-le x y n h = elim (Bool-cases (x ≤ℤ (y +ℤ pos 1))) [
  | inl some_left ↦
      let le : Le x (y +ℤ pos 1) = ground (arith, some_left) in
      omega (arith, h, +ℤ_parts y (pos 1), -ℤ_parts (y +ℤ pos 1) x, -ℤ_pos (y +ℤ pos 1) x le)
  | inr none_left ↦
      let le : Le (y +ℤ pos 1) x = ground (arith, none_left) in
      omega (arith, -ℤ_neg (y +ℤ pos 1) x le)
]

le-left : (x y : ℤ) → pos_part y + neg_part x + 1 ≤ pos_part x + neg_part y + left x y
le-left x y = omega (arith, +ℤ_parts y (pos 1), -ℤ_parts (y +ℤ pos 1) x)

arc-Near :
    (fuel r : ℕ) (c : Point) (x y d : ℤ)
    → Le (pos 0) x
    → Le y (pos r)
    → left x y < fuel
    → (points : List Point) × (arc fuel c x y d ≡ some points) × All (Near c (r + 1)) points
unfolding arc
arc-Near zero r c x y d low high enough = absurd (omega (arith, enough))
arc-Near (suc fuel) r c x y d low high enough = elim (Bool-cases (x ≤ℤ y)) [
  | inl go ↦
      let le : Le x y = ground (arith, go) in
      let x' = x +ℤ pos 1 in
      let y' = if pos 0 <ℤ d then y -ℤ pos 1 else y in
      let d' =
        if pos 0 <ℤ d then d +ℤ pos 4 *ℤ (x' -ℤ y') +ℤ pos 10 else d +ℤ pos 4 *ℤ x' +ℤ pos 6 in
      let (down, near) = inward (pos 0 <ℤ d) y in
      let sum = +ℤ_parts x (pos 1) in
      let shorter : left x' y' < fuel =
        omega (arith, enough, le-left x y, left-le x' y' (left x y - 1), sum, down) in
      let (points, run, all) =
        arc-Near fuel r c x' y' d' (omega (arith, sum, low)) (omega (arith, down, high)) shorter in
      (
        eight_points c x' y' ++ points,
        rw (go, run) refl,
        eight_points-Near c x' y' (r + 1) points
            (both_parts x' (r + 1) (omega (arith, sum, le, high)) (omega (arith, sum, low)))
            (both_parts y' (r + 1) (omega (arith, down, high)) (omega (arith, near, le, low))) all,
      )
  | inr done ↦ ([], rw done refl, tt)
]

-- For a radius that is not negative `framebuffer_draw_circle` comes to an end, and every pixel that it
-- draws is at most one pixel farther from the centre than the radius, in both coordinates.
pub circle_points-Near :
    (c : Point) (radius : ℕ)
    → (points : List Point) × (circle_points c (pos radius) ≡ some points)
      × All (Near c (radius + 1)) points
unfolding circle_points
circle_points-Near c radius =
    let (points, run, all) =
      arc-Near (radius + 2) radius c (pos 0) (pos radius) (pos 3 -ℤ pos 2 *ℤ pos radius)
        (omega arith) (omega arith) (omega (arith, left-le (pos 0) (pos radius) (radius + 1))) in
    (
      eight_points c (pos 0) (pos radius) ++ points,
      rw run refl,
      eight_points-Near c (pos 0) (pos radius) (radius + 1) points (omega arith) (omega arith) all,
    )
