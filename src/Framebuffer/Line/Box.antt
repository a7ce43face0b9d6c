-- ===== src/Framebuffer/Line/Box.antt =====
-- The loop of a slope stays in the box that is left.
use knut_os.Base.{
  ℕ, zero, suc, ◌+◌, ◌<◌, ◌≡◌, refl, ◌⊎◌, inl, inr, arith, if◌then◌else◌, Bool, true, false, ◌||◌,
  List, [], ◌∷◌, some, Bool-cases,
}
use knut_os.Base.All.{All, All-map}
use knut_os.Base.Int.{
  ℤ, pos, negsuc, pos_part, neg_part, Le, ◌+ℤ◌, ◌*ℤ◌, ◌==ℤ◌, ◌≤ℤ◌, +ℤ_parts, -ℤ_parts, -ℤ_pos,
  -ℤ_neg,
}
use knut_os.Framebuffer.Line.{Point, slope, distance}

-- From `x` in the direction `s`, `q` comes before `stop` or is there.
abbrev pub Ahead : ℤ → ℤ → ℤ → ℤ → Type 0
Ahead s x q stop = ((s ≡ pos 1) × Le x q × Le q stop) ⊎ ((s ≡ negsuc 0) × Le stop q × Le q x)

Ahead-trans : (s x x' q stop : ℤ) → Ahead s x x' stop → Ahead s x' q stop → Ahead s x q stop
Ahead-trans s x x' q stop (inl (e, a, b)) (inl (e', a', b')) = inl (e, omega arith, b')
Ahead-trans s x x' q stop (inl (e, a, b)) (inr (e', a', b')) = cc
Ahead-trans s x x' q stop (inr (e, a, b)) (inl (e', a', b')) = cc
Ahead-trans s x x' q stop (inr (e, a, b)) (inr (e', a', b')) = inr (e, a', omega arith)

-- One step, short of the end.
Ahead-step :
    (s x stop : ℤ)
    → Ahead s x x stop
    → (x ==ℤ stop) ≡ false
    → Ahead s x (x +ℤ s) stop
      × Ahead s (x +ℤ s) (x +ℤ s) stop
      × (suc (distance (x +ℤ s) stop) ≡ distance x stop)
Ahead-step s x stop (inl (e, a, b)) short =
    let lt : pos_part x + neg_part stop < pos_part stop + neg_part x = ground (arith, b, short) in
    let sum = +ℤ_parts x (pos 1) in
    let up : Le x (x +ℤ pos 1) = omega (arith, sum) in
    let le : Le (x +ℤ pos 1) stop = omega (arith, sum, lt) in
    let closer : suc (distance (x +ℤ pos 1) stop) ≡ distance x stop = omega (
      arith,
      sum,
      -ℤ_parts stop x,
      -ℤ_parts stop (x +ℤ pos 1),
      -ℤ_pos stop x b,
      -ℤ_pos stop (x +ℤ pos 1) le,
    ) in
    rw e (inl (refl, up, le), inl (refl, omega arith, le), closer)
Ahead-step s x stop (inr (e, a, b)) short =
    let lt : pos_part stop + neg_part x < pos_part x + neg_part stop = ground (arith, a, short) in
    let sum = +ℤ_parts x (negsuc 0) in
    let down : Le (x +ℤ negsuc 0) x = omega (arith, sum) in
    let le : Le stop (x +ℤ negsuc 0) = omega (arith, sum, lt) in
    let closer : suc (distance (x +ℤ negsuc 0) stop) ≡ distance x stop = omega (
      arith,
      sum,
      -ℤ_parts stop x,
      -ℤ_parts stop (x +ℤ negsuc 0),
      -ℤ_neg stop x a,
      -ℤ_neg stop (x +ℤ negsuc 0) le,
    ) in
    rw e (inr (refl, le, down), inr (refl, le, omega arith), closer)

-- Each round moves the point: the error is not below `dy` or not above `dx`.
moves : (dx dy e : ℤ) → Le (pos 0) dx → Le dy (pos 0) → (dy ≤ℤ e) ≡ false → (e ≤ℤ dx) ≡ true
moves dx dy e right down below = ground (arith, right, down, below)

-- A point of the box between `p` and `stop`.
abbrev pub InBox : Point → Point → Point → Point → Type 0
InBox s p stop q = Ahead s.x p.x q.x stop.x × Ahead s.y p.y q.y stop.y

InBox-trans : (s p p' stop q : Point) → InBox s p stop p' → InBox s p' stop q → InBox s p stop q
InBox-trans s p p' stop q a b =
    (Ahead-trans s.x p.x p'.x q.x stop.x a.0 b.0, Ahead-trans s.y p.y p'.y q.y stop.y a.1 b.1)

-- The point after a round, by whether it moves sideways and upright.
abbrev moved : Bool → Bool → Point → Point → Point
moved sideways upright s p = record {
  x = if sideways then p.x +ℤ s.x else p.x;
  y = if upright then p.y +ℤ s.y else p.y;
}

moved-InBox :
    (sideways upright : Bool) (s p stop : Point)
    → InBox s p stop p
    → (p.x ==ℤ stop.x) ≡ false
    → (p.y ==ℤ stop.y) ≡ false
    → (sideways ≡ true) ⊎ (upright ≡ true)
    → InBox s p stop (moved sideways upright s p)
      × InBox s (moved sideways upright s p) stop (moved sideways upright s p)
      × (distance (moved sideways upright s p).x stop.x
            + distance (moved sideways upright s p).y stop.y
          < distance p.x stop.x + distance p.y stop.y)
moved-InBox true true s p stop box nx ny some_move =
    let (ax, bx, cx) = Ahead-step s.x p.x stop.x box.0 nx in
    let (ay, b_y, cy) = Ahead-step s.y p.y stop.y box.1 ny in
    ((ax, ay), (bx, b_y), omega (arith, cx, cy))
moved-InBox true false s p stop box nx ny some_move =
    let (ax, bx, cx) = Ahead-step s.x p.x stop.x box.0 nx in
    ((ax, box.1), (bx, box.1), omega (arith, cx))
moved-InBox false true s p stop box nx ny some_move =
    let (ay, b_y, cy) = Ahead-step s.y p.y stop.y box.1 ny in
    ((box.0, ay), (box.0, b_y), omega (arith, cy))
moved-InBox false false s p stop box nx ny (inl e) = cc
moved-InBox false false s p stop box nx ny (inr e) = cc

or_false : (a b : Bool) → (a || b) ≡ false → (a ≡ false) × (b ≡ false)
or_false true b h = cc
or_false false b h = (refl, h)

pub slope-InBox :
    (fuel : ℕ) (d s stop p : Point) (error1 : ℤ)
    → Le (pos 0) d.x
    → Le d.y (pos 0)
    → InBox s p stop p
    → distance p.x stop.x + distance p.y stop.y < fuel
    → (points : List Point) × (slope fuel d s stop p error1 ≡ some points)
      × All (InBox s p stop) points
unfolding slope
slope-InBox zero d s stop p error1 right down box enough = absurd (omega (arith, enough))
slope-InBox (suc fuel) d s stop p error1 right down box enough =
    let sideways = d.y ≤ℤ (pos 2 *ℤ error1) in
    let upright = (pos 2 *ℤ error1) ≤ℤ d.x in
    let error1' = if sideways then error1 +ℤ d.y else error1 in
    let error1'' = if upright then error1' +ℤ d.x else error1' in
    let p' = moved sideways upright s p in
    elim (Bool-cases (p.x ==ℤ stop.x || p.y ==ℤ stop.y)) [
      | inl done ↦ ([], rw done refl, tt)
      | inr more ↦
          let short = or_false (p.x ==ℤ stop.x) (p.y ==ℤ stop.y) more in
          let some_move : (sideways ≡ true) ⊎ (upright ≡ true) = elim (Bool-cases sideways) [
            | inl e ↦ inl e
            | inr e ↦ inr (moves d.x d.y (pos 2 *ℤ error1) right down e)
          ] in
          let (step, box', less) =
            moved-InBox sideways upright s p stop box short.0 short.1 some_move in
          let (points, run, all) =
            slope-InBox fuel d s stop p' error1'' right down box' (omega (arith, less, enough)) in
          (
            p' ∷ points,
            rw (more, run) refl,
            (step, All-map _ _ (λ q h. InBox-trans s p p' stop q step h) points all),
          )
    ]
