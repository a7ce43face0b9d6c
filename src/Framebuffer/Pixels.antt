-- ===== src/Framebuffer/Pixels.antt =====
-- The index of a pixel, and what the loops that fill the screen write.
use knut_os.Base.{
  ℕ, zero, suc, ◌+◌, ◌*◌, ◌/◌, ◌^◌, ◌≤◌, ◌<◌, ◌≡◌, refl, arith, ◌==◌, ltb, leb, if◌then◌else◌, ◌&&◌,
  ◌∙◌,
}
use knut_os.Framebuffer.{
  Gfx, Screen, fb_index, draw_pixel, fill_row, fill_rows, set_background_color, reset_screen,
}

-- A line of the screen fits in the pitch, and the fields are of type `uint16_t`.
pub record HasRoom (g : Gfx) : Type 0 where
  pub wide : g.fb_width ≤ g.fb_pitch / 4
  pub tall : g.fb_height < 2 ^ 16
  pub pitched : g.fb_pitch < 2 ^ 16

below-mul : (x y stride : ℕ) → x < stride → y < 2 ^ 16 → stride < 2 ^ 14 → y * stride + x < 2 ^ 31
below-mul x y stride hx hy hs = grind arith

pub fb_index_lem :
    (g : Gfx) (x y : ℕ)
    → HasRoom g
    → x < g.fb_width
    → y < g.fb_height
    → fb_index g x y ≡ y * (g.fb_pitch / 4) + x
fb_index_lem g x y room hx hy =
    let stride = g.fb_pitch / 4 in
    let below : y * stride + x < 2 ^ 31 =
      below-mul x y stride (omega (arith, room.wide)) (omega (arith, room.tall))
        (omega (arith, room.pitched)) in
    omega (arith, below)

same_row : (stride x y x' y' : ℕ) → x < stride → y < y' → y * stride + x < y' * stride + x'
same_row stride x y x' y' hx h = grind arith

-- Two pixels at one index are one pixel.
pub at_iff :
    (stride x y x' y' : ℕ)
    → x < stride
    → x' < stride
    → ((y * stride + x) == (y' * stride + x')) ≡ (x == x' && y == y')
at_iff stride x y x' y' hx hx' =
    ground (arith, same_row stride x y x' y', same_row stride x' y' x y)

-- The word at a place of the screen's memory, by column and row.
abbrev pub at : Gfx → (ℕ → ℕ) → ℕ → ℕ → ℕ
at g fb x y = fb (y * (g.fb_pitch / 4) + x)

draw_pixel-at :
    (g : Gfx) (fb : ℕ → ℕ) (x y color x' y' : ℕ)
    → HasRoom g
    → x < g.fb_width
    → y < g.fb_height
    → x' < g.fb_pitch / 4
    → at g (draw_pixel g fb x y color) x' y' ≡ (if x' == x && y' == y then color else at g fb x' y')
unfolding draw_pixel
draw_pixel-at g fb x y color x' y' room hx hy hx' =
    rw
      (
        fb_index_lem g x y room hx hy,
        at_iff (g.fb_pitch / 4) x' y' x y hx' (omega (arith, room.wide)),
      )
      refl

fill_row-at :
    (g : Gfx) (color y left x : ℕ) (fb : ℕ → ℕ) (x' y' : ℕ)
    → HasRoom g
    → x + left ≤ g.fb_width
    → y < g.fb_height
    → x' < g.fb_pitch / 4
    → at g (fill_row g color y left x fb) x' y'
      ≡ (if y' == y && leb x x' && ltb x' (x + left) then color else at g fb x' y')
unfolding fill_row
fill_row-at g color y zero x fb x' y' room fits hy hx' = ground arith
fill_row-at g color y (suc left) x fb x' y' room fits hy hx' =
    fill_row-at g color y left (x + 1) (draw_pixel g fb x y color) x' y' room (omega (arith, fits))
      hy hx'
    ∙ rw (draw_pixel-at g fb x y color x' y' room (omega (arith, fits)) hy hx') (ground arith)

pub fill_rows-at :
    (g : Gfx) (color left y : ℕ) (fb : ℕ → ℕ) (x' y' : ℕ)
    → HasRoom g
    → y + left ≤ g.fb_height
    → x' < g.fb_pitch / 4
    → at g (fill_rows g color left y fb) x' y'
      ≡ (if ltb x' g.fb_width && leb y y' && ltb y' (y + left) then color else at g fb x' y')
unfolding fill_rows
fill_rows-at g color zero y fb x' y' room fits hx' = ground arith
fill_rows-at g color (suc left) y fb x' y' room fits hx' =
    fill_rows-at g color left (y + 1) (fill_row g color y g.fb_width 0 fb) x' y' room
      (omega (arith, fits)) hx'
    ∙ rw (fill_row-at g color y g.fb_width 0 fb x' y' room (omega arith) (omega (arith, fits)) hx')
        (ground arith)

-- Where a line of the screen fits in the pitch, `framebuffer_reset_screen` puts the pen at the top
-- left, and gives every pixel of the screen the background colour. No word beside the screen changes,
-- be it in the rest of a line's pitch or below the last line.
pub reset_screen-at :
    (s : Screen) (x y : ℕ)
    → HasRoom s.gfx
    → x < s.gfx.fb_pitch / 4
    → ((reset_screen s).dst ≡ record s.dst { x = 0; y = 0 })
      × ((reset_screen s).gfx ≡ s.gfx)
      × (at s.gfx (reset_screen s).fb x y
          ≡ (if ltb x s.gfx.fb_width && ltb y s.gfx.fb_height then s.dst.bg else at s.gfx s.fb x y))
unfolding reset_screen set_background_color
reset_screen-at s x y room hx = (
  refl,
  refl,
  fill_rows-at s.gfx s.dst.bg s.gfx.fb_height 0 s.fb x y room (omega arith) hx ∙ ground arith,
)
