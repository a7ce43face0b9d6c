-- ===== src/Framebuffer/Scroll.antt =====
-- What `framebuffer_move_one_row_up` leaves of the screen.
use knut_os.Base.{
  ℕ, zero, suc, ◌+◌, ◌-◌, ◌*◌, ◌/◌, ◌≤◌, ◌<◌, ◌≡◌, ◌∙◌, refl, arith, ◌==◌, ltb, leb, if◌then◌else◌,
  ◌&&◌, Bool-cases, inl, inr, fun_ext, ap,
}
use knut_os.Framebuffer.{Gfx, Screen, move_pixel, move_row, move_rows, move_one_row_up}
use knut_os.Framebuffer.Pixels.{HasRoom, at, at_iff, fb_index_lem}

move_pixel-at :
    (g : Gfx) (bg : ℕ) (fb : ℕ → ℕ) (column row x y : ℕ)
    → HasRoom g
    → row < g.fb_width
    → column < g.fb_height
    → g.glyph_height ≤ column
    → x < g.fb_pitch / 4
    → at g (move_pixel g bg fb column row) x y ≡ (
        if x == row && y + g.glyph_height == column
        then at g fb x column
        else if x == row && y == column
        then bg
        else at g fb x y)
move_pixel-at g bg fb column row x y room hx hy above hx' =
    rw
      (
        fb_index_lem g row column room hx hy,
        fb_index_lem g row (column - g.glyph_height) room hx (omega (arith, hy)),
        at_iff (g.fb_pitch / 4) x y row (column - g.glyph_height) hx' (omega (arith, room.wide)),
        at_iff (g.fb_pitch / 4) x y row column hx' (omega (arith, room.wide)),
      )
      (ground (arith, above))

move_row-at :
    (g : Gfx) (bg column left row : ℕ) (fb : ℕ → ℕ) (x y : ℕ)
    → HasRoom g
    → row + left ≤ g.fb_width
    → column < g.fb_height
    → g.glyph_height ≤ column
    → 0 < g.glyph_height
    → x < g.fb_pitch / 4
    → at g (move_row g bg column left row fb) x y ≡ (
        if leb row x && ltb x (row + left) && y + g.glyph_height == column
        then at g fb x column
        else if leb row x && ltb x (row + left) && y == column
        then bg
        else at g fb x y)
unfolding move_row
move_row-at g bg column zero row fb x y room fits hy above some_height hx = ground arith
move_row-at g bg column (suc left) row fb x y room fits hy above some_height hx =
    move_row-at g bg column left (row + 1) (move_pixel g bg fb column row) x y room
      (omega (arith, fits)) hy above some_height hx
    ∙ rw
        (
          move_pixel-at g bg fb column row x y room (omega (arith, fits)) hy above hx,
          move_pixel-at g bg fb column row x column room (omega (arith, fits)) hy above hx,
        )
        (ground (arith, some_height))

-- A whole line of pixels, by whether `x` is on the screen.
full_row-at :
    (g : Gfx) (bg column : ℕ) (fb : ℕ → ℕ) (x y : ℕ)
    → HasRoom g
    → column < g.fb_height
    → g.glyph_height ≤ column
    → 0 < g.glyph_height
    → x < g.fb_pitch / 4
    → at g (move_row g bg column g.fb_width 0 fb) x y ≡ (
        if ltb x g.fb_width
        then (if y + g.glyph_height == column
            then at g fb x column
            else if y == column
            then bg
            else at g fb x y)
        else at g fb x y)
full_row-at g bg column fb x y room hy above some_height hx =
    move_row-at g bg column g.fb_width 0 fb x y room (omega arith) hy above some_height hx
    ∙ ground arith

-- What line `y` holds after the lines from `column` on, `left` of them, were moved up by `height`.
abbrev pub moved : (ℕ → ℕ) → ℕ → ℕ → ℕ → ℕ → ℕ → ℕ
moved line bg height column left y =
    if leb column (y + height) && ltb (y + height) (column + left)
    then line (y + height)
    else if leb column y && ltb y (column + left)
    then bg
    else line y

-- One line more.
moved-step :
    (line : ℕ → ℕ) (bg height column left y : ℕ)
    → 0 < height
    → moved
        (λ k. if k + height == column then line column else if k == column then bg else line k)
        bg
        height
        (column + 1)
        left
        y
      ≡ moved line bg height column (suc left) y
moved-step line bg height column left y some_height = ground (arith, some_height)

move_rows-at :
    (g : Gfx) (bg left column : ℕ) (fb : ℕ → ℕ) (x y : ℕ)
    → HasRoom g
    → column + left ≤ g.fb_height
    → g.glyph_height ≤ column
    → 0 < g.glyph_height
    → x < g.fb_pitch / 4
    → at g (move_rows g bg left column fb) x y ≡ (
        if ltb x g.fb_width then moved (at g fb x) bg g.glyph_height column left y else at g fb x y)
unfolding move_rows
move_rows-at g bg zero column fb x y room fits above some_height hx = ground arith
move_rows-at g bg (suc left) column fb x y room fits above some_height hx =
    let t = move_row g bg column g.fb_width 0 fb in
    let line : (k : ℕ)
        → at g t x k ≡ (
            if ltb x g.fb_width
            then (if k + g.glyph_height == column
                then at g fb x column
                else if k == column
                then bg
                else at g fb x k)
            else at g fb x k) =
      λ k. full_row-at g bg column fb x k room (omega (arith, fits)) above some_height hx in
    move_rows-at g bg left (column + 1) t x y room (omega (arith, fits)) (omega (arith, above))
      some_height hx
    ∙ elim (Bool-cases (ltb x g.fb_width)) [
      | inl on ↦
          let once : (k : ℕ)
              → at g t x k ≡ (
                  if k + g.glyph_height == column
                  then at g fb x column
                  else if k == column
                  then bg
                  else at g fb x k) =
            λ k. line k ∙ rw on refl in
          rw on (
            ap (λ f. moved f bg g.glyph_height (column + 1) left y) (fun_ext once)
            ∙ moved-step (at g fb x) bg g.glyph_height column left y some_height)
      | inr off ↦ rw off (line y ∙ rw off refl)
    ]

-- Where a line of the screen fits in the pitch and the screen has two rows of glyphs at least,
-- `framebuffer_move_one_row_up` moves each line up by the height of a glyph and fills the last such
-- row with the background colour, although it writes to the memory that it reads: no line is read
-- after it was written. The pen stays, and no word beside the screen changes.
pub move_one_row_up-at :
    (s : Screen) (x y : ℕ)
    → HasRoom s.gfx
    → 0 < s.gfx.glyph_height
    → 2 * s.gfx.glyph_height ≤ s.gfx.fb_height
    → x < s.gfx.fb_pitch / 4
    → ((move_one_row_up s).dst ≡ s.dst)
      × ((move_one_row_up s).gfx ≡ s.gfx)
      × (at s.gfx (move_one_row_up s).fb x y ≡ (
          if ltb x s.gfx.fb_width && ltb y s.gfx.fb_height
          then (if ltb (y + s.gfx.glyph_height) s.gfx.fb_height
              then at s.gfx s.fb x (y + s.gfx.glyph_height)
              else s.dst.bg)
          else at s.gfx s.fb x y))
unfolding move_one_row_up
move_one_row_up-at s x y room some_height two_rows hx = (
  refl,
  refl,
  move_rows-at s.gfx s.dst.bg (s.gfx.fb_height - s.gfx.glyph_height) s.gfx.glyph_height s.fb x y
        room (omega arith) (omega arith) some_height hx
      ∙ ground (arith, some_height, two_rows),
)
