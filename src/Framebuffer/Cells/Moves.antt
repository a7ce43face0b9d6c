-- ===== src/Framebuffer/Cells/Moves.antt =====
-- One step of the pen on the grid: a new line or row, a glyph, a newline, a backspace.
use native.Mathlib.Decide.{ℕ_discrete}
use knut_os.Base.{ℕ, ◌+◌, ◌-◌, ◌*◌, ◌^◌, ◌≤◌, ◌<◌, ◌≡◌, arith, true, false, ◌==◌}
use knut_os.Base.Words.{u16}
use knut_os.Framebuffer.{Screen, move_to, move_one_row_up, keep_above, place_pen, backspace}
use knut_os.Framebuffer.Cells.{Cell, settle, typed, IsGrid, On, Renders}

pub settle_lt :
    (cols rows : ℕ) (c : Cell)
    → IsGrid cols rows
    → c.col ≤ cols
    → ((settle cols rows c).col < cols) × ((settle cols rows c).row < rows)
unfolding settle
settle_lt cols rows c grid col_le = ground arith

pub place_pen-On :
    (cols rows : ℕ) (c : Cell) (s : Screen)
    → IsGrid cols rows
    → On cols rows c s
    → On cols rows (settle cols rows c) (place_pen s s.dst.x s.dst.y)
unfolding place_pen keep_above move_one_row_up settle
place_pen-On cols rows c s grid on = record {
  glyph_width = ground arith;
  glyph_height = ground arith;
  width = ground arith;
  height = ground arith;
  w = ground arith;
  h = ground arith;
  x = ground arith;
  y = ground arith;
  col_le = ground arith;
  row_le = ground arith;
}

-- The pen put on another cell.
move_to-On :
    {cols rows : ℕ} (c d : Cell) (s : Screen) (x y : ℕ)
    → On cols rows c s
    → u16 x ≡ 8 * d.col
    → u16 y ≡ 16 * d.row
    → d.col ≤ cols
    → d.row ≤ rows
    → On cols rows d (move_to s x y)
move_to-On c d s x y on at_x at_y col_le row_le = record {
  glyph_width = on.glyph_width;
  glyph_height = on.glyph_height;
  width = on.width;
  height = on.height;
  w = on.w;
  h = on.h;
  x = at_x;
  y = at_y;
  col_le = col_le;
  row_le = row_le;
}

module _ (cols rows : ℕ) (grid : IsGrid cols rows) (putc : ℕ → Screen → Screen)
    (renders : Renders putc) where
  -- A glyph, drawn where there is room for it.
  pub glyph-On :
      (c : Cell) (s : Screen) (unicode fg : ℕ)
      → On cols rows c s
      → c.col < cols
      → c.row < rows
      → 32 ≤ unicode
      → unicode < 127
      → On cols rows
          (record c { col = c.col + 1 })
          (putc unicode (record s { dst = record s.dst { fg = fg } }))
  glyph-On c s unicode fg on col_lt row_lt low high =
      let t = record s { dst = record s.dst { fg = fg } } in
      let drawn =
        renders.glyph unicode t low high (omega (arith, on.x, on.w)) (omega (arith, on.y, on.h)) in
      let kept = renders.same_gfx unicode t in
      record {
        glyph_width = rw kept on.glyph_width;
        glyph_height = rw kept on.glyph_height;
        width = rw kept on.width;
        height = rw kept on.height;
        w = rw drawn on.w;
        h = rw drawn on.h;
        x = rw drawn (omega (arith, on.x, grid.cols_fit));
        y = rw drawn on.y;
        col_le = omega arith;
        row_le = omega arith;
      }

  pub newline-On :
      (c : Cell) (s : Screen) (fg : ℕ)
      → On cols rows c s
      → c.row < rows
      → On cols rows
          (record { row = c.row + 1; col = 0 })
          (putc 10 (record s { dst = record s.dst { fg = fg } }))
  newline-On c s fg on row_lt =
      let t = record s { dst = record s.dst { fg = fg } } in
      let drawn = renders.newline t in
      let kept = renders.same_gfx 10 t in
      record {
        glyph_width = rw kept on.glyph_width;
        glyph_height = rw kept on.glyph_height;
        width = rw kept on.width;
        height = rw kept on.height;
        w = rw drawn on.w;
        h = rw drawn on.h;
        x = rw drawn (omega arith);
        y = rw drawn (omega (arith, on.y, grid.rows_fit));
        col_le = omega arith;
        row_le = omega arith;
      }

  -- A space over the cell at the pen, and the pen back on it.
  erased : Screen → Screen
  erased s = let t = putc 0x20 s in move_to t (t.dst.x + 2 ^ 16 - t.gfx.glyph_width) t.dst.y

  erased-On :
      (c : Cell) (s : Screen)
      → On cols rows c s
      → c.col < cols
      → c.row < rows
      → On cols rows c (erased s)
  unfolding erased
  erased-On c s on col_lt row_lt =
      let after = glyph-On c s 0x20 s.dst.fg on col_lt row_lt (omega arith) (omega arith) in
      move_to-On (record c { col = c.col + 1 }) c (putc 0x20 s) _ _ after
        (omega (arith, after.x, after.glyph_width, grid.cols_fit))
        (omega (arith, after.y, grid.rows_fit)) (omega arith) (omega arith)

  pub backspace-On :
      (c : Cell) (s : Screen)
      → On cols rows c s
      → c.col < cols
      → c.row < rows
      → On cols rows (typed cols c 8) (backspace putc s)
  unfolding backspace typed erased
  backspace-On c s on col_lt row_lt = elim (ℕ_discrete c.col 0) [
    | yes first ↦
        let at_start : (s.dst.x == 0) ≡ true = ground (arith, on.x) in
        let first_col : (c.col == 0) ≡ true = ground arith in
        elim (ℕ_discrete c.row 0) [
          | yes top ↦
              let at_top : (s.dst.y == 0) ≡ true = ground (arith, on.y) in
              let top_row : (c.row == 0) ≡ true = ground arith in
              rw (at_start, at_top, first_col, top_row) on
          | no below ↦
              let not_top : (s.dst.y == 0) ≡ false = ground (arith, on.y) in
              let lower_row : (c.row == 0) ≡ false = ground arith in
              let d : Cell = record { row = c.row - 1; col = cols - 1 } in
              rw (at_start, not_top, first_col, lower_row)
                (erased-On d _
                  (move_to-On c d s _ _ on (omega (arith, on.width, on.glyph_width, grid))
                    (omega (arith, on.y, on.glyph_height, grid)) (omega arith) (omega arith))
                  (omega (arith, grid.some_cols)) (omega arith))
        ]
    | no later ↦
        let not_start : (s.dst.x == 0) ≡ false = ground (arith, on.x) in
        let later_col : (c.col == 0) ≡ false = ground arith in
        let d : Cell = record c { col = c.col - 1 } in
        rw (not_start, later_col)
          (erased-On d _
            (move_to-On c d s _ _ on (omega (arith, on.x, on.glyph_width, grid))
              (omega (arith, on.y, grid)) (omega arith) (omega arith))
            (omega arith) (omega arith))
  ]
