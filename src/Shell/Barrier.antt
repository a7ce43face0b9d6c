-- ===== src/Shell/Barrier.antt =====
-- One key of a line: the pen and the barrier.
use native.Mathlib.Decide.{ℕ_discrete}
use knut_os.Base.{
  ℕ, suc, ◌+◌, ◌-◌, ◌*◌, ◌^◌, ◌≤◌, ◌<◌, ◌≡◌, refl, ap, ap₂, ◌∙◌, inl, inr, arith, Bool, true, false,
  ◌==◌, if◌then◌else◌, ◌&&◌, [], ◌∷◌,
}
use knut_os.Base.Int.{ℤ, pos, sub_ℕ, ◌-ℤ◌, ◌==ℤ◌}
use knut_os.Framebuffer.{Screen, gfx_blue, biased}
use knut_os.Framebuffer.Cells.{Cell, put_cell, put_cells, IsGrid, On, Renders}
use knut_os.Framebuffer.Cells.Text.{print_string-On}
use knut_os.Keyboard.{KeyInfo}
use knut_os.Shell.{Shell, int_of, shell_print_char}
use knut_os.Shell.Counts.{Counts, char-Counts, back-Counts, idle-Counts, barrier_iff}

-- The shell has `n` cells between its barrier and the pen; its prompt ended at the cell `b`.
pub record Typed (cols rows : ℕ) (b : Cell) (n total : ℕ) (sh : Shell) : Type 0 where
  pub cell : Cell
  pub up : ℕ
  pub on : On cols rows cell sh.screen
  pub x_barrier : sh.x_barrier ≡ pos (8 * b.col)
  pub y_barrier : sh.y_barrier ≡ sub_ℕ (16 * b.row) (16 * up)
  pub counts : Counts cols rows b n total cell up

one_line_up : (row up : ℕ) → sub_ℕ (16 * row) (16 * up) -ℤ pos 16 ≡ sub_ℕ (16 * row) (16 * (up + 1))
unfolding ◌-ℤ◌
one_line_up row up = ground arith

pub int_of_small : (x : ℕ) → x < 2 ^ 15 → int_of x ≡ pos x
int_of_small x small = ground (arith, small)

same_col : (col col' : ℕ) → (pos (8 * col) ==ℤ pos (8 * col')) ≡ (col == col')
same_col col col' = ground arith

same_row :
    (row up row' : ℕ) → (pos (16 * row) ==ℤ sub_ℕ (16 * row') (16 * up)) ≡ ((row + up) == row')
same_row row up row' = ground arith

pub unmoved : (row : ℕ) → pos (16 * row) ≡ sub_ℕ (16 * row) (16 * 0)
unmoved row = ground arith

barrier_moves :
    (scrolls : Bool) (y : ℤ) (glyph_height row up : ℕ)
    → glyph_height ≡ 16
    → y ≡ sub_ℕ (16 * row) (16 * up)
    → (if scrolls then y -ℤ pos glyph_height else y)
      ≡ sub_ℕ (16 * row) (16 * (if scrolls then up + 1 else up))
barrier_moves true y glyph_height row up high at = rw (high, at) (one_line_up row up)
barrier_moves false y glyph_height row up high at = at

module _ (cols rows : ℕ) (grid : IsGrid cols rows) (two_cols : 2 ≤ cols) (two_rows : 2 ≤ rows)
    (putc : ℕ → Screen → Screen) (renders : Renders putc) (b : Cell) (b_col : b.col < cols) where
  -- Where the code tests for the last cell of the screen.
  last_cell :
      (c : Cell) (s : Screen)
      → On cols rows c s
      → ((biased s.dst.y + s.gfx.glyph_height) == (s.gfx.fb_height + 2 ^ 15)
          && (biased s.dst.x + s.gfx.glyph_width) == (s.gfx.fb_width + 2 ^ 15))
        ≡ (c.row == rows - 1 && (c.col + 1) == cols)
  last_cell c s on =
      ground (arith, on.x, on.y, on.width, on.height, grid.cols_fit, grid.rows_fit, grid.some_rows)

  -- A key that types nothing.
  pub idle-Typed :
      (n total : ℕ) (sh : Shell) → Typed cols rows b n total sh → Typed cols rows b n (suc total) sh
  idle-Typed n total sh t = record {
    cell = t.cell;
    up = t.up;
    on = t.on;
    x_barrier = t.x_barrier;
    y_barrier = t.y_barrier;
    counts = idle-Counts cols rows two_cols two_rows b b_col n total t.up t.cell t.counts;
  }

  pub char-Typed :
      (n total : ℕ) (sh : Shell) (key : KeyInfo)
      → Typed cols rows b n total sh
      → 32 ≤ key.ascii_character
      → key.ascii_character < 127
      → Typed cols rows b (suc n) (suc total) (shell_print_char putc sh key)
  unfolding shell_print_char put_cells
  char-Typed n total sh key t low high =
      let u = key.ascii_character in
      let not_zero : (u == 0) ≡ false = ground arith in
      let not_return : (u == 13) ≡ false = ground arith in
      let not_back : (u == 8) ≡ false = ground arith in
      let printed =
        print_string-On cols rows putc (u ∷ []) gfx_blue t.cell sh.screen grid renders
          (inr (inr (inr (low, high))), tt) t.on in
      rw (not_zero, not_return, not_back, last_cell t.cell sh.screen t.on)
        (record {
          cell = put_cell cols rows t.cell u;
          up = if t.cell.row == rows - 1 && (t.cell.col + 1) == cols then t.up + 1 else t.up;
          on = printed;
          x_barrier = t.x_barrier;
          y_barrier =
              barrier_moves (t.cell.row == rows - 1 && (t.cell.col + 1) == cols) sh.y_barrier
                sh.screen.gfx.glyph_height b.row t.up t.on.glyph_height t.y_barrier;
          counts =
              char-Counts cols rows two_cols two_rows b b_col n total t.up t.cell t.counts u low;
        })

  -- Where the code tests for the barrier.
  at_barrier :
      (c : Cell) (up n total : ℕ) (s : Screen) (x y : ℤ)
      → On cols rows c s
      → x ≡ pos (8 * b.col)
      → y ≡ sub_ℕ (16 * b.row) (16 * up)
      → Counts cols rows b n total c up
      → (int_of s.dst.x ==ℤ x && int_of s.dst.y ==ℤ y) ≡ (n == 0)
  at_barrier c up n total s x y on at_x at_y counts =
      let col = int_of_small s.dst.x (omega (arith, on.x, on.col_le, grid.cols_fit)) in
      let row = int_of_small s.dst.y (omega (arith, on.y, on.row_le, grid.rows_fit)) in
      let at_cell : (int_of s.dst.x ==ℤ x && int_of s.dst.y ==ℤ y)
          ≡ (c.col == b.col && (c.row + up) == b.row) =
        ap₂ ◌&&◌ (ap₂ ◌==ℤ◌ (col ∙ ap pos on.x) at_x ∙ same_col c.col b.col)
          (ap₂ ◌==ℤ◌ (row ∙ ap pos on.y) at_y ∙ same_row c.row up b.row) in
      at_cell ∙ ground (arith, barrier_iff cols rows two_cols two_rows b b_col n total up c counts)

  pub back-Typed :
      (n total : ℕ) (sh : Shell) (key : KeyInfo)
      → Typed cols rows b n total sh
      → key.ascii_character ≡ 8
      → suc total + cols ≤ rows * cols
      → Typed cols rows b (n - 1) (suc total) (shell_print_char putc sh key)
  unfolding shell_print_char put_cells
  back-Typed n total sh key t is_back room =
      let not_zero : (key.ascii_character == 0) ≡ false = ground (arith, is_back) in
      let not_return : (key.ascii_character == 13) ≡ false = ground (arith, is_back) in
      let back : (key.ascii_character == 8) ≡ true = ground (arith, is_back) in
      let test =
        at_barrier t.cell t.up n total sh.screen sh.x_barrier sh.y_barrier t.on t.x_barrier
          t.y_barrier t.counts in
      elim (ℕ_discrete n 0) [
        | yes nothing ↦
            let at : (n == 0) ≡ true = ground (arith, nothing) in
            let none_back : n - 1 ≡ n = omega (arith, nothing) in
            rw (not_zero, not_return, back, test, at, none_back) (idle-Typed n total sh t)
        | no behind ↦
            let off : (n == 0) ≡ false = ground (arith, behind) in
            let printed =
              print_string-On cols rows putc (8 ∷ []) gfx_blue t.cell sh.screen grid renders
                (inl refl, tt) t.on in
            rw (not_zero, not_return, back, test, off)
              (record {
                cell = put_cell cols rows t.cell 8;
                up = t.up;
                on = printed;
                x_barrier = t.x_barrier;
                y_barrier = t.y_barrier;
                counts =
                    back-Counts cols rows two_cols two_rows b b_col n total t.up t.cell t.counts
                      (omega (arith, behind)) room;
              })
      ]
