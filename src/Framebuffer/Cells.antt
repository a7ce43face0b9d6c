-- ===== src/Framebuffer/Cells.antt =====
-- The console as a grid of cells: what a text does to the pen.
pub mod Moves
pub mod Text
use knut_os.Base.{
  ℕ, ◌+◌, ◌-◌, ◌*◌, ◌^◌, ◌≤◌, ◌<◌, ◌≡◌, ◌⊎◌, ◌==◌, leb, if◌then◌else◌, List, [], ◌∷◌,
}
use knut_os.Base.Words.{u16}
use knut_os.Framebuffer.{Screen}

-- The pen is left of column `col`, 0 being the first, in row `row`. Behind the last column it is
-- `cols`, and below the last row `rows`.
pub record Cell : Type 0 where
  pub row : ℕ
  pub col : ℕ

-- The place of the next glyph.
unfoldable pub settle : ℕ → ℕ → Cell → Cell
settle cols rows c =
    let d = if c.col == cols then record { row = c.row + 1; col = 0 } else c in
    if leb rows d.row then record { row = rows - 1; col = 0 } else d

-- What a character other than a tab does to a pen that is settled.
unfoldable pub typed : ℕ → Cell → ℕ → Cell
typed cols c unicode =
    if unicode == 0x08
    then (if c.col == 0
        then (if c.row == 0 then c else record { row = c.row - 1; col = cols - 1 })
        else record c { col = c.col - 1 })
    else if unicode == 0x0A
    then record { row = c.row + 1; col = 0 }
    else record c { col = c.col + 1 }

unfoldable pub typed_space : ℕ → ℕ → Cell → Cell
unfolding settle typed
typed_space cols rows c = typed cols (settle cols rows c) 0x20

unfoldable pub put_cell : ℕ → ℕ → Cell → ℕ → Cell
unfolding settle typed typed_space
put_cell cols rows c unicode =
    let d = settle cols rows c in
    if unicode == 0x09
    then typed_space cols rows
        (typed_space cols rows (typed_space cols rows (typed_space cols rows d)))
    else typed cols d unicode

unfoldable pub put_cells : ℕ → ℕ → Cell → List ℕ → Cell
unfolding put_cell
put_cells cols rows c [] = c
put_cells cols rows c (unicode ∷ string) = put_cells cols rows (put_cell cols rows c unicode) string

-- Backspace, tab, newline and the printable characters of ASCII.
abbrev pub IsText : ℕ → Type 0
IsText c = (c ≡ 8) ⊎ (c ≡ 9) ⊎ (c ≡ 10) ⊎ ((32 ≤ c) × (c < 127))

-- The grid fits in coordinates of 15 bits.
pub record IsGrid (cols rows : ℕ) : Type 0 where
  pub some_cols : 0 < cols
  pub some_rows : 0 < rows
  pub cols_fit : 8 * cols < 2 ^ 14
  pub rows_fit : 16 * rows < 2 ^ 14

-- The screen is a grid of glyphs of 8 by 16 pixels, with the pen at the cell.
pub record On (cols rows : ℕ) (c : Cell) (s : Screen) : Type 0 where
  pub glyph_width : s.gfx.glyph_width ≡ 8
  pub glyph_height : s.gfx.glyph_height ≡ 16
  pub width : s.gfx.fb_width ≡ 8 * cols
  pub height : s.gfx.fb_height ≡ 16 * rows
  pub w : s.dst.w ≡ 8 * cols
  pub h : s.dst.h ≡ 16 * rows
  pub x : s.dst.x ≡ 8 * c.col
  pub y : s.dst.y ≡ 16 * c.row
  pub col_le : c.col ≤ cols
  pub row_le : c.row ≤ rows

-- What the renderer documents of `ssfn_putc`, with a font whose glyphs are 16 pixels high, and 8 wide
-- for the printable characters of ASCII: a newline puts the pen at the start of the next row, and a
-- glyph that fits in the target moves it by the glyph's width. The other globals are not its own.
pub record Renders (putc : ℕ → Screen → Screen) : Type 0 where
  pub same_gfx : (c : ℕ) (s : Screen) → (putc c s).gfx ≡ s.gfx
  pub newline : (s : Screen) → (putc 10 s).dst ≡ record s.dst { x = 0; y = u16 (s.dst.y + 16) }
  pub glyph :
      (c : ℕ) (s : Screen)
      → 32 ≤ c
      → c < 127
      → s.dst.x + 8 ≤ s.dst.w
      → s.dst.y + 16 ≤ s.dst.h
      → (putc c s).dst ≡ record s.dst { x = u16 (s.dst.x + 8) }
