-- ===== src/Framebuffer/Cells/Text.antt =====
-- The pen after a text.
use native.Mathlib.Decide.{ℕ_discrete}
use knut_os.Base.{ℕ, ◌≤◌, ◌≡◌, ◌≢◌, inl, inr, arith, ◌==◌, List, [], ◌∷◌, true, false}
use knut_os.Base.All.{All}
use knut_os.Framebuffer.{Screen, place_pen, print_glyph, print_space, print_char, print_string}
use knut_os.Framebuffer.Cells.{
  Cell, settle, typed, typed_space, put_cell, put_cells, IsText, IsGrid, On, Renders,
}
use knut_os.Framebuffer.Cells.Moves.{settle_lt, place_pen-On, glyph-On, newline-On, backspace-On}

module _ (cols rows : ℕ) (grid : IsGrid cols rows) (putc : ℕ → Screen → Screen)
    (renders : Renders putc) (fg : ℕ) where
  print_glyph-On :
      (c : Cell) (s : Screen) (unicode : ℕ)
      → On cols rows (settle cols rows c) s
      → c.col ≤ cols
      → IsText unicode
      → unicode ≢ 9
      → On cols rows (typed cols (settle cols rows c) unicode) (print_glyph putc s unicode fg)
  unfolding print_glyph typed
  print_glyph-On c s unicode on col_le (inl back) not_tab =
      let lt = settle_lt cols rows c grid col_le in
      rw (back) (backspace-On cols rows grid putc renders (settle cols rows c) s on lt.0 lt.1)
  print_glyph-On c s unicode on col_le (inr (inl tab)) not_tab = absurd (not_tab tab)
  print_glyph-On c s unicode on col_le (inr (inr (inl newline))) not_tab =
      let lt = settle_lt cols rows c grid col_le in
      rw (newline) (newline-On cols rows grid putc renders (settle cols rows c) s fg on lt.1)
  print_glyph-On c s unicode on col_le (inr (inr (inr (low, high)))) not_tab =
      let lt = settle_lt cols rows c grid col_le in
      let not_back : (unicode == 0x08) ≡ false = ground arith in
      let not_newline : (unicode == 0x0A) ≡ false = ground arith in
      rw (not_back, not_newline)
        (glyph-On cols rows grid putc renders (settle cols rows c) s unicode fg on lt.0 lt.1 low
          high)

  print_space-On :
      (c : Cell) (s : Screen)
      → On cols rows c s
      → On cols rows (typed_space cols rows c) (print_space putc fg s)
  unfolding print_space typed_space
  print_space-On c s on =
      print_glyph-On c (place_pen s s.dst.x s.dst.y) 0x20 (place_pen-On cols rows c s grid on)
        on.col_le (inr (inr (inr (omega arith, omega arith)))) (omega arith)

  print_char-On :
      (c : Cell) (s : Screen) (unicode : ℕ)
      → On cols rows c s
      → IsText unicode
      → On cols rows (put_cell cols rows c unicode) (print_char putc unicode s.dst.x s.dst.y fg s)
  unfolding print_char put_cell
  print_char-On c s unicode on text =
      let placed = place_pen-On cols rows c s grid on in
      elim (ℕ_discrete unicode 9) [
        | yes tab ↦
            let is_tab : (unicode == 0x09) ≡ true = ground arith in
            rw is_tab (
              print_space-On _ _
                (print_space-On _ _ (print_space-On _ _ (print_space-On _ _ placed))))
        | no other ↦
            let not_tab : (unicode == 0x09) ≡ false = ground arith in
            rw not_tab (print_glyph-On c _ unicode placed on.col_le text other)
      ]

-- On a screen that is a grid of glyphs, whatever text is printed, of printable ASCII characters, tabs,
-- newlines and backspaces: the pen stays on the grid, at the cell where the text takes it, line by
-- line, with a new line behind the last column and the last row kept free by scrolling. A backspace
-- takes back one cell, across the start of a line too, and nothing at the top left.
pub print_string-On :
    (cols rows : ℕ) (putc : ℕ → Screen → Screen) (string : List ℕ) (fg : ℕ) (c : Cell) (s : Screen)
    → IsGrid cols rows
    → Renders putc
    → All IsText string
    → On cols rows c s
    → On cols rows (put_cells cols rows c string) (print_string putc string fg s)
unfolding print_string put_cells
print_string-On cols rows putc [] fg c s grid renders text on = on
print_string-On cols rows putc (unicode ∷ string) fg c s grid renders text on =
    print_string-On cols rows putc string fg (put_cell cols rows c unicode)
      (print_char putc unicode s.dst.x s.dst.y fg s) grid renders text.1
      (print_char-On cols rows grid putc renders fg c s unicode on text.0)
