-- ===== src/Framebuffer/Tests.antt =====
-- Runs of the console on the small screen.
use knut_os.Base.{ℕ, ◌≡◌, refl, arith, List, [], ◌∷◌, none}
use knut_os.Framebuffer.{gfx_blue, gfx_black, move_one_row_up, print_string, init}
use knut_os.Framebuffer.Pixels.{at}
use knut_os.Framebuffer.Scroll.{move_one_row_up-at}
use knut_os.Framebuffer.Cells.{On, put_cells}
use knut_os.Framebuffer.Cells.Text.{print_string-On}
use knut_os.Framebuffer.Samples.{
  mover, small, pen, small-HasRoom, small-IsGrid, small-On, mover-Renders,
}

-- "ab", a newline, "c", a backspace and a tab.
abbrev text : List ℕ
text = 97 ∷ 98 ∷ 10 ∷ 99 ∷ 8 ∷ 9 ∷ []

text_pen : (print_string mover text gfx_blue small).dst.x ≡ 32
unfolding print_string
text_pen = refl

-- The newline led below the last row, so "c" made the screen scroll.
text_rows : (print_string mover text gfx_blue small).dst.y ≡ 32
unfolding print_string
text_rows = refl

no_tag : init small 0 none gfx_black ≡ none
unfolding init
no_tag = refl

-- The pixel at column 3 of line 20 comes from line 36, with index 36 * 66 + 3.
move_one_row_up-at_example :
    ((move_one_row_up small).dst ≡ small.dst)
    × ((move_one_row_up small).gfx ≡ small.gfx)
    × (at small.gfx (move_one_row_up small).fb 3 20 ≡ 2379)
move_one_row_up-at_example =
    move_one_row_up-at small 3 20 small-HasRoom (omega arith) (omega arith) (omega arith)

print_string-On_example : On 8 3 (put_cells 8 3 pen text) (print_string mover text gfx_blue small)
print_string-On_example =
    print_string-On 8 3 mover text gfx_blue pen small small-IsGrid mover-Renders (omega arith)
      small-On
