-- ===== src/Shell/Tests.antt =====
-- The shell on a screen of eight columns and three rows.
use knut_os.Base.{ℕ, ◌≡◌, refl, arith, List, [], ◌∷◌}
use knut_os.Base.Int.{pos, ◌-ℤ◌}
use knut_os.Framebuffer.{print_string}
use knut_os.Framebuffer.Cells.{Cell, On}
use knut_os.Framebuffer.Samples.{mover, small, small-IsGrid, mover-Renders}
use knut_os.Keyboard.{KeyInfo}
use knut_os.Shell.{Shell, shell_prompt, shell_print_char}
use knut_os.Shell.Barrier.{Typed}
use knut_os.Shell.Typing.{type_keys, type_keys-Typed}

abbrev key : ℕ → KeyInfo
key c = record { keycode = c; ascii_character = c }

abbrev shell : Shell
shell = record { screen = small; x_barrier = pos 0; y_barrier = pos 0 }

-- The prompt fills the last row up to its third cell.
abbrev behind_prompt : Cell
behind_prompt = record { row = 2; col = 3 }

-- "abcdefg", which goes into a new row, two backspaces, and a key without a character.
abbrev keys : List KeyInfo
keys = key 97 ∷ key 98 ∷ key 99 ∷ key 100 ∷ key 101 ∷ key 102 ∷ key 103 ∷ key 8 ∷ key 8 ∷ key 0 ∷ []

prompt-On : On 8 3 behind_prompt (shell_prompt mover shell).screen
unfolding shell_prompt print_string
prompt-On = record {
  glyph_width = refl;
  glyph_height = refl;
  width = refl;
  height = refl;
  w = refl;
  h = refl;
  x = refl;
  y = refl;
  col_le = omega arith;
  row_le = omega arith;
}

type_keys-Typed_example :
    Typed 8 3 behind_prompt 5 10 (type_keys mover (shell_prompt mover shell) keys)
type_keys-Typed_example =
    type_keys-Typed 8 3 mover shell behind_prompt keys small-IsGrid (omega arith) (omega arith)
      mover-Renders prompt-On (omega arith) (omega arith) (omega arith) (omega arith)

-- The barrier went up with the text by one row.
barrier_moved : (type_keys mover (shell_prompt mover shell) keys).y_barrier ≡ pos 16
unfolding shell_print_char shell_prompt print_string ◌-ℤ◌
barrier_moved = refl
