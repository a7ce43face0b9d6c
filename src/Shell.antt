-- ===== src/Shell.antt =====
-- src/kernel/shell/shell_screen.c: the prompt, and what the shell does with the keys of the keyboard.
-- `ssfn_putc` is an argument, as it is for the console.
pub mod Counts
pub mod Barrier
pub mod Typing
mod Tests
use knut_os.Base.{ℕ, ◌+◌, ◌-◌, ◌^◌, ◌==◌, ltb, if◌then◌else◌, ◌&&◌, List, [], ◌∷◌}
use knut_os.Base.Int.{ℤ, pos, negsuc, sub_ℕ, ◌+ℤ◌, ◌-ℤ◌, ◌==ℤ◌}
use knut_os.Framebuffer.{Screen, gfx_blue, gfx_purple, biased, print_string, reset_screen}
use knut_os.Keyboard.{Keyboard, KeyInfo, activate_keyboard_processing}
use knut_os.Keyboard.Keys.{key_return, key_backspace}

-- The two barriers are of type `int`.
pub record Shell : Type 0 where
  pub screen : Screen
  pub x_barrier : ℤ
  pub y_barrier : ℤ

-- An `int16_t` as an `int`, from its pattern.
abbrev pub int_of : ℕ → ℤ
int_of x = sub_ℕ (biased x) (2 ^ 15)

-- The two lines of the prompt: \n, box characters, " KnutOS", \n, and an arrow with a space.
abbrev pub prompt_head : List ℕ
prompt_head = 10 ∷ 0x250C ∷ 0x2500 ∷ 0x20 ∷ 0x4B ∷ 0x6E ∷ 0x75 ∷ 0x74 ∷ 0x4F ∷ 0x53 ∷ 10 ∷ []

abbrev pub prompt_tail : List ℕ
prompt_tail = 0x2514 ∷ 0x2192 ∷ 0x20 ∷ []

module _ (putc : ℕ → Screen → Screen) where
  pub shell_prompt : Shell → Shell
  shell_prompt sh =
      let s =
        print_string putc prompt_tail gfx_purple
          (print_string putc prompt_head gfx_purple sh.screen) in
      record { screen = s; x_barrier = int_of s.dst.x; y_barrier = int_of s.dst.y }

  abbrev print : Shell → ℕ → Shell
  print sh character = record sh { screen = print_string putc (character ∷ []) gfx_blue sh.screen }

  -- The tests on the pen compare values of type `int`.
  pub shell_print_char : Shell → KeyInfo → Shell
  unfolding shell_prompt
  shell_print_char sh key_info =
      let s = sh.screen in
      let in_last_row = (biased s.dst.y + s.gfx.glyph_height) == (s.gfx.fb_height + 2 ^ 15) in
      let in_last_col = (biased s.dst.x + s.gfx.glyph_width) == (s.gfx.fb_width + 2 ^ 15) in
      if key_info.ascii_character == 0
      then sh
      else if key_info.ascii_character == key_return
      then shell_prompt (
          print
            (record sh {
              y_barrier =
                  if in_last_row then sh.y_barrier +ℤ pos s.gfx.glyph_height else sh.y_barrier;
            })
            10)
      else if key_info.ascii_character == key_backspace
      then (if int_of s.dst.x ==ℤ sh.x_barrier && int_of s.dst.y ==ℤ sh.y_barrier
          then sh
          else print sh 8)
      else print
          (record sh {
            y_barrier =
                if in_last_row && in_last_col
                then sh.y_barrier -ℤ pos s.gfx.glyph_height
                else sh.y_barrier;
          })
          key_info.ascii_character

  -- The keyboard then calls `shell_print_char`.
  pub shell_screen_init : Shell → Keyboard → Shell × Keyboard
  unfolding shell_prompt
  shell_screen_init sh k =
      (shell_prompt (record sh { screen = reset_screen sh.screen }), activate_keyboard_processing k)
