-- ===== src/Framebuffer.antt =====
-- src/kernel/devices/framebuffer/framebuffer.c and framebuffer.h: pixels and the text console. The
-- glyphs are drawn by `ssfn_putc` of the vendored renderer, an argument here. A string is the list of
-- code points that `ssfn_utf8` reads off it.
pub mod Pixels
pub mod Scroll
pub mod Cells
pub mod Line
pub mod Circle
pub mod Samples
mod Tests
use knut_os.Base.{
  ℕ, zero, suc, ◌+◌, ◌-◌, ◌/◌, ◌%◌, ◌^◌, ◌==◌, ltb, leb, if◌then◌else◌, List, [], ◌∷◌, Option, none,
  some, ◌>>=◌,
}
use knut_os.Base.Words.{u16, add64, mul64, sub64}

abbrev pub gfx_black : ℕ
gfx_black = 0xFF3B4252

abbrev pub gfx_blue : ℕ
gfx_blue = 0xFF81A1C1

abbrev pub gfx_purple : ℕ
gfx_purple = 0xFFB48EAD

-- `struct GFX_Struct`.
pub record Gfx : Type 0 where
  pub fb_addr : ℕ
  pub fb_width : ℕ
  pub fb_height : ℕ
  pub fb_pitch : ℕ
  pub fb_bpp : ℕ
  pub glyph_width : ℕ
  pub glyph_height : ℕ

-- `ssfn_dst`. The pen's `x` and `y` are of type `int16_t`, kept as patterns of 16 bits.
pub record Dst : Type 0 where
  pub ptr : ℕ
  pub w : ℕ
  pub h : ℕ
  pub p : ℕ
  pub x : ℕ
  pub y : ℕ
  pub fg : ℕ
  pub bg : ℕ

-- The globals, and the 32-bit words from `fb_addr` on by their index.
pub record Screen : Type 0 where
  pub gfx : Gfx
  pub dst : Dst
  pub fb : ℕ → ℕ

-- The tag of the boot loader.
pub record FramebufferTag : Type 0 where
  pub framebuffer_addr : ℕ
  pub framebuffer_width : ℕ
  pub framebuffer_height : ℕ
  pub framebuffer_pitch : ℕ
  pub framebuffer_bpp : ℕ

-- The integer behind a pattern of 16 bits, plus `2 ^ 15`: comparisons of `int16_t` values are those
-- of these numbers.
abbrev pub biased : ℕ → ℕ
biased x = (x + 2 ^ 15) % 2 ^ 16

abbrev pub move_to : Screen → ℕ → ℕ → Screen
move_to s x y = record s { dst = record s.dst { x = u16 x; y = u16 y } }

abbrev pub write : (ℕ → ℕ) → ℕ → ℕ → ℕ → ℕ
write fb index color other = if other == index then color else fb other

-- The index of a pixel. Negative coordinates are their patterns of 64 bits.
abbrev pub fb_index : Gfx → ℕ → ℕ → ℕ
fb_index g x y = add64 (mul64 y (g.fb_pitch / 4)) x

unfoldable pub draw_pixel : Gfx → (ℕ → ℕ) → ℕ → ℕ → ℕ → ℕ → ℕ
draw_pixel g fb x y color = write fb (fb_index g x y) color

-- The loops of `framebuffer_set_background_color`, with `left` rounds to go.
pub fill_row : Gfx → ℕ → ℕ → ℕ → ℕ → (ℕ → ℕ) → ℕ → ℕ
unfolding draw_pixel
fill_row g color y zero x fb = fb
fill_row g color y (suc left) x fb = fill_row g color y left (x + 1) (draw_pixel g fb x y color)

pub fill_rows : Gfx → ℕ → ℕ → ℕ → (ℕ → ℕ) → ℕ → ℕ
unfolding fill_row
fill_rows g color zero y fb = fb
fill_rows g color (suc left) y fb =
    fill_rows g color left (y + 1) (fill_row g color y g.fb_width 0 fb)

pub set_background_color : Screen → ℕ → Screen
unfolding fill_rows
set_background_color s color = record s {
  dst = record s.dst { bg = color };
  fb = fill_rows s.gfx color s.gfx.fb_height 0 s.fb;
}

unfoldable pub reset_screen : Screen → Screen
unfolding set_background_color
reset_screen s = set_background_color (move_to s 0 0) s.dst.bg

-- `font` is the address of the font. `none` is a read through NULL, where there is no tag.
pub init : Screen → ℕ → Option FramebufferTag → ℕ → Option Screen
unfolding set_background_color
init s font none background_color = none
init s font (some t) background_color = some (
    set_background_color
      (record s {
        gfx = record {
          fb_addr = t.framebuffer_addr;
          fb_width = t.framebuffer_width;
          fb_height = t.framebuffer_height;
          fb_pitch = t.framebuffer_pitch;
          fb_bpp = t.framebuffer_bpp;
          glyph_width = 8;
          glyph_height = 16;
        };
        dst = record s.dst {
          ptr = t.framebuffer_addr;
          w = t.framebuffer_width;
          h = t.framebuffer_height;
          p = t.framebuffer_pitch;
          x = 0;
          y = 0;
        };
      })
      background_color)

-- The body of the loops of `framebuffer_move_one_row_up`.
abbrev pub move_pixel : Gfx → ℕ → (ℕ → ℕ) → ℕ → ℕ → ℕ → ℕ
move_pixel g bg fb column row =
    let current_index = fb_index g row column in
    let new_index = fb_index g row (column - g.glyph_height) in
    write (write fb current_index bg) new_index (fb current_index)

pub move_row : Gfx → ℕ → ℕ → ℕ → ℕ → (ℕ → ℕ) → ℕ → ℕ
move_row g bg column zero row fb = fb
move_row g bg column (suc left) row fb =
    move_row g bg column left (row + 1) (move_pixel g bg fb column row)

pub move_rows : Gfx → ℕ → ℕ → ℕ → (ℕ → ℕ) → ℕ → ℕ
unfolding move_row
move_rows g bg zero column fb = fb
move_rows g bg (suc left) column fb =
    move_rows g bg left (column + 1) (move_row g bg column g.fb_width 0 fb)

pub move_one_row_up : Screen → Screen
unfolding move_rows
move_one_row_up s = record s {
  fb = move_rows s.gfx s.dst.bg (s.gfx.fb_height - s.gfx.glyph_height) s.gfx.glyph_height s.fb;
}

-- The pen is set, put on a new line at the end of one, and kept above the end of the screen.
abbrev pub wrap_line : Screen → Screen
wrap_line s =
    if ltb (s.gfx.fb_width + 2 ^ 15) (biased s.dst.x + s.gfx.glyph_width)
    then move_to s 0 (s.dst.y + s.gfx.glyph_height)
    else s

pub keep_above : Screen → Screen
unfolding move_one_row_up
keep_above s =
    if leb (s.gfx.fb_height + 2 ^ 15) (biased s.dst.y)
    then move_one_row_up (move_to s 0 (s.gfx.fb_height + 2 ^ 16 - s.gfx.glyph_height))
    else s

pub place_pen : Screen → ℕ → ℕ → Screen
unfolding keep_above
place_pen s x y = keep_above (wrap_line (move_to s x y))

abbrev left_of : Screen → Screen
left_of s = move_to s (s.dst.x + 2 ^ 16 - s.gfx.glyph_width) s.dst.y

module _ (putc : ℕ → Screen → Screen) where
  -- The last glyph is overwritten by a space, and the pen put on it.
  pub backspace : Screen → Screen
  backspace s =
      if s.dst.x == 0
      then (if s.dst.y == 0
          then s
          else left_of (
              putc 0x20 (
                move_to s (s.gfx.fb_width + 2 ^ 16 - s.gfx.glyph_width)
                  (s.dst.y + 2 ^ 16 - s.gfx.glyph_height))))
      else left_of (putc 0x20 (left_of s))

  -- What follows the test for a tab.
  pub print_glyph : Screen → ℕ → ℕ → Screen
  unfolding backspace
  print_glyph s unicode foreground_color =
      if unicode == 0x08
      then backspace s
      else putc unicode (record s { dst = record s.dst { fg = foreground_color } })

  -- `framebuffer_print_string(" ", foreground_color)`, which prints one character.
  pub print_space : ℕ → Screen → Screen
  unfolding place_pen print_glyph
  print_space foreground_color s = print_glyph (place_pen s s.dst.x s.dst.y) 0x20 foreground_color

  pub print_char : ℕ → ℕ → ℕ → ℕ → Screen → Screen
  unfolding place_pen print_glyph print_space
  print_char unicode x y foreground_color s =
      let placed = place_pen s x y in
      if unicode == 0x09
      then print_space foreground_color (
          print_space foreground_color
            (print_space foreground_color (print_space foreground_color placed)))
      else print_glyph placed unicode foreground_color

  unfoldable pub print_string : List ℕ → ℕ → Screen → Screen
  unfolding print_char
  print_string [] foreground_color s = s
  print_string (c ∷ string) foreground_color s =
      print_string string foreground_color (print_char c s.dst.x s.dst.y foreground_color s)
