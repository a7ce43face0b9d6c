-- ===== src/Framebuffer/Samples.antt =====
-- A screen of eight columns and three rows of glyphs, and a renderer that only moves the pen.
use knut_os.Base.{ℕ, ◌+◌, ◌≤◌, ◌≡◌, refl, arith, ◌==◌, if◌then◌else◌}
use knut_os.Base.Words.{u16}
use knut_os.Framebuffer.{Screen, gfx_black}
use knut_os.Framebuffer.Pixels.{HasRoom}
use knut_os.Framebuffer.Cells.{Cell, IsGrid, On, Renders}

abbrev pub mover : ℕ → Screen → Screen
mover c s =
    if c == 10
    then record s { dst = record s.dst { x = 0; y = u16 (s.dst.y + 16) } }
    else record s { dst = record s.dst { x = u16 (s.dst.x + 8) } }

-- The pixels hold their own index, and the pitch is wider than a line by two pixels.
abbrev pub small : Screen
small = record {
  gfx = record {
    fb_addr = 0xFD000000;
    fb_width = 64;
    fb_height = 48;
    fb_pitch = 264;
    fb_bpp = 32;
    glyph_width = 8;
    glyph_height = 16;
  };
  dst = record {
    ptr = 0xFD000000;
    w = 64;
    h = 48;
    p = 264;
    x = 40;
    y = 32;
    fg = 0;
    bg = gfx_black;
  };
  fb = λ index. index;
}

abbrev pub pen : Cell
pen = record { row = 2; col = 5 }

pub small-HasRoom : HasRoom small.gfx
small-HasRoom = record { wide = omega arith; tall = omega arith; pitched = omega arith }

pub small-IsGrid : IsGrid 8 3
small-IsGrid = record {
  some_cols = omega arith;
  some_rows = omega arith;
  cols_fit = omega arith;
  rows_fit = omega arith;
}

pub small-On : On 8 3 pen small
small-On = record {
  glyph_width = refl;
  glyph_height = refl;
  width = refl;
  height = refl;
  w = refl;
  h = refl;
  x = refl;
  y = refl;
  col_le = omega arith;
  row_le = omega arith;
}

mover-same_gfx : (c : ℕ) (s : Screen) → (mover c s).gfx ≡ s.gfx
mover-same_gfx c s = ground arith

mover-glyph :
    (c : ℕ) (s : Screen) → 32 ≤ c → (mover c s).dst ≡ record s.dst { x = u16 (s.dst.x + 8) }
mover-glyph c s low = ground (arith, low)

pub mover-Renders : Renders mover
mover-Renders = record {
  same_gfx = mover-same_gfx;
  newline = λ s. refl;
  glyph = λ c s low high wide tall. mover-glyph c s low;
}
