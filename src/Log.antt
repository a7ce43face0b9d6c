-- ===== src/Log.antt =====
-- src/libs/libk/log/log.c, debug/debug.c and stdio/stdio.c: the messages of the kernel. `vsnprintf` of
-- the vendored printf is an argument, which gives the bytes before the zero byte; so is the decoding of
-- UTF-8 by the font renderer.
pub mod Laws
mod Tests
use knut_os.Base.{
  ℕ, ◌+◌, ltb, List, [], ◌∷◌, ◌++◌, length, Option, none, some, ◌>>=◌, ◌>>◌, require,
}
use knut_os.Pic.{Write}
use knut_os.Serial.{send_string, set_color}
use knut_os.Framebuffer.{Screen, print_string}

-- `STATUS`.
pub data Status : Type 0 where
  info : Status
  warning : Status
  error : Status

-- An argument of a format.
pub data Argument : Type 0 where
  string : List ℕ → Argument
  number : ℕ → Argument

-- The size of each of the buffers.
abbrev pub buffer_size : ℕ
buffer_size = 5120

-- The text in a buffer. `vsnprintf` is told that there is no limit, and overruns it where the text does
-- not fit with its zero byte.
pub in_buffer : List ℕ → Option (List ℕ)
in_buffer text = do require (ltb (length text) buffer_size); some text

-- The codes are `ESC [ 0 ; 3 n m`, and `ESC [ 0 m` for the reset.
abbrev pub term_color : ℕ → List ℕ
term_color n = 27 ∷ 91 ∷ 0x30 ∷ 0x3B ∷ 0x33 ∷ (0x30 + n) ∷ 0x6D ∷ []

abbrev pub term_color_reset : List ℕ
term_color_reset = 27 ∷ 91 ∷ 0x30 ∷ 0x6D ∷ []

-- Cyan, yellow and red.
abbrev pub color_of : Status → List ℕ
color_of info = term_color 6
color_of warning = term_color 3
color_of error = term_color 1

abbrev pub gfx_color_of : Status → ℕ
gfx_color_of info = 0xFF88C0D0
gfx_color_of warning = 0xFFEBCA8B
gfx_color_of error = 0xFFBF616A

-- "[INFO]    | ", "[WARNING] | " and "[ERROR]   | ".
abbrev pub prefix_of : Status → List ℕ
prefix_of info =
    0x5B ∷ 0x49 ∷ 0x4E ∷ 0x46 ∷ 0x4F ∷ 0x5D ∷ 0x20 ∷ 0x20 ∷ 0x20 ∷ 0x20 ∷ 0x7C ∷ 0x20 ∷ []
prefix_of warning =
    0x5B ∷ 0x57 ∷ 0x41 ∷ 0x52 ∷ 0x4E ∷ 0x49 ∷ 0x4E ∷ 0x47 ∷ 0x5D ∷ 0x20 ∷ 0x7C ∷ 0x20 ∷ []
prefix_of error =
    0x5B ∷ 0x45 ∷ 0x52 ∷ 0x52 ∷ 0x4F ∷ 0x52 ∷ 0x5D ∷ 0x20 ∷ 0x20 ∷ 0x20 ∷ 0x7C ∷ 0x20 ∷ []

-- "%s:%d ─→ %s", in UTF-8.
abbrev pub line_format : List ℕ
line_format =
    0x25 ∷ 0x73 ∷ 0x3A ∷ 0x25 ∷ 0x64 ∷ 0x20 ∷ 0xE2 ∷ 0x94 ∷ 0x80 ∷ 0xE2 ∷ 0x86 ∷ 0x92 ∷ 0x20 ∷ 0x25
    ∷ 0x73 ∷ []

module _ (vsnprintf : List ℕ → List Argument → List ℕ) where
  -- `polls` is what the port's status register reads.
  pub debug : List ℕ → List ℕ → List Argument → Option (List Write × List ℕ)
  unfolding in_buffer
  debug polls fmt arguments = do
    text ← in_buffer (vsnprintf fmt arguments)
    send_string polls (text ++ 0 ∷ [])

  pub printk :
      (ℕ → Screen → Screen)
      → (List ℕ → List ℕ)
      → Screen
      → ℕ
      → List ℕ
      → List Argument
      → Option Screen
  unfolding in_buffer
  printk putc utf8 s foreground_color fmt arguments = do
    text ← in_buffer (vsnprintf fmt arguments)
    some (print_string putc (utf8 text) foreground_color s)

  pub serial_log :
      List ℕ → List ℕ → ℕ → Status → List ℕ → List Argument → Option (List Write × List ℕ)
  unfolding debug
  serial_log polls description line_nr status fmt arguments = do
    log_buffer ← in_buffer (vsnprintf fmt arguments)
    (color, polls1) ← set_color polls (color_of status ++ 0 ∷ [])
    (prefix, polls2) ← debug polls1 (prefix_of status) []
    (line, polls3) ←
        debug polls2 line_format (string description ∷ number line_nr ∷ string log_buffer ∷ [])
    (reset, polls4) ← set_color polls3 (term_color_reset ++ 0 ∷ [])
    some (color ++ prefix ++ line ++ reset, polls4)

  pub kernel_log :
      (ℕ → Screen → Screen)
      → (List ℕ → List ℕ)
      → Screen
      → List ℕ
      → ℕ
      → Status
      → List ℕ
      → List Argument
      → Option Screen
  unfolding printk
  kernel_log putc utf8 s description line_nr status fmt arguments = do
    log_buffer ← in_buffer (vsnprintf fmt arguments)
    printk putc utf8 s (gfx_color_of status) (prefix_of status ++ line_format)
        (string description ∷ number line_nr ∷ string log_buffer ∷ [])
