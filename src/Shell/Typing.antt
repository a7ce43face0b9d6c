-- ===== src/Shell/Typing.antt =====
-- The barrier of the prompt while a line is typed.
use knut_os.Base.{
  ℕ, suc, ◌+◌, ◌-◌, ◌*◌, ◌≤◌, ◌<◌, ◌≡◌, ap, ◌∙◌, ◌⊎◌, inl, inr, arith, true, ◌==◌, if◌then◌else◌,
  List, [], ◌∷◌, length,
}
use knut_os.Base.Int.{pos}
use knut_os.Base.All.{All}
use knut_os.Framebuffer.{Screen}
use knut_os.Framebuffer.Cells.{Cell, IsGrid, On, Renders}
use knut_os.Keyboard.{KeyInfo}
use knut_os.Shell.{Shell, shell_prompt, shell_print_char}
use knut_os.Shell.Counts.{start-Counts}
use knut_os.Shell.Barrier.{Typed, int_of_small, unmoved, idle-Typed, char-Typed, back-Typed}

-- A key without a character, the backspace, or a printable character of ASCII.
abbrev pub IsKey : KeyInfo → Type 0
IsKey key =
    (key.ascii_character ≡ 0)
    ⊎ (key.ascii_character ≡ 8)
    ⊎ ((32 ≤ key.ascii_character) × (key.ascii_character < 127))

-- The calls that the keyboard makes.
abbrev pub type_keys : (ℕ → Screen → Screen) → Shell → List KeyInfo → Shell
type_keys putc sh [] = sh
type_keys putc sh (key ∷ keys) = type_keys putc (shell_print_char putc sh key) keys

-- The length of a line that is edited at its end, from length `n` on.
abbrev pub line_length : ℕ → List KeyInfo → ℕ
line_length n [] = n
line_length n (key ∷ keys) =
    line_length
      (if key.ascii_character == 0 then n else if key.ascii_character == 8 then n - 1 else suc n)
      keys

module _ (cols rows : ℕ) (grid : IsGrid cols rows) (two_cols : 2 ≤ cols) (two_rows : 2 ≤ rows)
    (putc : ℕ → Screen → Screen) (renders : Renders putc) (b : Cell) (b_col : b.col < cols) where
  key-Typed :
      (n total : ℕ) (sh : Shell) (key : KeyInfo)
      → Typed cols rows b n total sh
      → IsKey key
      → suc total + cols ≤ rows * cols
      → Typed cols rows b
          (if key.ascii_character == 0
            then n
            else if key.ascii_character == 8
            then n - 1
            else suc n)
          (suc total)
          (shell_print_char putc sh key)
  unfolding shell_print_char
  key-Typed n total sh key t (inl nothing) room =
      let is_zero : (key.ascii_character == 0) ≡ true = ground (arith, nothing) in
      rw is_zero (idle-Typed cols rows grid two_cols two_rows putc renders b b_col n total sh t)
  key-Typed n total sh key t (inr (inl is_back)) room =
      let e : (if key.ascii_character == 0
            then n
            else if key.ascii_character == 8
            then n - 1
            else suc n)
          ≡ n - 1 =
        ground (arith, is_back) in
      rw e (
        back-Typed cols rows grid two_cols two_rows putc renders b b_col n total sh key t is_back
          room)
  key-Typed n total sh key t (inr (inr (low, high))) room =
      let e : (if key.ascii_character == 0
            then n
            else if key.ascii_character == 8
            then n - 1
            else suc n)
          ≡ suc n =
        ground (arith, low) in
      rw e
        (char-Typed cols rows grid two_cols two_rows putc renders b b_col n total sh key t low high)

  keys-Typed :
      (keys : List KeyInfo) (n total stop : ℕ) (sh : Shell)
      → Typed cols rows b n total sh
      → All IsKey keys
      → total + length keys ≡ stop
      → stop + cols ≤ rows * cols
      → Typed cols rows b (line_length n keys) stop (type_keys putc sh keys)
  keys-Typed [] n total stop sh t all e room =
      let e' : total ≡ stop = omega (arith, e) in rw (← e') t
  keys-Typed (key ∷ keys) n total stop sh t all e room =
      keys-Typed keys _ (suc total) stop (shell_print_char putc sh key)
        (key-Typed n total sh key t all.0 (omega (arith, e, room))) all.1 (omega (arith, e)) room

-- After the prompt, which ends at the cell `b`, with at most as many keys as all rows but one have
-- cells, printable or backspace or without a character: the pen is as many cells behind the barrier as the
-- edited line has characters, however the lines wrapped and the screen was scrolled. So no backspace
-- goes behind the barrier, and none before it is lost.
pub type_keys-Typed :
    (cols rows : ℕ) (putc : ℕ → Screen → Screen) (sh : Shell) (b : Cell) (keys : List KeyInfo)
    → IsGrid cols rows
    → 2 ≤ cols
    → 2 ≤ rows
    → Renders putc
    → On cols rows b (shell_prompt putc sh).screen
    → b.col < cols
    → b.row < rows
    → All IsKey keys
    → length keys + cols ≤ rows * cols
    → Typed cols rows b
        (line_length 0 keys)
        (length keys)
        (type_keys putc (shell_prompt putc sh) keys)
unfolding shell_prompt
type_keys-Typed cols rows putc sh b keys grid two_cols two_rows renders on b_col b_row all room =
    keys-Typed cols rows grid two_cols two_rows putc renders b b_col keys 0 0 (length keys)
      (shell_prompt putc sh)
      (record {
        cell = b;
        up = 0;
        on = on;
        x_barrier = int_of_small _ (omega (arith, on.x, on.col_le, grid.cols_fit)) ∙ ap pos on.x;
        y_barrier =
            int_of_small _ (omega (arith, on.y, on.row_le, grid.rows_fit))
            ∙ ap pos on.y
            ∙ unmoved b.row;
        counts = start-Counts cols rows b b_col b_row;
      })
      all (omega arith) room
