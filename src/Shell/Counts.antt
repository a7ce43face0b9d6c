-- ===== src/Shell/Counts.antt =====
-- Counting the cells between the prompt and the pen, while the screen scrolls.
use native.Mathlib.Decide.{ℕ_discrete}
use native.Mathlib.Nat.{add-mul, zero-mul}
use knut_os.Base.{
  ℕ, suc, ◌+◌, ◌-◌, ◌*◌, ◌≤◌, ◌<◌, ◌≡◌, ◌≢◌, refl, ap, sym, ◌∙◌, false, Bool-cases, ◌⊎◌, ◌↔◌, inl,
  inr, arith, ◌==◌, if◌then◌else◌, ◌&&◌,
}
use knut_os.Framebuffer.Cells.{Cell, settle, typed, put_cell}

-- The pen stands behind the last cell of the screen: the next character scrolls.
abbrev pub pending : ℕ → ℕ → Cell → ℕ
pending cols rows c = if c.row == rows - 1 && c.col == cols then cols else 0

-- `n` cells lie between the cell `b`, where the prompt ended, and the pen at `c`. Since then the screen
-- was scrolled, or is about to be, `up` times, and `total` keys were pressed.
pub record Counts (cols rows : ℕ) (b : Cell) (n total : ℕ) (c : Cell) (up : ℕ) : Type 0 where
  pub row_lt : c.row < rows
  pub col_le : c.col ≤ cols
  pub count : c.row * cols + up * cols + c.col ≡ b.row * cols + b.col + n + pending cols rows c
  pub at_end : c.col ≡ cols → 1 ≤ n
  pub n_le : n ≤ total
  pub scrolled : (up ≡ 0) ⊎ (rows * cols + up * cols ≤ b.row * cols + b.col + total + cols)

suc_mul : (k m : ℕ) → (k + 1) * m ≡ k * m + m
suc_mul k m = grind arith

lower_row : (m q r q' r' : ℕ) → r < m → q < q' → q * m + r < q' * m + r'
lower_row m q r q' r' hr h = grind arith

-- A place is given by its row and column.
place_inj : (m q r q' r' : ℕ) → r < m → r' < m → q * m + r ≡ q' * m + r' → (r ≡ r') × (q ≡ q')
place_inj m q r q' r' hr hr' e = ground (arith, lower_row m q r q' r', lower_row m q' r' q r)

-- The next character at a pen that is behind the end of a line, of the last one, or before an end.
put-next :
    (cols rows : ℕ) (c : Cell) (u : ℕ)
    → 32 ≤ u
    → c.col ≡ cols
    → c.row + 1 < rows
    → put_cell cols rows c u ≡ record { row = c.row + 1; col = 1 }
unfolding put_cell settle typed
put-next cols rows c u low end below = ground arith

put-scroll :
    (cols rows : ℕ) (c : Cell) (u : ℕ)
    → 32 ≤ u
    → c.col ≡ cols
    → c.row + 1 ≡ rows
    → put_cell cols rows c u ≡ record { row = rows - 1; col = 1 }
unfolding put_cell settle typed
put-scroll cols rows c u low end last = ground arith

put-inside :
    (cols rows : ℕ) (c : Cell) (u : ℕ)
    → 32 ≤ u
    → c.col ≢ cols
    → c.row < rows
    → put_cell cols rows c u ≡ record c { col = c.col + 1 }
unfolding put_cell settle typed
put-inside cols rows c u low inside row_lt = ground (arith, inside)

-- A backspace where the pen is behind the end of a line, of the last one, or before an end.
back-end :
    (cols rows : ℕ) (c : Cell)
    → c.col ≡ cols
    → c.row + 1 < rows
    → put_cell cols rows c 8 ≡ record { row = c.row; col = cols - 1 }
unfolding put_cell settle typed
back-end cols rows c end below = ground arith

back-scroll :
    (cols rows : ℕ) (c : Cell)
    → c.col ≡ cols
    → c.row + 1 ≡ rows
    → 2 ≤ rows
    → put_cell cols rows c 8 ≡ record { row = rows - 2; col = cols - 1 }
unfolding put_cell settle typed
back-scroll cols rows c end last two_rows = ground arith

back-inside :
    (cols rows : ℕ) (c : Cell)
    → c.col ≢ cols
    → c.row < rows
    → put_cell cols rows c 8 ≡ (
        if c.col == 0
        then (if c.row == 0 then c else record { row = c.row - 1; col = cols - 1 })
        else record c { col = c.col - 1 })
unfolding put_cell settle typed
back-inside cols rows c inside row_lt = ground (arith, inside)

-- Behind the prompt.
pub start-Counts :
    (cols rows : ℕ) (b : Cell) → b.col < cols → b.row < rows → Counts cols rows b 0 0 b 0
start-Counts cols rows b b_col b_row = record {
  row_lt = b_row;
  col_le = omega arith;
  count = ground (arith, b_col, zero-mul cols);
  at_end = λ e. absurd (omega arith);
  n_le = omega arith;
  scrolled = inl refl;
}

module _ (cols rows : ℕ) (two_cols : 2 ≤ cols) (two_rows : 2 ≤ rows) (b : Cell)
    (b_col : b.col < cols) (n total up : ℕ) (c : Cell) (k : Counts cols rows b n total c up) where
  rows_mul : rows * cols ≡ (rows - 1) * cols + cols
  rows_mul =
      let e : rows ≡ (rows - 1) + 1 = omega arith in ap (λ r. r * cols) e ∙ suc_mul (rows - 1) cols

  -- A key that types nothing.
  pub idle-Counts : Counts cols rows b n (suc total) c up
  idle-Counts = record {
    row_lt = k.row_lt;
    col_le = k.col_le;
    count = k.count;
    at_end = k.at_end;
    n_le = omega (arith, k.n_le);
    scrolled = elim k.scrolled [ inl z ↦ inl z | inr z ↦ inr (omega (arith, z)) ];
  }

  pub char-Counts :
      (u : ℕ)
      → 32 ≤ u
      → Counts cols rows b
          (suc n)
          (suc total)
          (put_cell cols rows c u)
          (if c.row == rows - 1 && (c.col + 1) == cols then up + 1 else up)
  char-Counts u low = elim (ℕ_discrete c.col cols) [
    | yes end ↦
        let stays : (c.row == rows - 1 && (c.col + 1) == cols) ≡ false = ground arith in
        elim (ℕ_discrete (c.row + 1) rows) [
          | yes last ↦
              rw (put-scroll cols rows c u low end last, stays)
                (record {
                  row_lt = omega arith;
                  col_le = omega arith;
                  count = ground (arith, k.count, end, last);
                  at_end = λ e. omega arith;
                  n_le = omega (arith, k.n_le);
                  scrolled = elim k.scrolled [ inl z ↦ inl z | inr z ↦ inr (omega (arith, z)) ];
                })
          | no before ↦
              rw (put-next cols rows c u low end (omega (arith, k.row_lt, before)), stays)
                (record {
                  row_lt = omega (arith, k.row_lt, before);
                  col_le = omega arith;
                  count = ground (arith, k.count, end, before, suc_mul c.row cols);
                  at_end = λ e. omega arith;
                  n_le = omega (arith, k.n_le);
                  scrolled = elim k.scrolled [ inl z ↦ inl z | inr z ↦ inr (omega (arith, z)) ];
                })
        ]
    | no inside ↦ elim (Bool-cases (c.row == rows - 1 && (c.col + 1) == cols)) [
      | inl ends ↦
          rw (put-inside cols rows c u low inside k.row_lt, ends)
            (record {
              row_lt = k.row_lt;
              col_le = omega (arith, k.col_le, inside);
              count = ground (arith, k.count, inside, ends, suc_mul up cols);
              at_end = λ e. omega arith;
              n_le = omega (arith, k.n_le);
              scrolled =
                  inr (ground (arith, rows_mul, k.count, k.n_le, ends, suc_mul up cols, inside));
            })
      | inr stays ↦
          rw (put-inside cols rows c u low inside k.row_lt, stays)
            (record {
              row_lt = k.row_lt;
              col_le = omega (arith, k.col_le, inside);
              count = ground (arith, k.count, inside, stays);
              at_end = λ e. omega arith;
              n_le = omega (arith, k.n_le);
              scrolled = elim k.scrolled [ inl z ↦ inl z | inr z ↦ inr (omega (arith, z)) ];
            })
    ]
  ]

  -- Exactly where nothing was typed the pen is at the barrier.
  pub barrier_iff : (n ≡ 0) ↔ ((c.col ≡ b.col) × (c.row + up ≡ b.row))
  barrier_iff = (
    λ e.
        let inside : c.col ≢ cols = λ h. omega (arith, k.at_end h, e) in
        let settled : (c.row + up) * cols + c.col ≡ b.row * cols + b.col =
          ground (arith, k.count, inside, e, add-mul c.row up cols) in
        place_inj cols (c.row + up) c.col b.row b.col (omega (arith, k.col_le, inside)) b_col
          settled,
    λ e.
        let inside : c.col ≢ cols = omega (arith, e, b_col) in
        let lines : b.row * cols ≡ c.row * cols + up * cols =
          ap (λ r. r * cols) (sym e.1) ∙ add-mul c.row up cols in
        ground (arith, k.count, inside, lines, e.0),
  )

  -- The pen one cell back, where that is not behind the end of a line.
  retreat :
      (d : Cell)
      → d.row < rows
      → d.col < cols
      → 1 ≤ n
      → d.row * cols + up * cols + d.col + 1 ≡ b.row * cols + b.col + n
      → Counts cols rows b (n - 1) (suc total) d up
  retreat d row_lt col_lt some_typed at = record {
    row_lt = row_lt;
    col_le = omega arith;
    count = ground (arith, col_lt, some_typed, at);
    at_end = λ e. absurd (omega arith);
    n_le = omega (arith, k.n_le);
    scrolled = elim k.scrolled [ inl z ↦ inl z | inr z ↦ inr (omega (arith, z)) ];
  }

  -- The whole screen behind the prompt was not typed yet.
  not_top_left : 1 ≤ n → suc total + cols ≤ rows * cols → c.row ≡ 0 → c.col ≢ 0
  not_top_left some_typed room top first =
      let inside : c.col ≢ cols = omega arith in
      let zero_lines : c.row * cols ≡ 0 = ap (λ r. r * cols) top ∙ zero-mul cols in
      elim k.scrolled [
        | inl never ↦
            let never_up : up * cols ≡ 0 = ap (λ r. r * cols) never ∙ zero-mul cols in
            ground (arith, k.count, inside, zero_lines, never_up)
        | inr z ↦ ground (arith, k.count, inside, zero_lines, z)
      ]

  pub back-Counts :
      1 ≤ n
      → suc total + cols ≤ rows * cols
      → Counts cols rows b (n - 1) (suc total) (put_cell cols rows c 8) up
  back-Counts some_typed room = elim (ℕ_discrete c.col cols) [
    | yes end ↦ elim (ℕ_discrete (c.row + 1) rows) [
      | yes last ↦
          let lines : c.row * cols ≡ (rows - 2) * cols + cols =
            let e : c.row ≡ (rows - 2) + 1 = omega (arith, last, two_rows) in
            ap (λ r. r * cols) e ∙ suc_mul (rows - 2) cols in
          rw (back-scroll cols rows c end last two_rows) (
            retreat _ (omega arith) (omega arith) some_typed
              (ground (arith, k.count, end, last, lines)))
      | no before ↦
          rw (back-end cols rows c end (omega (arith, k.row_lt, before)))
            (retreat _ k.row_lt (omega arith) some_typed (ground (arith, k.count, end, before)))
    ]
    | no inside ↦ elim (ℕ_discrete c.col 0) [
      | yes first ↦
          let below : c.row ≢ 0 = λ top. not_top_left some_typed room top first in
          let lines : c.row * cols ≡ (c.row - 1) * cols + cols =
            let e : c.row ≡ (c.row - 1) + 1 = omega (arith, below) in
            ap (λ r. r * cols) e ∙ suc_mul (c.row - 1) cols in
          let back : put_cell cols rows c 8 ≡ record { row = c.row - 1; col = cols - 1 } =
            back-inside cols rows c inside k.row_lt ∙ ground (arith, first, below) in
          rw back (
            retreat _ (omega (arith, k.row_lt)) (omega arith) some_typed
              (ground (arith, k.count, inside, first, lines)))
      | no later ↦
          let back : put_cell cols rows c 8 ≡ record c { col = c.col - 1 } =
            back-inside cols rows c inside k.row_lt ∙ ground (arith, later) in
          rw back (
            retreat _ k.row_lt (omega (arith, k.col_le, inside)) some_typed
              (ground (arith, k.count, inside, later)))
    ]
  ]
