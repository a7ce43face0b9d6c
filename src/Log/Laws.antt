-- ===== src/Log/Laws.antt =====
-- What a message sends over the serial port, and where it does not fit into its buffer.
use native.Mathlib.Decide.{ℕ_discrete}
use knut_os.Base.{
  ℕ, ◌+◌, ◌≤◌, ◌<◌, ◌≡◌, ◌≢◌, refl, sym, ap, ◌∙◌, arith, some, List, [], ◌∷◌, ◌++◌, map, length,
  length-append, Bool, not, ◌&&◌, ◌==◌, true,
}
use knut_os.Base.All.{All}
use knut_os.Pic.{outb}
use knut_os.Serial.{com1, send_string, set_color}
use knut_os.Serial.Laws.{ready, send_string-sends, set_color-escape}
use knut_os.Log.{
  Status, info, warning, error, Argument, string, number, buffer_size, in_buffer, term_color_reset,
  color_of, prefix_of, line_format, debug, serial_log,
}

-- A text without zero bytes that fits into a buffer.
abbrev pub Fits : List ℕ → Type 0
Fits text = All (λ c. c ≢ 0) text × (length text < buffer_size)

in_buffer-fits : (text : List ℕ) → length text < buffer_size → in_buffer text ≡ some text
unfolding in_buffer
in_buffer-fits text small = ground (arith, small)

sends :
    (polls text : List ℕ)
    → All (λ c. c ≢ 0) text
    → length text ≤ ready polls
    → (left : List ℕ) × (send_string polls (text ++ 0 ∷ []) ≡ some (map (outb com1) text, left))
      × (ready polls ≡ ready left + length text)
sends polls text nonzero enough = send_string-sends text [] polls nonzero enough

abbrev has_no_zero : List ℕ → Bool
has_no_zero [] = true
has_no_zero (c ∷ text) = not (c == 0) && has_no_zero text

pub no_zero : (text : List ℕ) → has_no_zero text ≡ true → All (λ c. c ≢ 0) text
no_zero [] e = tt
no_zero (c ∷ text) e = elim (ℕ_discrete c 0) [
  | yes z ↦ let no : has_no_zero (0 ∷ text) ≡ true = rw z at e in absurd (cc)
  | no ne ↦ (ne, no_zero text (ground (arith, e, ne)))
]

color_nonzero : (status : Status) → All (λ c. c ≢ 0) (color_of status)
color_nonzero info = no_zero (color_of info) refl
color_nonzero warning = no_zero (color_of warning) refl
color_nonzero error = no_zero (color_of error) refl

color_sent :
    (status : Status) (polls : List ℕ)
    → set_color polls (color_of status ++ 0 ∷ []) ≡ send_string polls (color_of status ++ 0 ∷ [])
color_sent info polls = set_color-escape polls _
color_sent warning polls = set_color-escape polls _
color_sent error polls = set_color-escape polls _

-- The bytes of a message.
abbrev pub message_of : Status → List ℕ → List ℕ → List ℕ
message_of status prefix line = color_of status ++ prefix ++ line ++ term_color_reset

module _ (vsnprintf : List ℕ → List Argument → List ℕ) where
  debug-sends :
      (polls fmt text : List ℕ) (arguments : List Argument)
      → vsnprintf fmt arguments ≡ text
      → Fits text
      → length text ≤ ready polls
      → (left : List ℕ) × (debug vsnprintf polls fmt arguments ≡ some (map (outb com1) text, left))
        × (ready polls ≡ ready left + length text)
  unfolding debug
  debug-sends polls fmt text arguments same fits enough =
      let (left, run, count) = sends polls text fits.0 enough in
      (left, rw (same, in_buffer-fits text fits.1) run, count)

map-append :
    (xs ys : List ℕ) → map (outb com1) (xs ++ ys) ≡ map (outb com1) xs ++ map (outb com1) ys
map-append [] ys = refl
map-append (x ∷ xs) ys = ap (λ ws. outb com1 x ∷ ws) (map-append xs ys)

message_writes :
    (color prefix line reset : List ℕ)
    → map (outb com1) color
        ++ map (outb com1) prefix
        ++ map (outb com1) line
        ++ map (outb com1) reset
      ≡ map (outb com1) (color ++ prefix ++ line ++ reset)
message_writes color prefix line reset = sym (
    map-append (color ++ prefix ++ line) reset
    ∙ ap (λ ws. ws ++ map (outb com1) reset)
        (map-append (color ++ prefix) line
          ∙ ap (λ ws. ws ++ map (outb com1) line) (map-append color prefix)))

message_length :
    (color prefix line reset : List ℕ)
    → length (color ++ prefix ++ line ++ reset)
      ≡ length color + (length prefix + (length line + length reset))
message_length color prefix line reset = omega (
  arith,
  length-append (color ++ prefix ++ line) reset,
  length-append (color ++ prefix) line,
  length-append color prefix,
)

-- Where `vsnprintf` gives texts without zero bytes that fit into the buffers, and the port is ready
-- as often as there are bytes to send: `serial_log` comes to an end, and has sent the color of the
-- status, its prefix, the line with the message in it, and the reset of the color, in this order.
pub serial_log-sends :
    (vsnprintf : List ℕ → List Argument → List ℕ) (polls description : List ℕ) (line_nr : ℕ)
    (status : Status) (fmt : List ℕ) (arguments : List Argument) (prefix line : List ℕ)
    → length (vsnprintf fmt arguments) < buffer_size
    → vsnprintf (prefix_of status) [] ≡ prefix
    → vsnprintf line_format
        (string description ∷ number line_nr ∷ string (vsnprintf fmt arguments) ∷ [])
      ≡ line
    → Fits prefix
    → Fits line
    → length (message_of status prefix line) ≤ ready polls
    → (left : List ℕ) × (serial_log vsnprintf polls description line_nr status fmt arguments
        ≡ some (map (outb com1) (message_of status prefix line), left))
unfolding serial_log
serial_log-sends vsnprintf polls description line_nr status fmt arguments prefix line small
      is_prefix is_line prefix_fits line_fits enough =
    let total = message_length (color_of status) prefix line term_color_reset in
    let (polls1, color_run, color_count) =
      sends polls (color_of status) (color_nonzero status) (omega (arith, enough, total)) in
    let (polls2, prefix_run, prefix_count) =
      debug-sends vsnprintf polls1 (prefix_of status) prefix [] is_prefix prefix_fits
        (omega (arith, enough, total, color_count)) in
    let (polls3, line_run, line_count) =
      debug-sends vsnprintf polls2 line_format line
        (string description ∷ number line_nr ∷ string (vsnprintf fmt arguments) ∷ []) is_line
        line_fits (omega (arith, enough, total, color_count, prefix_count)) in
    let (polls4, reset_run, reset_count) =
      sends polls3 term_color_reset (no_zero term_color_reset refl)
        (omega (arith, enough, total, color_count, prefix_count, line_count)) in
    (
      polls4,
      rw
          (
            in_buffer-fits (vsnprintf fmt arguments) small,
            color_sent status polls,
            color_run,
            prefix_run,
            line_run,
            set_color-escape polls3 (0x30 ∷ 0x6D ∷ 0 ∷ []),
            reset_run,
          )
          (ap (λ ws. some (ws, polls4))
            (message_writes (color_of status) prefix line term_color_reset)),
    )
