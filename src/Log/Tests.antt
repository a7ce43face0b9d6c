-- ===== src/Log/Tests.antt =====
-- A message over a port that is always ready, with a `vsnprintf` that gives the format back.
use knut_os.Base.{ℕ, ◌≡◌, refl, arith, none, some, List, [], ◌∷◌, map, replicate, length-replicate}
use knut_os.Pic.{outb}
use knut_os.Serial.{com1}
use knut_os.Serial.Laws.{ready}
use knut_os.Log.{Argument, warning, in_buffer, prefix_of, line_format, serial_log}
use knut_os.Log.Laws.{Fits, no_zero, message_of, serial_log-sends}

abbrev echo : List ℕ → List Argument → List ℕ
echo fmt arguments = fmt

abbrev polls : List ℕ
polls = replicate 38 0x20

all_ready : ready polls ≡ 38
all_ready = refl

prefix_of-Fits : Fits (prefix_of warning)
prefix_of-Fits = (no_zero (prefix_of warning) refl, omega arith)

line_format-Fits : Fits line_format
line_format-Fits = (no_zero line_format refl, omega arith)

serial_log-sends_example :
    (left : List ℕ) × (serial_log echo polls (0x6D ∷ []) 12 warning (0x68 ∷ 0x69 ∷ []) []
      ≡ some (map (outb com1) (message_of warning (prefix_of warning) line_format), left))
serial_log-sends_example =
    serial_log-sends echo polls (0x6D ∷ []) 12 warning (0x68 ∷ 0x69 ∷ []) [] (prefix_of warning)
      line_format (omega arith) refl refl prefix_of-Fits line_format-Fits (omega (arith, all_ready))

-- A text of 5120 bytes overruns the buffer with its zero byte.
too_long : in_buffer (replicate 5120 0x20) ≡ none
unfolding in_buffer
too_long = ground (arith, length-replicate {A = ℕ} 5120 0x20)
