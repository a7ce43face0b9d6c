-- ===== src/Serial/Laws.antt =====
-- Everything is sent, in order, as soon as the port is ready often enough.
use knut_os.Base.{
  ℕ, suc, ◌+◌, ◌≤◌, ◌≡◌, ◌≢◌, refl, arith, ◌==◌, if◌then◌else◌, false, List, [], ◌∷◌, ◌++◌, map,
  length, some, Bool-cases, inl, inr,
}
use knut_os.Base.All.{All}
use knut_os.Pic.{outb}
use knut_os.Serial.{com1, is_transmit_empty, wait_for, send_string, set_color}

-- How many polls of a list find the transmitter empty.
abbrev pub ready : List ℕ → ℕ
ready [] = 0
ready (status ∷ statuses) =
    let later = ready statuses in if is_transmit_empty status == 0 then later else suc later

wait_for-ready :
    (statuses : List ℕ)
    → 1 ≤ ready statuses
    → (left : List ℕ) × (wait_for is_transmit_empty statuses ≡ some left)
      × (ready statuses ≡ ready left + 1)
unfolding wait_for
wait_for-ready [] some_ready = elim some_ready [ ]
wait_for-ready (status ∷ statuses) some_ready = elim (Bool-cases (is_transmit_empty status == 0)) [
  | inl busy ↦
      let (left, run, same) = wait_for-ready statuses (rw busy at some_ready) in
      (left, rw (busy, run) refl, rw busy same)
  | inr empty ↦ (statuses, rw empty refl, rw empty (omega arith))
]

-- Where the port is ready as often as the string has bytes, `serial_send_string` comes to an end, and
-- has sent those bytes in their order, up to the zero byte, one for each time the port was ready.
pub send_string-sends :
    (bytes rest statuses : List ℕ)
    → All (λ c. c ≢ 0) bytes
    → length bytes ≤ ready statuses
    → (left : List ℕ) × (send_string statuses (bytes ++ 0 ∷ rest)
        ≡ some (map (outb com1) bytes, left))
      × (ready statuses ≡ ready left + length bytes)
unfolding send_string
send_string-sends [] rest statuses nonzero enough = (statuses, refl, omega arith)
send_string-sends (c ∷ bytes) rest statuses nonzero enough =
    let (left, run, one) = wait_for-ready statuses (omega (arith, enough)) in
    let (left', sent, all) =
      send_string-sends bytes rest left nonzero.1 (omega (arith, enough, one)) in
    let not_end : (c == 0) ≡ false = ground (arith, nonzero.0) in
    (left', rw (not_end, run, sent) refl, omega (arith, one, all))

-- A code that starts as the test wants is sent as a string.
pub set_color-escape :
    (polls rest : List ℕ) → set_color polls (27 ∷ 91 ∷ rest) ≡ send_string polls (27 ∷ 91 ∷ rest)
unfolding set_color
set_color-escape polls rest = refl
