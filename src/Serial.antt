-- ===== src/Serial.antt =====
-- src/kernel/devices/serial/serial.c and serial.h: the first serial port, by the bytes written to its
-- ports. What the line status register reads from one poll to the next is a list.
pub mod Laws
mod Tests
use knut_os.Base.{
  ℕ, ◌+◌, ◌==◌, if◌then◌else◌, ◌||◌, not, List, [], ◌∷◌, Option, none, some, ◌>>=◌, bit_and,
  get_elem?,
}
use knut_os.Pic.{Write, outb}

abbrev pub com1 : ℕ
com1 = 0x3F8

pub init : List Write
init =
    outb (com1 + 1) 0x00
    ∷ outb (com1 + 3) 0x80
    ∷ outb (com1 + 0) 0x03
    ∷ outb (com1 + 1) 0x00
    ∷ outb (com1 + 3) 0x03
    ∷ outb (com1 + 2) 0xC7
    ∷ outb (com1 + 4) 0x0B
    ∷ []

abbrev pub is_serial_received : ℕ → ℕ
is_serial_received status = bit_and status 1

abbrev pub is_transmit_empty : ℕ → ℕ
is_transmit_empty status = bit_and status 0x20

-- The loop on a bit of the status; what is left of the list afterwards. `none` where it goes on.
pub wait_for : (ℕ → ℕ) → List ℕ → Option (List ℕ)
wait_for bit [] = none
wait_for bit (status ∷ statuses) =
    let rest = wait_for bit statuses in if bit status == 0 then rest else some statuses

-- The byte that is read; `received` is what the data port holds then.
pub recv : List ℕ → ℕ → Option (ℕ × List ℕ)
unfolding wait_for
recv statuses received = do left ← wait_for is_serial_received statuses; some (received, left)

pub send_char : List ℕ → ℕ → Option (Write × List ℕ)
unfolding wait_for
send_char statuses c = do left ← wait_for is_transmit_empty statuses; some (outb com1 c, left)

-- The loop up to the zero byte; `none` also for a read past the end of the string.
pub send_string : List ℕ → List ℕ → Option (List Write × List ℕ)
unfolding send_char
send_string statuses [] = none
send_string statuses (c ∷ str) =
    let rest = (do
      (w, left) ← send_char statuses c
      (ws, left') ← send_string left str
      some (w ∷ ws, left')) in
    if c == 0 then some ([], statuses) else rest

-- A code that does not start with the escape byte and `[` is not sent. The second byte is only read
-- after the first test.
pub set_color : List ℕ → List ℕ → Option (List Write × List ℕ)
unfolding send_string
set_color statuses color_code = do
  first ← get_elem? color_code 0
  if not (first == 27) then some ([], statuses) else (do
    second ← get_elem? color_code 1
    if not (second == 91) then some ([], statuses) else send_string statuses color_code)
