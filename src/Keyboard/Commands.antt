-- ===== src/Keyboard/Commands.antt =====
-- `keyboard_send_command` and `keyboard_init` of src/kernel/devices/ps2/keyboard/keyboard.c. What
-- the controller answers is given: the status bytes in the order in which they are read.
use knut_os.Base.{
  ℕ, ◌≡◌, ◌≢◌, arith, ◌==◌, if◌then◌else◌, List, [], ◌∷◌, ◌++◌, length, replicate, Option, none,
  some, ◌>>=◌, bit_and,
}
use knut_os.Base.All.{All}

abbrev pub kb_controller_data : ℕ
kb_controller_data = 0x60

abbrev pub kb_controller_command : ℕ
kb_controller_command = 0x64

-- The writes to the controller, as ports and bytes, and the answers left; `none` where the loop
-- outlasts the answers.
pub send_command : List ℕ → ℕ → Option (List (ℕ × ℕ) × List ℕ)
send_command [] command_byte = none
send_command (status ∷ rest) command_byte =
    let later = send_command rest command_byte in
    if bit_and status 0x2 == 0
    then some ([], rest)
    else (do (writes, left) ← later; some ((kb_controller_data, command_byte) ∷ writes, left))

-- The loop of `keyboard_init` that reads the data register until it is empty.
pub drain : List ℕ → Option (List ℕ)
drain [] = none
drain (status ∷ rest) =
    let later = drain rest in if bit_and status 0x1 == 0 then some rest else later

-- The two loops of `keyboard_init`.
pub start_scanning : List ℕ → Option (List (ℕ × ℕ) × List ℕ)
unfolding send_command drain
start_scanning statuses = do rest ← drain statuses; send_command rest 0xF4

-- `keyboard_send_command` writes the byte once for each answer that says the controller is busy, and
-- not once it is ready.
pub send_command-busy :
    (busy : List ℕ) (ready : ℕ) (rest : List ℕ) (command_byte : ℕ)
    → All (λ status. bit_and status 0x2 ≢ 0) busy
    → bit_and ready 0x2 ≡ 0
    → send_command (busy ++ ready ∷ rest) command_byte
      ≡ some (replicate (length busy) (kb_controller_data, command_byte), rest)
unfolding send_command
send_command-busy [] ready rest command_byte are_busy is_ready = ground (arith, is_ready)
send_command-busy (status ∷ busy) ready rest command_byte are_busy is_ready =
    ground (arith, are_busy.0, send_command-busy busy ready rest command_byte are_busy.1 is_ready)
