-- ===== src/Interrupts/Laws.antt =====
-- Every interrupt line is acknowledged.
use knut_os.Base.{ℕ, suc, ◌≤◌, ◌≡◌, ◌==◌, leb, if◌then◌else◌, ◌&&◌, List, [], ◌∷◌}
use knut_os.Keyboard.{Keyboard}
use knut_os.Pic.{Write, pic1_command, pic2_command}
use knut_os.Interrupts.{Outcome, halted, returned}

-- The writes that the outcome sends to a port.
abbrev sent_to : ℕ → List Write → ℕ
sent_to port [] = 0
sent_to port (w ∷ ws) = if w.port == port then suc (sent_to port ws) else sent_to port ws

-- The acknowledgements that the master and the slave controller are due for an interrupt.
abbrev pub due_master : ℕ → ℕ
due_master isr = if leb 32 isr && leb isr 47 then 1 else 0

abbrev pub due_slave : ℕ → ℕ
due_slave isr = if leb 40 isr && leb isr 47 then 1 else 0

-- The acknowledgements that an outcome sends. A machine that halts sends none.
abbrev pub acknowledged : ℕ → Outcome → ℕ
acknowledged port halted = 0
acknowledged port (returned k call writes) = sent_to port writes

-- What is right for the interrupt `isr`.
pub record Due (isr : ℕ) (outcome : Outcome) : Type 0 where
  pub master : acknowledged pic1_command outcome ≡ due_master isr
  pub slave : acknowledged pic2_command outcome ≡ due_slave isr
  pub halts : outcome ≡ halted → isr ≤ 31

abbrev keyboard_vector : ℕ
keyboard_vector = 33
