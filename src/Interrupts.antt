-- ===== src/Interrupts.antt =====
-- src/kernel/interrupts/interrupts.c: what an interrupt leads to. The dumps of the registers are
-- left out.
pub mod Laws
mod Tests
use knut_os.Base.{
  ℕ, ◌==◌, leb, if◌then◌else◌, Bool, true, false, ◌&&◌, List, [], Option, none, some, ◌>>=◌,
}
use knut_os.Keyboard.{Keyboard, KeyInfo, irq_handler}
use knut_os.Pic.{Write, signal_eoi}

-- An exception halts the machine for good. Else the handler returns, with the keyboard, what the
-- keyboard's handler was called with, and the writes to the interrupt controllers.
pub data Outcome : Type 0 where
  halted : Outcome
  returned : Keyboard → Option KeyInfo → List Write → Outcome

-- `scancode` is what the keyboard controller holds.
pub isr_handler : Keyboard → ℕ → ℕ → Option Outcome
isr_handler k isr_number scancode =
    let keyboard = irq_handler k scancode in
    if leb isr_number 31
    then some halted
    else if leb 32 isr_number && leb isr_number 47
    then (if isr_number == 33
        then (do (k', call) ← keyboard; some (returned k' call (signal_eoi isr_number)))
        else some (returned k none (signal_eoi isr_number)))
    else some (returned k none [])
