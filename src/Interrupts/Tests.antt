-- ===== src/Interrupts/Tests.antt =====
-- The second line of the slave controller.
use knut_os.Base.{ℕ, false}
use knut_os.Keyboard.{Keyboard}

abbrev idle : Keyboard
idle = record {
  is_keyboard_active = false;
  ctrl = false;
  alt = false;
  shift = false;
  capslock = false;
  numlock = false;
  scrolllock = false;
}

abbrev disk : ℕ
disk = 46
