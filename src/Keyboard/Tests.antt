-- ===== src/Keyboard/Tests.antt =====
-- An active keyboard, and shift held over a letter.
use knut_os.Base.{
  ℕ, ◌%◌, ◌≤◌, ◌≡◌, ◌↔◌, refl, arith, true, false, List, [], ◌∷◌, length, none, some,
}
use knut_os.Keyboard.{Keyboard, KeyInfo, keycode_to_ascii, irq_handler}
use knut_os.Keyboard.Ascii.{us_layout, keycode_to_ascii-us_layout}
use knut_os.Keyboard.Interrupts.{run, flags_over, run-flags_over, irq_handler-none_iff}

abbrev active : Keyboard
active = record {
  is_keyboard_active = true;
  ctrl = false;
  alt = false;
  shift = false;
  capslock = true;
  numlock = false;
  scrolllock = false;
}

-- Left shift, a, the release of a, the release of left shift.
abbrev shift_a : List ℕ
shift_a = 0x2A ∷ 0x1E ∷ 0x9E ∷ 0xAA ∷ []

keycode_to_ascii-us_layout_example : keycode_to_ascii active 97 ≡ us_layout false true 97
keycode_to_ascii-us_layout_example = keycode_to_ascii-us_layout active 97 (omega arith)

run-flags_over_example :
    (calls : List KeyInfo) × (run active shift_a ≡ some (flags_over active shift_a, calls))
    × (length calls ≡ length shift_a)
run-flags_over_example = run-flags_over active shift_a refl (
  (omega arith, omega arith),
  ((omega arith, omega arith), ((omega arith, omega arith), ((omega arith, omega arith), tt))),
)

irq_handler-none_iff_example :
    ((irq_handler active 0x57 ≡ none) ↔ ((active.is_keyboard_active ≡ true) × (83 ≤ 0x57 % 0x80)))
    × (active.is_keyboard_active ≡ false → irq_handler active 0x57 ≡ some (active, none))
irq_handler-none_iff_example = irq_handler-none_iff active 0x57 (omega arith)
