-- ===== src/Keyboard/Interrupts.antt =====
-- The flags of the keyboard follow the keys that are held, over any
-- sequence of interrupts.
use native.Mathlib.Decide.{dec_lt}
use knut_os.Base.{
  ℕ, suc, ◌+◌, ◌-◌, ◌%◌, ◌≤◌, ◌<◌, ◌≡◌, ◌↔◌, ◌/◌, ◌⊎◌, inl, inr, Bool-cases, refl, ap, ◌∙◌, arith,
  ◌==◌, if◌then◌else◌, true, false, List, [], ◌∷◌, length, Option, none, some, ◌>>=◌,
  get_elem?-eq-get_or, get_elem?-eq-none, bit_and,
}
use knut_os.Base.All.{All}
use knut_os.Bits.{bit_and_pow, bit_at-eq-div}
use knut_os.Keyboard.{Keyboard, KeyInfo, standard_keycodes, irq_handler, process, press}
use knut_os.Keyboard.Modifiers.{flags_after, key_at, press-flags_after, release-flags_after}
use knut_os.Keyboard.Keys.{key_unknown}

high_bit : (s : ℕ) → s < 256 → (bit_and s 0x80 == 0) ≡ (if s / 0x80 == 0 then true else false)
high_bit s byte = ground (arith, bit_and_pow s 7, bit_at-eq-div s 7)

-- The interrupt is one that the table knows: a make code below 83, or its break code.
abbrev pub Known : ℕ → Type 0
Known scancode = (scancode < 256) × (scancode % 0x80 < 83)

abbrev made : Keyboard → ℕ → KeyInfo
made k s = record { keycode = key_at s; ascii_character = (press k (key_at s)).1 }

abbrev broken : KeyInfo
broken = record { keycode = key_unknown; ascii_character = 0 }

process-make : (k : Keyboard) (s : ℕ) → s < 83 → process k s ≡ some (flags_after k s, made k s)
unfolding process
process-make k s small =
    let low : (bit_and s 0x80 == 0) ≡ true = ground (arith, high_bit s) in
    rw (low, get_elem?-eq-get_or standard_keycodes s 0 small, press-flags_after s small k) refl

process-break :
    (k : Keyboard) (s : ℕ) → s < 83 → process k (s + 0x80) ≡ some (flags_after k (s + 0x80), broken)
unfolding process
process-break k s small =
    let high : (bit_and (s + 0x80) 0x80 == 0) ≡ false = ground (arith, high_bit (s + 0x80)) in
    let code : s + 0x80 - 0x80 ≡ s = omega arith in
    rw (high, code, get_elem?-eq-get_or standard_keycodes s 0 small, release-flags_after s small k)
      refl

process-flags_after :
    (k : Keyboard) (s : ℕ)
    → Known s
    → (info : KeyInfo) × (process k s ≡ some (flags_after k s, info))
process-flags_after k s (byte, known) = elim (dec_lt s 0x80) [
  | yes make ↦ (made k s, process-make k s (omega arith))
  | no not_make ↦
      let code : s - 0x80 + 0x80 ≡ s = omega arith in
      (broken, rw code at (process-break k (s - 0x80) (omega arith)))
]

process-unknown : (k : Keyboard) (s : ℕ) → s < 256 → 83 ≤ s % 0x80 → process k s ≡ none
unfolding process
process-unknown k s byte unknown = elim (dec_lt s 0x80) [
  | yes make ↦
      let low : (bit_and s 0x80 == 0) ≡ true = ground (arith, high_bit s) in
      rw (low, get_elem?-eq-none standard_keycodes s (omega arith)) refl
  | no not_make ↦
      let high : (bit_and s 0x80 == 0) ≡ false = ground (arith, high_bit s) in
      rw (high, get_elem?-eq-none standard_keycodes (s - 0x80) (omega arith)) refl
]

irq_handler-active :
    (k : Keyboard) (s : ℕ)
    → k.is_keyboard_active ≡ true
    → irq_handler k s ≡ (process k s >>= λ r. some (r.0, some r.1))
unfolding irq_handler
irq_handler-active k s active = ground (arith, active)

irq_handler-inactive :
    (k : Keyboard) (s : ℕ) → k.is_keyboard_active ≡ false → irq_handler k s ≡ some (k, none)
unfolding irq_handler
irq_handler-inactive k s inactive = ground (arith, inactive)

irq_handler-flags_after :
    (k : Keyboard) (s : ℕ)
    → k.is_keyboard_active ≡ true
    → Known s
    → (info : KeyInfo) × (irq_handler k s ≡ some (flags_after k s, some info))
irq_handler-flags_after k s active known =
    let (info, run) = process-flags_after k s known in
    (info, irq_handler-active k s active ∙ rw run refl)

-- The interrupts of a sequence of scan codes: the flags afterwards, and the calls of the handler in
-- their order.
pub run : Keyboard → List ℕ → Option (Keyboard × List KeyInfo)
run k [] = some (k, [])
run k (s ∷ ss) = do
  (k', call) ← irq_handler k s
  (k'', calls) ← run k' ss
  some (k'', elim call [ none ↦ calls | some info ↦ info ∷ calls ])

abbrev pub flags_over : Keyboard → List ℕ → Keyboard
flags_over k [] = k
flags_over k (s ∷ ss) = flags_over (flags_after k s) ss

-- While the keyboard is active, any sequence of interrupts that the table knows leaves each flag as
-- the last code of its keys, or the parity of its codes, says, and the handler is called once per
-- interrupt.
pub run-flags_over :
    (k : Keyboard) (ss : List ℕ)
    → k.is_keyboard_active ≡ true
    → All Known ss
    → (calls : List KeyInfo) × (run k ss ≡ some (flags_over k ss, calls))
      × (length calls ≡ length ss)
unfolding run
run-flags_over k [] active known = ([], refl, refl)
run-flags_over k (s ∷ ss) active known =
    let (info, here) = irq_handler-flags_after k s active known.0 in
    let (calls, rest, count) = run-flags_over (flags_after k s) ss active known.1 in
    (info ∷ calls, rw (here, rest) refl, ap suc count)

-- The handler reads past the end of its table exactly when it is active and the code, without the
-- bit of a break code, is 83 or more. An inactive keyboard changes nothing and calls nobody.
pub irq_handler-none_iff :
    (k : Keyboard) (s : ℕ)
    → s < 256
    → ((irq_handler k s ≡ none) ↔ ((k.is_keyboard_active ≡ true) × (83 ≤ s % 0x80)))
      × (k.is_keyboard_active ≡ false → irq_handler k s ≡ some (k, none))
irq_handler-none_iff k s byte = (
  (
    (λ fault. faulted fault (Bool-cases k.is_keyboard_active) (dec_lt (s % 0x80) 83)),
    (λ h. irq_handler-active k s h.0 ∙ rw (process-unknown k s byte h.1) refl),
  ),
  irq_handler-inactive k s,
)
  where
    faulted :
        irq_handler k s ≡ none
        → (k.is_keyboard_active ≡ true) ⊎ (k.is_keyboard_active ≡ false)
        → Dec (s % 0x80 < 83)
        → (k.is_keyboard_active ≡ true) × (83 ≤ s % 0x80)
    faulted fault (inl active) (yes known) =
        let (info, run) = irq_handler-flags_after k s active (byte, known) in cc
    faulted fault (inl active) (no unknown) = (active, omega (arith, unknown))
    faulted fault (inr inactive) known = let run = irq_handler-inactive k s inactive in cc
