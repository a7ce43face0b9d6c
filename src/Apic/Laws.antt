-- ===== src/Apic/Laws.antt =====
-- What starting the local controller leaves, and where its registers are read and written.
use native.Mathlib.Decide.{dec_lt}
use knut_os.Base.{
  ℕ, ◌+◌, ◌*◌, ◌/◌, ◌%◌, ◌^◌, ◌≤◌, ◌<◌, ◌≡◌, ◌↔◌, ◌⊎◌, inl, inr, Bool, Bool-cases, passes,
  passes-at, ==_iff, ltb, ◌-◌, refl, arith, ◌==◌, true, false, List, [], ◌∷◌, ◌++◌,
}
use knut_os.Base.Words.{add64}
use knut_os.Bits.{bit_at, bit_and_window}
use knut_os.Cpu.{Registers}
use knut_os.Mem.{phys_to_higher_half_data}
use knut_os.Pic.{Write, remap, disable}
use knut_os.Pic.Laws.{after, masked}
use knut_os.Apic.{
  store, halted, enabled, apic_is_available, init, lapic_read_address, lapic_write_register,
}

-- What the controllers hold after writes.
abbrev pub after_all : (ℕ → ℕ) → List Write → ℕ → ℕ
after_all inb [] = inb
after_all inb (w ∷ ws) = after_all (after inb w) ws

available_iff :
    (machine : ℕ → ℕ → Registers)
    → (apic_is_available machine ≡ true)
      ↔ ((1 ≤ (machine 0 0).eax) × ((machine 1 0).edx / 2 ^ 9 % 2 ≡ 1))
unfolding apic_is_available
available_iff machine = ground (arith, bit_and_window 1 9 (machine 1 0).edx)

ones : (k : ℕ) → k < 8 → bit_at 255 k ≡ 1
unfolding passes
ones k small = (==_iff (bit_at 255 k) 1).0 (passes-at (λ j. bit_at 255 j == 1) 8 refl small)

-- Both controllers with all their lines masked.
all_masked :
    (inb : ℕ → ℕ) (line : ℕ) → line < 16 → masked (after_all inb (remap inb ++ disable)) line ≡ 1
unfolding remap disable
all_masked inb line small = elim (dec_lt line 8) [
  | yes low ↦ let at : ltb line 8 ≡ true = ground (arith, low) in rw at (ones line low)
  | no high ↦
      let at : ltb line 8 ≡ false = ground (arith, high) in
      rw at (ones (line - 8) (omega (arith, small, high)))
]

-- Where the processor reports no local controller, by leaf 1 being there and bit 9 of its EDX, `apic_init`
-- halts the machine. Else it leaves all sixteen lines of the old controllers masked, and writes one word:
-- the enable bit with vector 255, at the offset 0xF of the controller.
pub init-Enabled :
    (la57 : Bool) (machine : ℕ → ℕ → Registers) (lapic_address : ℕ) (inb : ℕ → ℕ)
    → (((machine 0 0).eax < 1) ⊎ ((machine 1 0).edx / 2 ^ 9 % 2 ≡ 0)
        → init la57 machine lapic_address inb ≡ halted)
      × ((1 ≤ (machine 0 0).eax)
          → ((machine 1 0).edx / 2 ^ 9 % 2 ≡ 1)
          → (ports : List Write) × (init la57 machine lapic_address inb
              ≡ enabled
                  (phys_to_higher_half_data la57 lapic_address)
                  ports
                  (store (add64 (phys_to_higher_half_data la57 lapic_address) 0xF) 0x1FF ∷ []))
            × ((line : ℕ) → line < 16 → masked (after_all inb ports) line ≡ 1))
unfolding init
init-Enabled la57 machine lapic_address inb = (
  λ missing.
      let no_apic : apic_is_available machine ≡ false =
        elim (Bool-cases (apic_is_available machine)) [
          | inl e ↦ absurd (elim missing [
            | inl a ↦ omega (arith, a, (available_iff machine).0 e)
            | inr b ↦ omega (arith, b, (available_iff machine).0 e)
          ])
          | inr e ↦ e
        ] in
      rw no_apic refl,
  λ leaf bit.
      let has_apic : apic_is_available machine ≡ true = (available_iff machine).1 (leaf, bit) in
      (remap inb ++ disable, rw has_apic refl, λ line small. all_masked inb line small),
)

-- A register of the local controller is read at the address at which it is written only if it is the
-- one at offset 0: a read goes to four times the offset.
pub lapic_address_iff :
    (lapic_base reg word : ℕ)
    → lapic_base + 4 * reg < 2 ^ 64
    → (lapic_read_address lapic_base reg ≡ (lapic_write_register lapic_base reg word).address)
      ↔ (reg ≡ 0)
unfolding lapic_read_address lapic_write_register
lapic_address_iff lapic_base reg word fits = ground (arith, fits)
