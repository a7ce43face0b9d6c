-- ===== src/Apic/Tests.antt =====
-- A machine with a local controller.
use knut_os.Base.{
  ℕ, ◌/◌, ◌%◌, ◌^◌, ◌≤◌, ◌<◌, ◌≡◌, ◌⊎◌, refl, ◌==◌, if◌then◌else◌, false, List, [], ◌∷◌, some, none,
}
use knut_os.Base.Words.{add64}
use knut_os.Cpu.{Registers}
use knut_os.Mem.{phys_to_higher_half_data}
use knut_os.Pic.{Write}
use knut_os.Pic.Laws.{masked}
use knut_os.Apic.{
  store, halted, enabled, init, lapic_read_register, lapic_signal_eoi, io_apic_read_register,
  io_apic_write_register,
}
use knut_os.Apic.Laws.{after_all, init-Enabled}

abbrev registers : ℕ → ℕ → Registers
registers eax edx = record { eax = eax; ebx = 0; ecx = 0; edx = edx }

abbrev machine : ℕ → ℕ → Registers
machine leaf subleaf = if leaf == 0 then registers 13 0 else registers 0 0x201

init-Enabled_example :
    (((machine 0 0).eax < 1) ⊎ ((machine 1 0).edx / 2 ^ 9 % 2 ≡ 0)
      → init false machine 0xFEE00000 (λ port. 0) ≡ halted)
    × ((1 ≤ (machine 0 0).eax)
        → ((machine 1 0).edx / 2 ^ 9 % 2 ≡ 1)
        → (ports : List Write) × (init false machine 0xFEE00000 (λ port. 0)
            ≡ enabled
                (phys_to_higher_half_data false 0xFEE00000)
                ports
                (store (add64 (phys_to_higher_half_data false 0xFEE00000) 0xF) 0x1FF ∷ []))
          × ((line : ℕ) → line < 16 → masked (after_all (λ port. 0) ports) line ≡ 1))
init-Enabled_example = init-Enabled false machine 0xFEE00000 (λ port. 0)

read_runs : lapic_read_register (λ address. address) 0xFEE00000 0x20 ≡ 0xFEE00080
unfolding lapic_read_register
read_runs = refl

eoi_runs : lapic_signal_eoi 0xFEE00000 ≡ store 0xFEE000B0 0
unfolding lapic_signal_eoi
eoi_runs = refl

window_runs : io_apic_read_register (0x5000 ∷ []) 0 1 ≡ some (store 0x5000 1, 0x5040)
unfolding io_apic_read_register
window_runs = refl

no_controller : io_apic_write_register [] 0 1 7 ≡ none
unfolding io_apic_write_register
no_controller = refl
