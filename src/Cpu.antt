-- ===== src/Cpu.antt =====
-- src/kernel/devices/cpu/cpu.h: the instruction CPUID. What it gives for a leaf and a subleaf is an
-- argument.
use knut_os.Base.{ℕ, ◌^◌, ltb, if◌then◌else◌, bit_and}

abbrev pub cpuid_get_features : ℕ
cpuid_get_features = 1

abbrev pub cpuid_feat_edx_apic : ℕ
cpuid_feat_edx_apic = 2 ^ 9

-- `cpuid_registers_t`, as far as the instruction fills it.
pub record Registers : Type 0 where
  pub eax : ℕ
  pub ebx : ℕ
  pub ecx : ℕ
  pub edx : ℕ

-- The registers afterwards, and the result. The first call asks for the highest leaf, for which the
-- subleaf does not matter.
unfoldable pub cpuid : (ℕ → ℕ → Registers) → ℕ → ℕ → Registers → Registers × ℕ
cpuid machine leaf subleaf registers =
    let cpuid_max = (machine (bit_and leaf 0x80000000) 0).eax in
    if ltb cpuid_max leaf then (registers, 0) else (machine leaf subleaf, 1)
