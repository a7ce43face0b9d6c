-- ===== src/Firmware/Checked.antt =====
-- The checks that lie behind what `acpi_init` gives.
use knut_os.Base.{ℕ, ◌+◌, ◌%◌, ◌≡◌, Bool, some}
use knut_os.Stivale2.{get_tag_from}
use knut_os.Acpi.Checksum.{total}
use knut_os.Acpi.Sound.{IsSound}
use knut_os.Mem.{phys_to_higher_half_data}
use knut_os.Madt
use knut_os.Madt.{Madt}
use knut_os.Firmware.{
  tag_at, table_at, rsdp_id, rsdp_of, rsdt_of, rsdt_entry, rsdt_signature, apic_signature, Platform,
}

-- The records are those of a sound table of the RSDT, where it is mapped in the higher half.
pub record IsMadtOf (la57 : Bool) (byte : ℕ → ℕ) (rsdt : ℕ) (m : Madt) : Type 0 where
  pub entry : ℕ
  pub entry_sound : IsSound (table_at byte (rsdt_entry byte rsdt entry)) apic_signature
  pub header : ℕ
  pub mapped : header ≡ phys_to_higher_half_data la57 (rsdt_entry byte rsdt entry)
  pub sorted_by : Madt.init byte header (table_at byte header).length ≡ some m

-- What has been checked where a start-up ends.
pub record IsChecked (la57 : Bool) (byte : ℕ → ℕ) (fuel first : ℕ) (p : Platform) : Type 0 where
  pub rsdp_tag : ℕ
  pub tagged : get_tag_from fuel (tag_at byte) rsdp_id first ≡ some rsdp_tag
  pub rsdp_sum : total (λ i. byte (rsdp_of byte rsdp_tag + i)) 0 20 % 256 ≡ 0
  pub rsdt_sound :
      IsSound (table_at byte (rsdt_of la57 byte (rsdp_of byte rsdp_tag))) rsdt_signature
  pub madt_of_rsdt : IsMadtOf la57 byte (rsdt_of la57 byte (rsdp_of byte rsdp_tag)) p.madt
