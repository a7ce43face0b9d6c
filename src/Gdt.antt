-- ===== src/Gdt.antt =====
-- src/kernel/gdt/gdt.c and gdt.h: the segments, and where the task state segment stands. The
-- addresses of the table and of the segment are arguments.
pub mod Laws
mod Tests
use knut_os.Base.{ℕ, zero, suc, ◌+◌, ◌-◌, ◌*◌, ◌/◌, ◌^◌, List, replicate, bit_and}

pub record GdtDescriptor : Type 0 where
  pub limit_15_0 : ℕ
  pub base_15_0 : ℕ
  pub base_23_16 : ℕ
  pub kind : ℕ
  pub limit_19_16_and_flags : ℕ
  pub base_31_24 : ℕ

pub record Gdt : Type 0 where
  pub null : GdtDescriptor
  pub kernel_code : GdtDescriptor
  pub kernel_data : GdtDescriptor
  pub null2 : GdtDescriptor
  pub user_data : GdtDescriptor
  pub user_code : GdtDescriptor
  pub ovmf_data : GdtDescriptor
  pub ovmf_code : GdtDescriptor
  pub tss_low : GdtDescriptor
  pub tss_high : GdtDescriptor

abbrev pub segment : ℕ → ℕ → GdtDescriptor
segment kind flags = record {
  limit_15_0 = 0;
  base_15_0 = 0;
  base_23_16 = 0;
  kind = kind;
  limit_19_16_and_flags = flags;
  base_31_24 = 0;
}

pub create_descriptors : Gdt
create_descriptors = record {
  null = segment 0 0;
  kernel_code = segment 0x9a 0xa0;
  kernel_data = segment 0x92 0xa0;
  null2 = segment 0 0;
  user_data = segment 0x92 0xa0;
  user_code = segment 0x9a 0xa0;
  ovmf_data = segment 0x92 0xa0;
  ovmf_code = segment 0x9a 0xa0;
  tss_low = segment 0x89 0xa0;
  tss_high = segment 0 0;
}

-- The sizes in bytes of the packed structures.
abbrev pub sizeof_tss : ℕ
sizeof_tss = 4 + 3 * 8 + 8 + 7 * 8 + 8 + 2 + 2

abbrev pub sizeof_gdt : ℕ
sizeof_gdt = 10 * 8

pub record GdtPointer : Type 0 where
  pub limit : ℕ
  pub base : ℕ

-- The table, the bytes of the task state segment, and the pointer that is loaded.
pub init : ℕ → ℕ → Gdt × List ℕ × GdtPointer
unfolding create_descriptors
init tss_base gdt_address =
    let gdt = create_descriptors in
    (
      record gdt {
        tss_low = record gdt.tss_low {
          base_15_0 = bit_and tss_base 0xFFFF;
          base_23_16 = bit_and (tss_base / 2 ^ 16) 0xFF;
          base_31_24 = bit_and (tss_base / 2 ^ 24) 0xFF;
          limit_15_0 = sizeof_tss;
        };
        tss_high = record gdt.tss_high {
          limit_15_0 = bit_and (tss_base / 2 ^ 32) 0xFFFF;
          base_15_0 = bit_and (tss_base / 2 ^ 48) 0xFFFF;
        };
      },
      replicate sizeof_tss 0,
      record { limit = sizeof_gdt - 1; base = gdt_address },
    )
