-- ===== src/Gdt/Tests.antt =====
-- Tables in the higher half.
use knut_os.Base.{◌+◌, ◌≡◌, arith}
use knut_os.Gdt.{init, sizeof_gdt}
use knut_os.Gdt.Laws.{encode, tss_address, present, executable, init-tss_address}

init-tss_address_example :
    let loaded = init 0xFFFFFFFF80123450 0xFFFFFFFF80100000 in
    (tss_address (encode loaded.0.tss_low) (encode loaded.0.tss_high) ≡ 0xFFFFFFFF80123450)
    × (present (encode loaded.0.kernel_code) ≡ 1)
    × (executable (encode loaded.0.kernel_code) ≡ 1)
    × (present (encode loaded.0.kernel_data) ≡ 1)
    × (executable (encode loaded.0.kernel_data) ≡ 0)
    × (encode loaded.0.null ≡ 0)
    × (loaded.2.limit + 1 ≡ sizeof_gdt)
    × (loaded.2.base ≡ 0xFFFFFFFF80100000)
init-tss_address_example = init-tss_address 0xFFFFFFFF80123450 0xFFFFFFFF80100000 (omega arith)
