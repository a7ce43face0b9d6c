-- ===== src/Pic/Tests.antt =====
-- The keyboard's line and one of the slave controller.
use knut_os.Base.{ℕ, ◌<◌, ◌≡◌, arith, ◌==◌, if◌then◌else◌, some}
use knut_os.Pic.{Write, set_mask, clear_mask}
use knut_os.Pic.Laws.{after, masked, mask-masked}

abbrev inb : ℕ → ℕ
inb port = if port == 0x21 then 0xFC else 0xFF

mask-masked_example :
    ((w : Write) × (set_mask inb 1 ≡ some w)
      × ((other : ℕ)
          → other < 16
          → masked (after inb w) other ≡ (if 1 == other then 1 else masked inb other)))
    × ((w : Write) × (clear_mask inb 1 ≡ some w)
        × ((other : ℕ)
            → other < 16
            → masked (after inb w) other ≡ (if 1 == other then 0 else masked inb other)))
mask-masked_example = mask-masked inb 1 (omega arith)
