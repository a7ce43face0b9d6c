-- ===== src/Pic/Laws.antt =====
-- The masks of the sixteen interrupt lines.
use native.Mathlib.Decide.{dec_lt}
use knut_os.Base.{ℕ, ◌^◌, ◌<◌, ◌≡◌, arith, ◌==◌, if◌then◌else◌, some, bit_and, bit_or}
use knut_os.Base.Words.{u8, not32}
use knut_os.Bits.{bit_at}
use knut_os.Bitmap.Laws.{byte_after_set, byte_after_unset}
use knut_os.Pic.{Write, outb, port_of, line_of, set_mask, clear_mask}

-- What the controllers hold after a write: reading a data port gives the byte last written to it.
abbrev pub after : (ℕ → ℕ) → Write → ℕ → ℕ
after inb w port = if port == w.port then w.value else inb port

-- Whether a line is masked: bit `line % 8` of the data port of its controller.
abbrev pub masked : (ℕ → ℕ) → ℕ → ℕ
masked inb line = bit_at (inb (port_of line)) (line_of line)

-- A write to the controller of `line` that makes its bit `v` and keeps the others.
masked-after :
    (inb : ℕ → ℕ) (line other byte v : ℕ)
    → line < 16
    → other < 16
    → ((k : ℕ)
        → k < 8
        → bit_at byte k ≡ (if line_of line == k then v else bit_at (inb (port_of line)) k))
    → masked (after inb (outb (port_of line) byte)) other
      ≡ (if line == other then v else masked inb other)
masked-after inb line other byte v small lt bits = elim (dec_lt line 8) [
  | yes low ↦ elim (dec_lt other 8) [
    | yes other_low ↦ ground (arith, bits (line_of other))
    | no other_high ↦ ground (arith, bits (line_of other))
  ]
  | no high ↦ elim (dec_lt other 8) [
    | yes other_low ↦ ground (arith, bits (line_of other))
    | no other_high ↦ ground (arith, bits (line_of other))
  ]
]

-- On both controllers, `pic_set_mask` masks its line and `pic_clear_mask` unmasks it, and neither
-- touches any of the other fifteen lines.
pub mask-masked :
    (inb : ℕ → ℕ) (line : ℕ)
    → line < 16
    → ((w : Write) × (set_mask inb line ≡ some w)
        × ((other : ℕ)
            → other < 16
            → masked (after inb w) other ≡ (if line == other then 1 else masked inb other)))
      × ((w : Write) × (clear_mask inb line ≡ some w)
          × ((other : ℕ)
              → other < 16
              → masked (after inb w) other ≡ (if line == other then 0 else masked inb other)))
unfolding set_mask clear_mask
mask-masked inb line small = (
  (
    outb (port_of line) (u8 (bit_or (inb (port_of line)) (2 ^ line_of line))),
    ground (arith, small),
    λ other lt. masked-after inb line other _ 1 small lt (λ k below.
        byte_after_set (inb (port_of line)) (line_of line) k (ground (arith, small)) below),
  ),
  (
    outb (port_of line) (u8 (bit_and (inb (port_of line)) (not32 (2 ^ line_of line)))),
    ground (arith, small),
    λ other lt. masked-after inb line other _ 0 small lt (λ k below.
        byte_after_unset (inb (port_of line)) (line_of line) k (ground (arith, small)) below),
  ),
)
