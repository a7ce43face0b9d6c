-- ===== src/Pic.antt =====
-- src/kernel/devices/pic/pic.c and pic.h: the interrupt controllers, by the bytes written to their
-- ports. What `io_inb` reads from a port is an argument; `io_wait` only reads.
pub mod Laws
mod Tests
use knut_os.Base.{
  ℕ, ◌+◌, ◌-◌, ◌^◌, ◌==◌, ltb, leb, if◌then◌else◌, List, [], ◌∷◌, ◌++◌, Option, some, ◌>>=◌, ◌>>◌,
  require, bit_and, bit_or,
}
use knut_os.Base.Words.{u8, not32}

abbrev pub pic1 : ℕ
pic1 = 0x20

abbrev pub pic2 : ℕ
pic2 = 0xA0

abbrev pub pic1_command : ℕ
pic1_command = pic1

abbrev pub pic1_data : ℕ
pic1_data = pic1 + 1

abbrev pub pic2_command : ℕ
pic2_command = pic2

abbrev pub pic2_data : ℕ
pic2_data = pic2 + 1

abbrev pub icw4_8086 : ℕ
icw4_8086 = 0x01

-- A call of `io_outb`.
pub record Write : Type 0 where
  pub port : ℕ
  pub value : ℕ

abbrev pub outb : ℕ → ℕ → Write
outb port value = record { port = port; value = value }

unfoldable pub disable : List Write
disable = outb pic2_data 0xFF ∷ outb pic1_data 0xFF ∷ []

unfoldable pub remap : (ℕ → ℕ) → List Write
remap inb =
    let mask1 = inb pic1_data in
    let mask2 = inb pic2_data in
    outb pic1_command 0x11
    ∷ outb pic2_command 0x11
    ∷ outb pic1_data 0x20
    ∷ outb pic2_data 0x28
    ∷ outb pic1_data 0x04
    ∷ outb pic2_data 0x02
    ∷ outb pic1_data 0x01
    ∷ outb pic2_data 0x01
    ∷ outb pic1_data 0x00
    ∷ outb pic2_data 0x00
    ∷ outb pic1_data icw4_8086
    ∷ outb pic2_data icw4_8086
    ∷ outb pic1_data mask1
    ∷ outb pic2_data mask2
    ∷ []

-- The data port of the controller of a line, and the line there.
abbrev pub port_of : ℕ → ℕ
port_of irq_line = if ltb irq_line 8 then pic1_data else pic2_data

abbrev pub line_of : ℕ → ℕ
line_of irq_line = if ltb irq_line 8 then irq_line else irq_line - 8

-- `1 << irq_line` is a shift of an `int`, and a fault from 31 on.
unfoldable pub set_mask : (ℕ → ℕ) → ℕ → Option Write
set_mask inb irq_line = do
  require (ltb (line_of irq_line) 31)
  some (outb (port_of irq_line) (u8 (bit_or (inb (port_of irq_line)) (2 ^ line_of irq_line))))

pub clear_mask : (ℕ → ℕ) → ℕ → Option Write
clear_mask inb irq_line = do
  require (ltb (line_of irq_line) 31)
  some (
      outb (port_of irq_line)
        (u8 (bit_and (inb (port_of irq_line)) (not32 (2 ^ line_of irq_line)))))

unfoldable pub signal_eoi : ℕ → List Write
signal_eoi isr_number =
    if leb 40 isr_number
    then outb pic2_command 0x20 ∷ outb pic1_command 0x20 ∷ []
    else outb pic1_command 0x20 ∷ []
