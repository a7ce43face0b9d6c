-- ===== src/Lib.antt =====
-- KnutOS, the core of a kernel for x86-64: memory from the map that the boot loader hands over up to
-- `kmalloc`, page tables, interrupts, the keyboard, the console with its shell, and the firmware's
-- tables.
--
-- The parts and their files. Paths are from the root of the repository; each module's children hold
-- its theorems, and its Tests its examples.
--   Base      shared names: Boolean tests, lists as C arrays, `Option` as a run that may fault, machine
--             words, an integer type, lists of owned things
--   Bits      the laws of `&`, `|` and `~` on numbers of any width
--   Str       src/libs/libk/string/string.c: `memset`, `memcmp`
--   Mem       src/kernel/memory/mem.h: alignment, pages, addresses of the higher half
--   Power     src/libs/libk/math/math.c: `pow`
--   Bitmap    src/libs/libk/alloc/bitmap.c: one bit for each page
--   Pmm       src/kernel/memory/pmm.c: the allocator of pages. `alloc` is `pmm_alloc`, `free` is
--             `pmm_free`, and Pmm.Boot has `pmm_init`
--   Slab      src/kernel/memory/slab.c: the allocator of small objects, over Pmm. `alloc` is
--             `slab_alloc`, `free` is `slab_free`, and Slab.Init has `slab_init`
--   Kmalloc   src/libs/libk/alloc/kmalloc.c: `kmalloc` and `kfree`, over Pmm and Slab
--   Vmm       src/kernel/memory/vmm.c: page tables, over Pmm
--   Keyboard  src/kernel/devices/ps2/keyboard/keyboard.c: scan codes to characters
--   Framebuffer  src/kernel/devices/framebuffer/framebuffer.c: pixels, lines and circles, and the
--             console. Framebuffer.Cells has the grid of cells that the console keeps to
--   Shell     src/kernel/shell/shell_screen.c: the prompt and its barrier, over Framebuffer and Keyboard
--   Serial    src/kernel/devices/serial/serial.c: the serial port, by polling
--   Log       src/libs/libk/log/log.c, debug/debug.c and stdio/stdio.c: messages, over Serial and
--             Framebuffer
--   Pic       src/kernel/devices/pic/pic.c: the interrupt controllers
--   Idt       src/kernel/interrupts/idt.c: the interrupt table, over Pic
--   Interrupts  src/kernel/interrupts/interrupts.c: the dispatch, over Keyboard and Pic
--   Gdt       src/kernel/gdt/gdt.c: the segment table
--   Cpu       src/kernel/devices/cpu/cpu.h: CPUID
--   Apic      src/kernel/devices/apic/apic.c: the newer interrupt controllers, over Cpu and Pic
--   Acpi      src/kernel/firmware/acpi/acpi.c and tables/rsdp.c: checksums and the search for a table
--   Madt      src/kernel/firmware/acpi/tables/madt.c: the records of the interrupt controllers
--   Stivale2  src/kernel/boot/stivale2_boot.c: the boot loader's tags
--   Firmware  `acpi_init` and `madt_init` of src/kernel/firmware/acpi/, from the bytes of memory to the
--             records of the interrupt controllers, over Stivale2, Acpi, Madt and Kmalloc
--
-- How the code is read. The globals of a file are a record that its functions take and give back. A
-- run that C leaves undefined, such as an access outside an array or a write through NULL, is
-- `none`, and so is a loop that goes on when its fuel is used up. Words are numbers with the
-- wrap-around written out. A pointer is a number, and 0 is NULL. Whether 5-level paging is on, what
-- ports read, what firmware and boot loader leave in memory, and what CPUID gives are arguments.
-- The log lines of the other parts are left out. `ssfn_putc` and `ssfn_utf8` of the vendored font
-- renderer and `vsnprintf` of the vendored printf are arguments too; Framebuffer.Cells.Renders says
-- what is relied on of the first.
--
-- Bounds and fuel. `pow` has its exponent as fuel, which is halved. `next_pow_of_two` has 63 rounds,
-- one for each power of two from 2 to 2^63. A checksum has 256 rounds, since its counter is a
-- `uint8_t`. The loop over the MADT has the length of the table as fuel, and its records are two bytes
-- long at least. The loop of a line has the distance of its ends as fuel, that of a circle its radius.
-- Bitmaps have up to 2^28 bytes, so that the number of a page is an `int`.
--
-- Not modelled: the start-up sequence of src/kernel/kernel.c, which calls the parts in order; the
-- CPU's vendor string; the logo and the boot screen, which only print; assembly; and the vendored
-- printf, font renderer and boot protocol header.
pub mod Base
pub mod Bits
pub mod Str
pub mod Mem
pub mod Power
pub mod Bitmap
pub mod Pmm
pub mod Slab
pub mod Kmalloc
pub mod Vmm
pub mod Keyboard
pub mod Framebuffer
pub mod Shell
pub mod Serial
pub mod Log
pub mod Pic
pub mod Idt
pub mod Interrupts
pub mod Gdt
pub mod Cpu
pub mod Apic
pub mod Acpi
pub mod Madt
pub mod Stivale2
pub mod Firmware
