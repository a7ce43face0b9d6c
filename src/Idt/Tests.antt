-- ===== src/Idt/Tests.antt =====
-- Handlers 16 bytes apart.
use knut_os.Base.{ℕ, ◌+◌, ◌*◌, ◌%◌}
use knut_os.Idt.{Idt}

abbrev handlers : ℕ → ℕ
handlers v = 0xFFFFFFFF80001000 + v % 256 * 16
