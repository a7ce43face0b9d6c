-- ===== src/Keyboard/Keys.antt =====
-- `KEYCODE_t` of src/kernel/devices/ps2/keyboard/keyboard.h, as far as the driver uses it.
mod Letters
mod Symbols
mod Special
pub use Letters.*
pub use Symbols.*
pub use Special.*
