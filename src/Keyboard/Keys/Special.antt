-- ===== src/Keyboard/Keys/Special.antt =====
-- src/kernel/devices/ps2/keyboard/keyboard.h: the codes of the keys without a character. The last one
-- follows `KEY_PAUSE`.
use knut_os.Base.{ℕ}

abbrev pub key_escape : ℕ
key_escape = 0x1001

abbrev pub key_f1 : ℕ
key_f1 = 0x1201

abbrev pub key_f2 : ℕ
key_f2 = 0x1202

abbrev pub key_f3 : ℕ
key_f3 = 0x1203

abbrev pub key_f4 : ℕ
key_f4 = 0x1204

abbrev pub key_f5 : ℕ
key_f5 = 0x1205

abbrev pub key_f6 : ℕ
key_f6 = 0x1206

abbrev pub key_f7 : ℕ
key_f7 = 0x1207

abbrev pub key_f8 : ℕ
key_f8 = 0x1208

abbrev pub key_f9 : ℕ
key_f9 = 0x1209

abbrev pub key_f10 : ℕ
key_f10 = 0x120a

abbrev pub key_f11 : ℕ
key_f11 = 0x120b

abbrev pub key_f12 : ℕ
key_f12 = 0x120b

abbrev pub key_kp_numlock : ℕ
key_kp_numlock = 0x300f

abbrev pub key_capslock : ℕ
key_capslock = 0x4001

abbrev pub key_lshift : ℕ
key_lshift = 0x4002

abbrev pub key_lctrl : ℕ
key_lctrl = 0x4003

abbrev pub key_lalt : ℕ
key_lalt = 0x4004

abbrev pub key_rshift : ℕ
key_rshift = 0x4006

abbrev pub key_rctrl : ℕ
key_rctrl = 0x4007

abbrev pub key_ralt : ℕ
key_ralt = 0x4008

abbrev pub key_home : ℕ
key_home = 0x400c

abbrev pub key_pageup : ℕ
key_pageup = 0x400e

abbrev pub key_scrolllock : ℕ
key_scrolllock = 0x4010

abbrev pub key_unknown : ℕ
key_unknown = 0x4012
