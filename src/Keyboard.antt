-- ===== src/Keyboard.antt =====
-- src/kernel/devices/ps2/keyboard/keyboard.c and keyboard.h: scan codes become keys and characters.
pub mod Keys
pub mod Ascii
pub mod Modifiers
pub mod Interrupts
pub mod Commands
mod Tests
use knut_os.Base.{
  ℕ, zero, suc, ◌-◌, ◌==◌, leb, ltb, if◌then◌else◌, Bool, true, false, not, ◌&&◌, ◌||◌, List, [],
  ◌∷◌, Option, none, some, ◌>>=◌, get_elem?, bit_and,
}
use knut_os.Base.Words.{u8}
use Keys.{
  key_0, key_1, key_2, key_3, key_4, key_5, key_6, key_7, key_8, key_9, key_a, key_ampersand,
  key_asterisk, key_at, key_b, key_backslash, key_backspace, key_bar, key_c, key_capslock,
  key_carret, key_colon, key_comma, key_d, key_dollar, key_dot, key_e, key_equal, key_escape,
  key_exclamation, key_f, key_f1, key_f10, key_f11, key_f12, key_f2, key_f3, key_f4, key_f5, key_f6,
  key_f7, key_f8, key_f9, key_g, key_grave, key_greater, key_h, key_hash, key_home, key_i, key_j,
  key_k, key_kp_0, key_kp_2, key_kp_3, key_kp_8, key_kp_asterisk, key_kp_decimal, key_kp_numlock,
  key_l, key_lalt, key_lctrl, key_leftbracket, key_leftcurl, key_leftparenthesis, key_less,
  key_lshift, key_m, key_minus, key_n, key_o, key_p, key_pageup, key_percent, key_plus, key_q,
  key_question, key_quote, key_quotedouble, key_r, key_ralt, key_rctrl, key_return,
  key_rightbracket, key_rightcurl, key_rightparenthesis, key_rshift, key_s, key_scrolllock,
  key_semicolon, key_slash, key_space, key_t, key_tab, key_tilde, key_u, key_underscore,
  key_unknown, key_v, key_w, key_x, key_y, key_z,
}

-- The flags are `uint8_t` variables that only ever hold 0 and 1.
pub record Keyboard : Type 0 where
  pub is_keyboard_active : Bool
  pub ctrl : Bool
  pub alt : Bool
  pub shift : Bool
  pub capslock : Bool
  pub numlock : Bool
  pub scrolllock : Bool

-- `KEY_INFO_t`.
pub record KeyInfo : Type 0 where
  pub keycode : ℕ
  pub ascii_character : ℕ

-- By scan code.
abbrev pub standard_keycodes : List ℕ
standard_keycodes =
    key_unknown ∷ key_escape ∷ key_1 ∷ key_2 ∷ key_3 ∷ key_4 ∷ key_5 ∷ key_6 ∷ key_7 ∷ key_8 ∷ key_9
    ∷ key_0 ∷ key_minus ∷ key_equal ∷ key_backspace ∷ key_tab ∷ key_q ∷ key_w ∷ key_e ∷ key_r
    ∷ key_t ∷ key_y ∷ key_u ∷ key_i ∷ key_o ∷ key_p ∷ key_leftbracket ∷ key_rightbracket
    ∷ key_return ∷ key_lctrl ∷ key_a ∷ key_s ∷ key_d ∷ key_f ∷ key_g ∷ key_h ∷ key_j ∷ key_k ∷ key_l
    ∷ key_semicolon ∷ key_quote ∷ key_grave ∷ key_lshift ∷ key_backslash ∷ key_z ∷ key_x ∷ key_c
    ∷ key_v ∷ key_b ∷ key_n ∷ key_m ∷ key_comma ∷ key_dot ∷ key_slash ∷ key_rshift ∷ key_kp_asterisk
    ∷ key_ralt ∷ key_space ∷ key_capslock ∷ key_f1 ∷ key_f2 ∷ key_f3 ∷ key_f4 ∷ key_f5 ∷ key_f6
    ∷ key_f7 ∷ key_f8 ∷ key_f9 ∷ key_f10 ∷ key_kp_numlock ∷ key_scrolllock ∷ key_home ∷ key_kp_8
    ∷ key_pageup ∷ key_kp_2 ∷ key_kp_3 ∷ key_kp_0 ∷ key_kp_decimal ∷ key_unknown ∷ key_unknown
    ∷ key_unknown ∷ key_f11 ∷ key_f12 ∷ []

-- The two conversions of `keycode_to_ascii`.
abbrev pub upper : ℕ → ℕ
upper character = if leb 97 character && leb character 122 then character - 32 else character

abbrev pub shifted : ℕ → ℕ
shifted character =
    if character == key_0
    then key_rightparenthesis
    else if character == key_1
    then key_exclamation
    else if character == key_2
    then key_at
    else if character == key_3
    then key_hash
    else if character == key_4
    then key_dollar
    else if character == key_5
    then key_percent
    else if character == key_6
    then key_carret
    else if character == key_7
    then key_ampersand
    else if character == key_8
    then key_asterisk
    else if character == key_9
    then key_leftparenthesis
    else if character == key_comma
    then key_less
    else if character == key_dot
    then key_greater
    else if character == key_slash
    then key_question
    else if character == key_semicolon
    then key_colon
    else if character == key_quote
    then key_quotedouble
    else if character == key_leftbracket
    then key_leftcurl
    else if character == key_rightbracket
    then key_rightcurl
    else if character == key_grave
    then key_tilde
    else if character == key_minus
    then key_underscore
    else if character == key_equal
    then key_plus
    else if character == key_backslash
    then key_bar
    else character

unfoldable pub keycode_to_ascii : Keyboard → ℕ → ℕ
keycode_to_ascii k keycode =
    let character = u8 keycode in
    if k.shift && k.capslock
    then shifted character
    else if k.shift && not k.capslock
    then shifted (upper character)
    else if not k.shift && k.capslock
    then upper character
    else character

-- What the handler does with the key of a break code, and with that of a make code: the flags, and
-- the character, 0 where there is none.
pub release : Keyboard → ℕ → Keyboard
release k key =
    if key == key_lctrl || key == key_rctrl
    then record k { ctrl = false }
    else if key == key_lalt || key == key_ralt
    then record k { alt = false }
    else if key == key_lshift || key == key_rshift
    then record k { shift = false }
    else k

pub press : Keyboard → ℕ → Keyboard × ℕ
press k key =
    if key == key_lctrl || key == key_rctrl
    then (record k { ctrl = true }, 0)
    else if key == key_lalt || key == key_ralt
    then (record k { alt = true }, 0)
    else if key == key_lshift || key == key_rshift
    then (record k { shift = true }, 0)
    else if key == key_capslock
    then (record k { capslock = not k.capslock }, 0)
    else if key == key_kp_numlock
    then (record k { numlock = not k.numlock }, 0)
    else if key == key_scrolllock
    then (record k { scrolllock = not k.scrolllock }, 0)
    else if leb key 0x7F
    then (k, keycode_to_ascii k key)
    else (k, 0)

-- The flags afterwards, and what `final_handler` is called with. `none` is a read past the end of
-- the table. The first function is what follows the check that the interrupt is to be processed.
pub process : Keyboard → ℕ → Option (Keyboard × KeyInfo)
process k scancode =
    let broken = get_elem? standard_keycodes (scancode - 0x80) in
    let made = get_elem? standard_keycodes scancode in
    if not (bit_and scancode 0x80 == 0)
    then (do
      key ← broken
      some (release k key, record { keycode = key_unknown; ascii_character = 0 }))
    else (do
      key ← made
      let pressed = press k key
      some (pressed.0, record { keycode = key; ascii_character = pressed.1 }))

pub irq_handler : Keyboard → ℕ → Option (Keyboard × Option KeyInfo)
irq_handler k scancode =
    let processed = process k scancode in
    if not k.is_keyboard_active
    then some (k, none)
    else (do (k', info) ← processed; some (k', some info))

pub activate_keyboard_processing : Keyboard → Keyboard
activate_keyboard_processing k = record k { is_keyboard_active = true }

pub disable_keyboard_processing : Keyboard → Keyboard
disable_keyboard_processing k = record k { is_keyboard_active = false }
