-- ===== src/Keyboard/Keys/Symbols.antt =====
-- src/kernel/devices/ps2/keyboard/keyboard.h: the codes of symbols and of the keypad, which are
-- ASCII.
use knut_os.Base.{ℕ}

abbrev pub key_return : ℕ
key_return = 13

abbrev pub key_backspace : ℕ
key_backspace = 8

abbrev pub key_dot : ℕ
key_dot = 46

abbrev pub key_comma : ℕ
key_comma = 44

abbrev pub key_colon : ℕ
key_colon = 58

abbrev pub key_semicolon : ℕ
key_semicolon = 59

abbrev pub key_slash : ℕ
key_slash = 47

abbrev pub key_backslash : ℕ
key_backslash = 92

abbrev pub key_plus : ℕ
key_plus = 43

abbrev pub key_minus : ℕ
key_minus = 45

abbrev pub key_asterisk : ℕ
key_asterisk = 42

abbrev pub key_exclamation : ℕ
key_exclamation = 33

abbrev pub key_question : ℕ
key_question = 63

abbrev pub key_quotedouble : ℕ
key_quotedouble = 34

abbrev pub key_quote : ℕ
key_quote = 39

abbrev pub key_equal : ℕ
key_equal = 61

abbrev pub key_hash : ℕ
key_hash = 35

abbrev pub key_percent : ℕ
key_percent = 37

abbrev pub key_ampersand : ℕ
key_ampersand = 38

abbrev pub key_underscore : ℕ
key_underscore = 95

abbrev pub key_leftparenthesis : ℕ
key_leftparenthesis = 40

abbrev pub key_rightparenthesis : ℕ
key_rightparenthesis = 41

abbrev pub key_leftbracket : ℕ
key_leftbracket = 91

abbrev pub key_rightbracket : ℕ
key_rightbracket = 93

abbrev pub key_leftcurl : ℕ
key_leftcurl = 123

abbrev pub key_rightcurl : ℕ
key_rightcurl = 125

abbrev pub key_dollar : ℕ
key_dollar = 36

abbrev pub key_less : ℕ
key_less = 60

abbrev pub key_greater : ℕ
key_greater = 62

abbrev pub key_bar : ℕ
key_bar = 124

abbrev pub key_grave : ℕ
key_grave = 96

abbrev pub key_tilde : ℕ
key_tilde = 126

abbrev pub key_at : ℕ
key_at = 64

abbrev pub key_carret : ℕ
key_carret = 94

abbrev pub key_kp_0 : ℕ
key_kp_0 = 48

abbrev pub key_kp_2 : ℕ
key_kp_2 = 50

abbrev pub key_kp_3 : ℕ
key_kp_3 = 51

abbrev pub key_kp_8 : ℕ
key_kp_8 = 56

abbrev pub key_kp_decimal : ℕ
key_kp_decimal = 46

abbrev pub key_kp_asterisk : ℕ
key_kp_asterisk = 42

abbrev pub key_tab : ℕ
key_tab = 9
