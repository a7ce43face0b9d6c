-- ===== src/Keyboard/Keys/Letters.antt =====
-- src/kernel/devices/ps2/keyboard/keyboard.h: the codes of letters and digits, which are ASCII.
use knut_os.Base.{ℕ}

abbrev pub key_space : ℕ
key_space = 32

abbrev pub key_0 : ℕ
key_0 = 48

abbrev pub key_1 : ℕ
key_1 = 49

abbrev pub key_2 : ℕ
key_2 = 50

abbrev pub key_3 : ℕ
key_3 = 51

abbrev pub key_4 : ℕ
key_4 = 52

abbrev pub key_5 : ℕ
key_5 = 53

abbrev pub key_6 : ℕ
key_6 = 54

abbrev pub key_7 : ℕ
key_7 = 55

abbrev pub key_8 : ℕ
key_8 = 56

abbrev pub key_9 : ℕ
key_9 = 57

abbrev pub key_a : ℕ
key_a = 97

abbrev pub key_b : ℕ
key_b = 98

abbrev pub key_c : ℕ
key_c = 99

abbrev pub key_d : ℕ
key_d = 100

abbrev pub key_e : ℕ
key_e = 101

abbrev pub key_f : ℕ
key_f = 102

abbrev pub key_g : ℕ
key_g = 103

abbrev pub key_h : ℕ
key_h = 104

abbrev pub key_i : ℕ
key_i = 105

abbrev pub key_j : ℕ
key_j = 106

abbrev pub key_k : ℕ
key_k = 107

abbrev pub key_l : ℕ
key_l = 108

abbrev pub key_m : ℕ
key_m = 109

abbrev pub key_n : ℕ
key_n = 110

abbrev pub key_o : ℕ
key_o = 111

abbrev pub key_p : ℕ
key_p = 112

abbrev pub key_q : ℕ
key_q = 113

abbrev pub key_r : ℕ
key_r = 114

abbrev pub key_s : ℕ
key_s = 115

abbrev pub key_t : ℕ
key_t = 116

abbrev pub key_u : ℕ
key_u = 117

abbrev pub key_v : ℕ
key_v = 118

abbrev pub key_w : ℕ
key_w = 119

abbrev pub key_x : ℕ
key_x = 120

abbrev pub key_y : ℕ
key_y = 121

abbrev pub key_z : ℕ
key_z = 122
