-- ===== src/Keyboard/Ascii.antt =====
-- `keycode_to_ascii` is the US layout.
use knut_os.Base.{
  ℕ, ◌-◌, ◌<◌, ◌≡◌, refl, ◌∙◌, ◌==◌, ==_iff, leb, if◌then◌else◌, Bool, true, false, ◌&&◌, List, [],
  ◌∷◌, passes, passes-at,
}
use knut_os.Keyboard.{Keyboard, keycode_to_ascii}

-- The keys with two characters, in the order of the keyboard's rows: `1234567890-=[]\;',./ and what
-- stands above them, ~!@#$%^&*()_+{}|:"<>?
abbrev plain_row : List ℕ
plain_row =
    96 ∷ 49 ∷ 50 ∷ 51 ∷ 52 ∷ 53 ∷ 54 ∷ 55 ∷ 56 ∷ 57 ∷ 48 ∷ 45 ∷ 61 ∷ 91 ∷ 93 ∷ 92 ∷ 59 ∷ 39 ∷ 44
    ∷ 46 ∷ 47 ∷ []

abbrev upper_row : List ℕ
upper_row =
    126 ∷ 33 ∷ 64 ∷ 35 ∷ 36 ∷ 37 ∷ 94 ∷ 38 ∷ 42 ∷ 40 ∷ 41 ∷ 95 ∷ 43 ∷ 123 ∷ 125 ∷ 124 ∷ 58 ∷ 34 ∷ 60
    ∷ 62 ∷ 63 ∷ []

abbrev above : List ℕ → List ℕ → ℕ → ℕ
above [] uppers c = c
above (p ∷ plains) [] c = c
above (p ∷ plains) (u ∷ uppers) c = if c == p then u else above plains uppers c

abbrev is_letter : ℕ → Bool
is_letter c = leb 97 c && leb c 122

-- A letter is a capital under exactly one of shift and caps lock; shift alone moves the other keys.
abbrev pub us_layout : Bool → Bool → ℕ → ℕ
us_layout shift capslock c =
    if is_letter c
    then (if shift then (if capslock then c else c - 32) else (if capslock then c - 32 else c))
    else if shift
    then above plain_row upper_row c
    else c

abbrev flagged : Bool → Bool → Keyboard
flagged shift capslock = record {
  is_keyboard_active = true;
  ctrl = false;
  alt = false;
  shift = shift;
  capslock = capslock;
  numlock = false;
  scrolllock = false;
}

abbrev agrees : Bool → Bool → ℕ → Bool
agrees shift capslock c = keycode_to_ascii (flagged shift capslock) c == us_layout shift capslock c

all_agree : (shift capslock : Bool) → passes (agrees shift capslock) 128 ≡ true
unfolding passes keycode_to_ascii
all_agree true true = refl
all_agree true false = refl
all_agree false true = refl
all_agree false false = refl

only_flags :
    (k : Keyboard) (c : ℕ) → keycode_to_ascii k c ≡ keycode_to_ascii (flagged k.shift k.capslock) c
unfolding keycode_to_ascii
only_flags k c = refl

-- For every key code that is ASCII, the character is the one of the US layout: shift and caps lock
-- cancel out on letters, and caps lock has no effect on the other keys.
pub keycode_to_ascii-us_layout :
    (k : Keyboard) (c : ℕ) → c < 128 → keycode_to_ascii k c ≡ us_layout k.shift k.capslock c
keycode_to_ascii-us_layout k c small =
    only_flags k c
    ∙ (==_iff _ _).0
        (passes-at (agrees k.shift k.capslock) 128 (all_agree k.shift k.capslock) small)
