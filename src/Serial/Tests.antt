-- ===== src/Serial/Tests.antt =====
-- A port that is busy now and then.
use knut_os.Base.{ℕ, ◌≡◌, refl, List, [], ◌∷◌, some}
use knut_os.Pic.{outb}
use knut_os.Serial.{com1, send_string, set_color, recv}

abbrev polls : List ℕ
polls = 0 ∷ 0x60 ∷ 0x40 ∷ 0 ∷ 0x20 ∷ 0x60 ∷ []

-- "OK" is no colour code.
no_color : set_color polls (79 ∷ 75 ∷ 0 ∷ []) ≡ some ([], polls)
unfolding set_color
no_color = refl

received : recv (0x60 ∷ 0x61 ∷ []) 104 ≡ some (104, [])
unfolding recv
received = refl

two_bytes :
    send_string polls (79 ∷ 75 ∷ 0 ∷ 33 ∷ []) ≡ some (outb com1 79 ∷ outb com1 75 ∷ [], 0x60 ∷ [])
unfolding send_string
two_bytes = refl
