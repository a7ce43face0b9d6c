-- ===== src/Madt/Tests.antt =====
-- Two local controllers, an I/O controller and a record of another kind between them.
use knut_os.Base.{ℕ, ◌==◌, if◌then◌else◌, List, [], ◌∷◌}
use knut_os.Madt.Records.{Entry}

abbrev entries : List Entry
entries =
    record { kind = 0; size = 8 }
    ∷ record { kind = 1; size = 6 }
    ∷ record { kind = 5; size = 12 }
    ∷ record { kind = 0; size = 8 }
    ∷ []

abbrev byte : ℕ → ℕ
byte at =
    if at == 0x102D
    then 8
    else if at == 0x1034
    then 1
    else if at == 0x1035
    then 6
    else if at == 0x103A
    then 5
    else if at == 0x103B
    then 12
    else if at == 0x1047
    then 8
    else 0
