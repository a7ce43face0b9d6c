-- ===== src/Stivale2/Tests.antt =====
-- A list of three tags.
use knut_os.Base.{ℕ, ◌≡◌, arith, ◌==◌, if◌then◌else◌, List, [], ◌∷◌, some}
use knut_os.Stivale2.{Tag, Chain, link, end, first_with, get_tag_from, get_tag_from-first_with}

abbrev tag_at : ℕ → Tag
tag_at a =
    if a == 0x100
    then record { identifier = 7; next = 0x200 }
    else if a == 0x200
    then record { identifier = 8; next = 0x300 }
    else record { identifier = 9; next = 0 }

abbrev addresses : List ℕ
addresses = 0x100 ∷ 0x200 ∷ 0x300 ∷ []

chain : Chain tag_at 0x100 addresses
chain = link (omega arith) (link (omega arith) (link (omega arith) end))

get_tag_from-first_with_example :
    get_tag_from 4 tag_at 8 0x100 ≡ some (first_with tag_at 8 addresses)
get_tag_from-first_with_example = get_tag_from-first_with 4 tag_at 8 chain (omega arith)
