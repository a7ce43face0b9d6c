-- ===== src/Stivale2.antt =====
-- `stivale2_get_tag` of src/kernel/boot/stivale2_boot.c: the list of tags that the boot loader leaves
-- in memory.
mod Tests
use native.Mathlib.Decide.{ℕ_discrete}
use knut_os.Base.{
  ℕ, zero, suc, ◌≤◌, ◌<◌, ◌≡◌, ◌≢◌, refl, ◌∙◌, arith, ◌==◌, if◌then◌else◌, List, [], ◌∷◌, length,
  Option, none, some,
}

-- `struct stivale2_tag`.
pub record Tag : Type 0 where
  pub identifier : ℕ
  pub next : ℕ

-- The loop, on fuel, from the tag at `current`; `none` where it goes on.
pub get_tag_from : ℕ → (ℕ → Tag) → ℕ → ℕ → Option ℕ
get_tag_from zero tag_at id current = none
get_tag_from (suc fuel) tag_at id current =
    let rest = get_tag_from fuel tag_at id (tag_at current).next in
    if current == 0
    then some 0
    else if (tag_at current).identifier == id
    then some current
    else rest

-- The tags at the addresses of a list follow one another from `first` to the end of the list.
pub data Chain (tag_at : ℕ → Tag) : ℕ → List ℕ → Type 0 where
  end : Chain tag_at 0 []
  link :
      {first : ℕ} {rest : List ℕ}
      → first ≢ 0
      → Chain tag_at (tag_at first).next rest
      → Chain tag_at first (first ∷ rest)

-- The first address of a list whose tag has the identifier, or NULL.
abbrev pub first_with : (ℕ → Tag) → ℕ → List ℕ → ℕ
first_with tag_at id [] = 0
first_with tag_at id (a ∷ addresses) =
    if (tag_at a).identifier == id then a else first_with tag_at id addresses

get_tag_from-stop :
    (fuel : ℕ) (tag_at : ℕ → Tag) (id : ℕ) → get_tag_from (suc fuel) tag_at id 0 ≡ some 0
unfolding get_tag_from
get_tag_from-stop fuel tag_at id = refl

get_tag_from-hit :
    (fuel : ℕ) (tag_at : ℕ → Tag) (id current : ℕ)
    → current ≢ 0
    → (tag_at current).identifier ≡ id
    → get_tag_from (suc fuel) tag_at id current ≡ some current
unfolding get_tag_from
get_tag_from-hit fuel tag_at id current ne hit = ground (arith, ne, hit)

get_tag_from-miss :
    (fuel : ℕ) (tag_at : ℕ → Tag) (id current : ℕ)
    → current ≢ 0
    → (tag_at current).identifier ≢ id
    → get_tag_from (suc fuel) tag_at id current ≡ get_tag_from fuel tag_at id (tag_at current).next
unfolding get_tag_from
get_tag_from-miss fuel tag_at id current ne miss = ground (arith, ne, miss)

-- On a list of tags that ends, `stivale2_get_tag` comes to an end after one round for each tag at
-- most, and gives the first tag with the identifier, or NULL if there is none.
pub get_tag_from-first_with :
    (fuel : ℕ) (tag_at : ℕ → Tag) (id : ℕ) {first : ℕ} {addresses : List ℕ}
    → Chain tag_at first addresses
    → length addresses < fuel
    → get_tag_from fuel tag_at id first ≡ some (first_with tag_at id addresses)
get_tag_from-first_with zero tag_at id chain enough = elim enough [ ]
get_tag_from-first_with (suc fuel) tag_at id end enough = get_tag_from-stop fuel tag_at id
get_tag_from-first_with (suc fuel) tag_at id (link {first = first} {rest = rest} ne chain) enough =
    elim (ℕ_discrete (tag_at first).identifier id) [
      | yes hit ↦ get_tag_from-hit fuel tag_at id first ne hit ∙ ground (arith, hit)
      | no miss ↦
          get_tag_from-miss fuel tag_at id first ne miss
          ∙ get_tag_from-first_with fuel tag_at id chain (omega (arith, enough))
          ∙ ground (arith, miss)
    ]
