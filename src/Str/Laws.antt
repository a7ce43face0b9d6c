-- ===== src/Str/Laws.antt =====
-- What `memset` leaves behind, and when `memcmp` finds two blocks equal.
use knut_os.Base.{
  ℕ, zero, suc, ◌≤◌, ◌≡◌, ◌↔◌, refl, arith, List, [], ◌∷◌, ◌++◌, some, length, replicate,
}
use native.Mathlib.Decide.{ℕ_discrete}
use knut_os.Base.Words.{u8}
use knut_os.Base.Int.{ℤ, pos, sub_ℕ}
use knut_os.Str.{memset, memcmp}

abbrev pub drop {ℓ} : {A : Type ℓ} → ℕ → List A → List A
drop zero xs = xs
drop (suc n) [] = []
drop (suc n) (x ∷ xs) = drop n xs

-- `memset` overwrites exactly the first `size` bytes with the low byte of `value`.
pub memset_lem :
    (block : List ℕ) (value size : ℕ)
    → size ≤ length block
    → memset block value size ≡ some (replicate size (u8 value) ++ drop size block)
unfolding memset
memset_lem block value zero h = refl
memset_lem [] value (suc size) h = elim h [ ]
memset_lem (x ∷ block) value (suc size) h = rw (memset_lem block value size (omega arith))

abbrev pub take {ℓ} : {A : Type ℓ} → ℕ → List A → List A
take zero xs = []
take (suc n) [] = []
take (suc n) (x ∷ xs) = x ∷ take n xs

-- On blocks that are long enough `memcmp` returns, and returns 0 exactly when the first `n` bytes
-- agree.
pub memcmp-zero_iff :
    (s t : List ℕ) (n : ℕ)
    → n ≤ length s
    → n ≤ length t
    → (d : ℤ) × (memcmp s t n ≡ some d) × ((d ≡ pos 0) ↔ (take n s ≡ take n t))
unfolding memcmp
memcmp-zero_iff s t zero hs ht = (pos 0, refl, ((λ _. refl), (λ _. refl)))
memcmp-zero_iff [] t (suc n) hs ht = elim hs [ ]
memcmp-zero_iff (x ∷ s) [] (suc n) hs ht = elim ht [ ]
memcmp-zero_iff (x ∷ s) (y ∷ t) (suc n) hs ht =
    let (d, run, same) = memcmp-zero_iff s t n (omega arith) (omega arith) in
    elim (ℕ_discrete x y) [
      | yes e ↦ (d, ground arith, ((λ h. let i = same.0 h in cc), (λ h. same.1 (cc))))
      | no ne ↦ (sub_ℕ x y, ground arith, ((λ h. ground arith), (λ h. absurd (ne (cc)))))
    ]
