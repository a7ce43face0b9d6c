-- ===== src/Base/All.antt =====
-- Predicates on every element of a list, and lists with no two elements alike.
use knut_os.Base.Lists.{get_elem?}
use Prim.Native.Nat.{ℕ, zero, suc}
use mathlib.Core.Path.{◌≡◌, sym}
use mathlib.Core.Logic.{◌≢◌}
use mathlib.Core.List.{List, [], ◌∷◌}
use mathlib.Core.Option.{some}

abbrev pub All {ℓ κ} : {A : Type ℓ} → (A → Type κ) → List A → Type κ
All P [] = Unit
All P (x ∷ xs) = P x × All P xs

-- No two elements have the same key.
abbrev pub Distinct {ℓ} : {A : Type ℓ} → (A → ℕ) → List A → Type 0
Distinct key [] = Unit
Distinct key (x ∷ xs) = All (λ y. key x ≢ key y) xs × Distinct key xs

abbrev pub remove {ℓ} : {A : Type ℓ} → List A → ℕ → List A
remove [] i = []
remove (x ∷ xs) zero = xs
remove (x ∷ xs) (suc i) = x ∷ remove xs i

module _ {ℓ} {A : Type ℓ} where
  pub All-map {κ μ} :
      (P : A → Type κ) (Q : A → Type μ) (f : (x : A) → P x → Q x) (xs : List A)
      → All P xs
      → All Q xs
  All-map P Q f [] h = tt
  All-map P Q f (x ∷ xs) h = (f x h.0, All-map P Q f xs h.1)

  pub All-zip {κ μ} :
      (P : A → Type κ) (Q : A → Type μ) (xs : List A)
      → All P xs
      → All Q xs
      → All (λ x. P x × Q x) xs
  All-zip P Q [] h k = tt
  All-zip P Q (x ∷ xs) h k = ((h.0, k.0), All-zip P Q xs h.1 k.1)

  pub All-remove {κ} : (P : A → Type κ) (xs : List A) (i : ℕ) → All P xs → All P (remove xs i)
  All-remove P [] i h = h
  All-remove P (x ∷ xs) zero h = h.1
  All-remove P (x ∷ xs) (suc i) h = (h.0, All-remove P xs i h.1)

  pub All-get {κ} :
      (P : A → Type κ) (xs : List A) (i : ℕ) {x : A} → All P xs → get_elem? xs i ≡ some x → P x
  All-get P [] i h e = cc
  All-get P (y ∷ xs) zero {x} h e = let same : y ≡ x = cc in rw (← same) h.0
  All-get P (y ∷ xs) (suc i) h e = All-get P xs i h.1 e

  module _ (key : A → ℕ) where
    pub Distinct-remove : (xs : List A) (i : ℕ) → Distinct key xs → Distinct key (remove xs i)
    Distinct-remove [] i h = h
    Distinct-remove (x ∷ xs) zero h = h.1
    Distinct-remove (x ∷ xs) (suc i) h =
        (All-remove (λ y. key x ≢ key y) xs i h.0, Distinct-remove xs i h.1)

    -- The element that is taken out has a key of its own.
    pub removed-ne :
        (xs : List A) (i : ℕ) {x : A}
        → Distinct key xs
        → get_elem? xs i ≡ some x
        → All (λ y. key x ≢ key y) (remove xs i)
    removed-ne [] i h e = cc
    removed-ne (y ∷ xs) zero {x} h e = let same : y ≡ x = cc in rw (← same) h.0
    removed-ne (y ∷ xs) (suc i) {x} h e =
        ((λ r. All-get (λ z. key y ≢ key z) xs i h.0 e (sym r)), removed-ne xs i h.1 e)

  -- Elements at two places have two keys.
  pub Distinct-get :
      (key : A → ℕ) (xs : List A) (i j : ℕ) {x y : A}
      → Distinct key xs
      → get_elem? xs i ≡ some x
      → get_elem? xs j ≡ some y
      → i ≢ j
      → key x ≢ key y
  Distinct-get key [] i j h p q ne = cc
  Distinct-get key (z ∷ xs) zero zero h p q ne = absurd (ne (cc))
  Distinct-get key (z ∷ xs) zero (suc j) {x} {y} h p q ne =
      let same : z ≡ x = cc in rw (← same) (All-get (λ w. key z ≢ key w) xs j h.0 q)
  Distinct-get key (z ∷ xs) (suc i) zero {x} {y} h p q ne =
      let same : z ≡ y = cc in rw (← same) (λ e. All-get (λ w. key z ≢ key w) xs i h.0 p (sym e))
  Distinct-get key (z ∷ xs) (suc i) (suc j) h p q ne =
      Distinct-get key xs i j h.1 p q (λ e. ne (cc))
