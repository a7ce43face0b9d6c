-- ===== src/Base/Fault.antt =====
-- Code that may run into undefined behaviour: `none` is an access outside an object, a write
-- through NULL, or arithmetic that the machine traps.
use mathlib.Core.Path.{◌≡◌, refl}
use mathlib.Core.Option.{Option, none, some}
use mathlib.Core.Bool.{Bool, true, false}

infixl 5 ◌>>=◌ ◌>>◌
abbrev pub ◌>>=◌ {ℓ κ} : {A : Type ℓ} {B : Type κ} → Option A → (A → Option B) → Option B
none >>= f = none
some a >>= f = f a

abbrev pub ◌>>◌ {ℓ} : {B : Type ℓ} → Option (Unit {0}) → Option B → Option B
m >> k = m >>= λ _. k

abbrev pub require : Bool → Option (Unit {0})
require true = some tt
require false = none

-- The first step of a run that does not fault.
pub >>=-eq-some {ℓ κ} :
    {A : Type ℓ} {B : Type κ} (m : Option A) (f : A → Option B) {b : B}
    → (m >>= f) ≡ some b
    → (a : A) × (m ≡ some a) × (f a ≡ some b)
>>=-eq-some none f h = cc
>>=-eq-some (some a) f h = (a, refl, h)

pub >>=-some_elim {ℓ κ μ} :
    {A : Type ℓ} {B : Type κ} {C : Type μ} (m : Option A) {f : A → Option B} {b : B}
    → (m >>= f) ≡ some b
    → ((a : A) → m ≡ some a → f a ≡ some b → C)
    → C
>>=-some_elim m {f} h k = let (a, first, rest) = >>=-eq-some m f h in k a first rest

-- Two pure steps in a row are one.
pub >>=-some {ℓ κ μ} :
    {A : Type ℓ} {B : Type κ} {C : Type μ} (m : Option A) (f : A → B) (g : B → C)
    → ((m >>= λ a. some (f a)) >>= λ b. some (g b)) ≡ (m >>= λ a. some (g (f a)))
>>=-some none f g = refl
>>=-some (some a) f g = refl

-- A pure step is run together with the one after it.
pub >>=-pure {ℓ κ μ} :
    {A : Type ℓ} {B : Type κ} {C : Type μ} (m : Option A) (f : A → B) (g : B → Option C)
    → ((m >>= λ a. some (f a)) >>= g) ≡ (m >>= λ a. g (f a))
>>=-pure none f g = refl
>>=-pure (some a) f g = refl
