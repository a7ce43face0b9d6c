-- ===== src/Power/Laws.antt =====
-- `pow` computes powers, as long as they fit.
use native.Mathlib.Decide.{ℕ_discrete, dec_le}
use native.Mathlib.Nat.{pow-suc, pow-zero, one-le-pow, mul_assoc}
use knut_os.Base.{
  ℕ, zero, suc, ◌+◌, ◌-◌, ◌*◌, ◌/◌, ◌%◌, ◌^◌, ◌≤◌, ◌<◌, ◌≡◌, ◌≢◌, refl, ap, sym, ◌∙◌, arith, none,
  some,
}
use knut_os.Base.Int.{pos, negsuc, negate, pos-*ℤ}
use knut_os.Power.{int32, reciprocal, square, pow}

pow-square : (b k : ℕ) → (b * b) ^ k ≡ b ^ (k + k)
pow-square b zero = grind (arith, pow-zero (b * b), pow-zero b)
pow-square b (suc k) =
    let e : suc k + suc k ≡ suc (suc (k + k)) = omega arith in
    rw e
      (grind (arith, pow-square b k, pow-suc (b * b) k, pow-suc b (suc (k + k)), pow-suc b (k + k)))

square_done : (fuel b t : ℕ) → b * t < 2 ^ 31 → square (suc fuel) (pos b) (pos t) 1 ≡ some (b * t)
unfolding square
square_done fuel b t h = rw (pos-*ℤ b t) (ground arith)

square_even :
    (fuel b t e : ℕ)
    → 1 < e
    → e % 2 ≡ 0
    → b * b < 2 ^ 31
    → square (suc fuel) (pos b) (pos t) e ≡ square fuel (pos (b * b)) (pos t) (e / 2)
unfolding square
square_even fuel b t e big even fits = ground (arith, pos-*ℤ b b)

square_odd :
    (fuel b t e : ℕ)
    → 1 < e
    → e % 2 ≢ 0
    → b * b < 2 ^ 31
    → b * t < 2 ^ 31
    → square (suc fuel) (pos b) (pos t) e ≡ square fuel (pos (b * b)) (pos (b * t)) ((e - 1) / 2)
unfolding square
square_odd fuel b t e big odd fits fits' = ground (arith, pos-*ℤ b b, pos-*ℤ b t)

le-pow : (x k : ℕ) → 1 ≤ x → 1 ≤ k → x ≤ x ^ k
le-pow x zero hx hk = elim hk [ ]
le-pow x (suc k) hx hk = grind (arith, pow-suc x k, one-le-pow k x hx)

pow-even : (b e : ℕ) → e % 2 ≡ 0 → b ^ e ≡ (b * b) ^ (e / 2)
pow-even b e even =
    let h : e / 2 + e / 2 ≡ e = omega arith in ap (λ k. b ^ k) (sym h) ∙ sym (pow-square b (e / 2))

pow-odd : (b e : ℕ) → e % 2 ≢ 0 → b ^ e ≡ (b * b) ^ ((e - 1) / 2) * b
pow-odd b e odd =
    let k = (e - 1) / 2 in
    let h : suc (k + k) ≡ e = omega arith in
    ap (λ n. b ^ n) (sym h) ∙ pow-suc b (k + k) ∙ ap (λ p. p * b) (sym (pow-square b k))

le-mul_left : (a b : ℕ) → 1 ≤ a → b ≤ a * b
le-mul_left a b h = grind arith

le-mul_right : (a b : ℕ) → 1 ≤ b → a ≤ a * b
le-mul_right a b h = grind arith

square-eq-pow :
    (fuel b t e : ℕ)
    → 1 ≤ e
    → e ≤ fuel
    → 1 ≤ b
    → 1 ≤ t
    → b ^ e * t < 2 ^ 31
    → square fuel (pos b) (pos t) e ≡ some (b ^ e * t)
square-eq-pow zero b t e he hf hb ht fits = absurd (omega arith)
square-eq-pow (suc fuel) b t e he hf hb ht fits = elim (dec_le e 1) [
  | yes last ↦
      let one : e ≡ 1 = omega arith in
      let unit : b ^ 1 ≡ b = grind (arith, pow-suc b 0, pow-zero b) in
      rw (one, unit) (square_done fuel b t (rw (one, unit) at fits))
  | no more ↦ elim (ℕ_discrete (e % 2) 0) [
    | yes even ↦
        let split = pow-even b e even in
        let square_pos : 1 ≤ b * b = omega (arith, hb, le-mul_left b b hb) in
        let large = le-pow (b * b) (e / 2) square_pos (omega arith) in
        let fits' : (b * b) ^ (e / 2) * t < 2 ^ 31 = rw (← split) fits in
        square_even fuel b t e (omega arith) even
          (omega (arith, large, fits', le-mul_right ((b * b) ^ (e / 2)) t ht))
        ∙ square-eq-pow fuel (b * b) t (e / 2) (omega arith) (omega arith) square_pos ht fits'
        ∙ ap (λ x. some (x * t)) (sym split)
    | no odd ↦
        let k = (e - 1) / 2 in
        let split = pow-odd b e odd in
        let square_pos : 1 ≤ b * b = omega (arith, hb, le-mul_left b b hb) in
        let large = le-pow (b * b) k square_pos (omega arith) in
        let regroup = mul_assoc ((b * b) ^ k) b t in
        let fits' : (b * b) ^ k * (b * t) < 2 ^ 31 =
          omega (arith, split, regroup, fits, ap (λ (x : ℕ). x * t) split) in
        let bt_pos : 1 ≤ b * t = omega (arith, ht, le-mul_left b t hb) in
        square_odd fuel b t e (omega arith) odd
          (omega (arith, large, fits', le-mul_right ((b * b) ^ k) (b * t) bt_pos))
          (omega
            (arith, fits', le-mul_left ((b * b) ^ k) (b * t) (omega (arith, large, square_pos))))
        ∙ square-eq-pow fuel (b * b) (b * t) k (omega arith) (omega arith) square_pos bt_pos fits'
        ∙ ap some (sym (ap (λ x. x * t) split ∙ regroup))
  ]
]

-- For a positive base and an exponent that is not negative `pow` returns the power, with no signed
-- overflow on the way, whenever the power itself is an `int32_t`.
pub pow_positive : (b e : ℕ) → 1 ≤ b → b ^ e < 2 ^ 31 → pow (pos b) (pos e) ≡ some (b ^ e)
unfolding pow
pow_positive b zero hb fits = ap some (sym (pow-zero b))
pow_positive b (suc e) hb fits =
    square-eq-pow (suc e) b 1 (suc e) (omega arith) (omega arith) hb (omega arith) (omega arith)
    ∙ ap some (omega arith)

square_zero :
    (fuel t e : ℕ) → 1 ≤ e → e ≤ fuel → t < 2 ^ 31 → square fuel (pos 0) (pos t) e ≡ some 0
square_zero zero t e he hf ht = absurd (omega arith)
square_zero (suc fuel) t e he hf ht = elim (dec_le e 1) [
  | yes last ↦
      let one : e ≡ 1 = omega arith in
      rw one (square_done fuel 0 t (omega arith) ∙ ap some (omega arith))
  | no more ↦ elim (ℕ_discrete (e % 2) 0) [
    | yes even ↦
        square_even fuel 0 t e (omega arith) even (omega arith)
        ∙ square_zero fuel t (e / 2) (omega arith) (omega arith) ht
    | no odd ↦
        let none_left : 0 * t ≡ 0 = omega arith in
        square_odd fuel 0 t e (omega arith) odd (omega arith) (omega arith)
        ∙ ap (λ x. square fuel (pos 0) (pos x) ((e - 1) / 2)) none_left
        ∙ square_zero fuel 0 ((e - 1) / 2) (omega arith) (omega arith) (omega arith)
  ]
]

one-pow : (e : ℕ) → 1 ^ e ≡ 1
one-pow zero = pow-zero 1
one-pow (suc e) = omega (arith, pow-suc 1 e, one-pow e)

negated : (e : ℕ) → suc e < 2 ^ 31 → int32 (negate (negsuc e)) ≡ some (pos (suc e))
negated e small = ground arith

reciprocal_large : (b : ℕ) → 2 ≤ b → reciprocal (pos b) ≡ some (pos 0)
reciprocal_large zero h = absurd (omega arith)
reciprocal_large (suc zero) h = absurd (omega arith)
reciprocal_large (suc (suc b)) h = refl

-- For a negative exponent `pow` returns 0 at a base of 2 and above, but 1 at the base 1, and at the
-- base 0 it divides by zero.
pub pow_negative :
    (b e : ℕ)
    → suc e < 2 ^ 31
    → (2 ≤ b → pow (pos b) (negsuc e) ≡ some 0)
      × (pow (pos 1) (negsuc e) ≡ some 1)
      × (pow (pos 0) (negsuc e) ≡ none)
unfolding pow
pow_negative b e small = (
  (λ large.
      rw (reciprocal_large b large, negated e small)
        (square_zero (suc e) 1 (suc e) (omega arith) (omega arith) (omega arith))),
  rw (negated e small) (
      square-eq-pow (suc e) 1 1 (suc e) (omega arith) (omega arith) (omega arith) (omega arith)
        (omega (arith, one-pow (suc e)))
      ∙ ap some (omega (arith, one-pow (suc e)))),
  refl,
)
