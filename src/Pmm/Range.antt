-- ===== src/Pmm/Range.antt =====
-- The loops of `pmm_alloc` and `pmm_free` over the bits of consecutive pages.
use native.Mathlib.Decide.{ℕ_discrete}
use knut_os.Base.{
  ℕ, zero, suc, ◌+◌, ◌%◌, ◌^◌, ◌≤◌, ◌<◌, ◌≡◌, refl, ap, fun_ext, ◌∙◌, arith, some, ◌⊎◌, inl, length,
  ◌>>=◌,
}
use knut_os.Base.Words.{add64}
use knut_os.Bitmap.{Bitmap, set_bit, unset_bit}
use knut_os.Bitmap.Laws.{capacity, bit_of, Writes, set_bit-Writes, unset_bit-Writes, unset_bit_cast}
use knut_os.Bitmap.Laws
use knut_os.Pmm.{set_bits, unset_bits}

-- `c` is `b` with the bits from `i` up to `stop` made `v`.
pub record WritesRange (b : Bitmap) (i stop v : ℕ) (c : Bitmap) : Type 0 where
  pub same_length : length c.map ≡ length b.map
  pub same_size : c.size ≡ b.size
  pub valid : Laws.IsValid c
  pub inside : (j : ℕ) → i ≤ j → j < stop → bit_of c j ≡ v
  pub outside : (j : ℕ) → (j < i) ⊎ (stop ≤ j) → bit_of c j ≡ bit_of b j

WritesRange-nil : {b : Bitmap} (i v : ℕ) → Laws.IsValid b → WritesRange b i i v b
WritesRange-nil i v valid = record {
  same_length = refl;
  same_size = refl;
  valid = valid;
  inside = λ j p q. absurd (omega arith);
  outside = λ j p. refl;
}

WritesRange-cons :
    {b c d : Bitmap} {i stop v : ℕ}
    → i < stop
    → Writes b i v c
    → WritesRange c (i + 1) stop v d
    → WritesRange b i stop v d
WritesRange-cons {b} {c} {d} {i} {stop} {v} lt w r = record {
  same_length = r.same_length ∙ w.same_length;
  same_size = r.same_size ∙ w.same_size;
  valid = r.valid;
  inside = λ j p q. elim (ℕ_discrete i j) [
    | yes e ↦ r.outside j (inl (omega arith)) ∙ w.bits j ∙ ground arith
    | no ne ↦ r.inside j (omega arith) q
  ];
  outside = λ j p. r.outside j (ground arith) ∙ w.bits j ∙ ground arith;
}

set_bits-suc :
    (n i : ℕ) (b : Bitmap) {c : Bitmap}
    → i < 2 ^ 32
    → set_bit b i ≡ some c
    → set_bits (suc n) i b ≡ set_bits n (i + 1) c
unfolding set_bits
set_bits-suc n i b lt run = let e : add64 i 1 ≡ i + 1 = omega arith in rw (run, e)

-- `set_bits` inside the map does not fault, and makes exactly those bits 1.
pub set_bits-WritesRange :
    (n i stop : ℕ) (b : Bitmap)
    → Laws.IsValid b
    → i + n ≡ stop
    → stop ≤ capacity b
    → (c : Bitmap) × (set_bits n i b ≡ some c) × WritesRange b i stop 1 c
set_bits-WritesRange zero i stop b valid e le =
    let same : i ≡ stop = omega arith in
    (b, unfold set_bits in refl, rw (← same) (WritesRange-nil i 1 valid))
set_bits-WritesRange (suc n) i stop b valid e le =
    let (c, run, w) = set_bit-Writes b i valid (omega arith) in
    let (d, more, r) =
      set_bits-WritesRange n (i + 1) stop c w.valid (omega arith) (omega (arith, w.same_length)) in
    (
      d,
      set_bits-suc n i b (omega (arith, valid.small)) run ∙ more,
      WritesRange-cons (omega arith) w r,
    )

unset_bits-suc :
    (n i : ℕ) (b : Bitmap) {c : Bitmap}
    → i < 2 ^ 32
    → unset_bit b i ≡ some c
    → unset_bits (suc n) i b ≡ unset_bits n (i + 1) c
unfolding unset_bits
unset_bits-suc n i b lt run = let e : add64 i 1 ≡ i + 1 = omega arith in rw (run, e)

-- `unset_bits` inside the map does not fault, and makes exactly those bits 0.
pub unset_bits-WritesRange :
    (n i stop : ℕ) (b : Bitmap)
    → Laws.IsValid b
    → i + n ≡ stop
    → stop ≤ capacity b
    → (c : Bitmap) × (unset_bits n i b ≡ some c) × WritesRange b i stop 0 c
unset_bits-WritesRange zero i stop b valid e le =
    let same : i ≡ stop = omega arith in
    (b, unfold unset_bits in refl, rw (← same) (WritesRange-nil i 0 valid))
unset_bits-WritesRange (suc n) i stop b valid e le =
    let (c, run, w) = unset_bit-Writes b i valid (omega arith) in
    let (d, more, r) =
      unset_bits-WritesRange n (i + 1) stop c w.valid (omega arith)
        (omega (arith, w.same_length)) in
    (
      d,
      unset_bits-suc n i b (omega (arith, valid.small)) run ∙ more,
      WritesRange-cons (omega arith) w r,
    )

-- Only the low 32 bits of an index count, since a bit number is an `int`.
pub unset_bits_cast :
    (n x y : ℕ) (b : Bitmap) → x % 2 ^ 32 ≡ y % 2 ^ 32 → unset_bits n x b ≡ unset_bits n y b
unfolding unset_bits
unset_bits_cast zero x y b e = refl
unset_bits_cast (suc n) x y b e = rw (unset_bit_cast x y b e) (
    ap (λ k. unset_bit b y >>= k)
      (fun_ext λ c. unset_bits_cast n (add64 x 1) (add64 y 1) c (omega arith)))
