-- ===== src/Bitmap/Laws.antt =====
-- The bits of a bitmap, and what setting, unsetting and checking one does to all of them.
use knut_os.Base.{
  ℕ, ◌+◌, ◌*◌, ◌/◌, ◌%◌, ◌^◌, ◌≤◌, ◌<◌, ◌≡◌, ◌↔◌, refl, ◌∙◌, arith, none, some, bit_and, bit_or,
  length, get_or, set, length-set, get_or-set_self, get_or-set_ne, get_elem?-eq-get_or,
  get_elem?-eq-none, get_or_ext, ◌==◌, if◌then◌else◌,
}
use native.Mathlib.Decide.{ℕ_discrete}
use native.Mathlib.Nat.{pow-le-pow_right, one-le-pow}
use knut_os.Base.Words.{u8, not32}
use knut_os.Bits.{
  bit_at, bit_at-lt, bit_at-bit_or, bit_at-bit_and, bit_at-pow, bit_at-complement, bit_and_pow,
  bit_at-mod, bit_ext,
}
use knut_os.Bitmap.{Bitmap, set_bit, unset_bit, check_bit}

-- How many bits there are.
abbrev pub capacity : Bitmap → ℕ
capacity b = 8 * length b.map

-- 1 for a used page and 0 for a free one. A bit outside the map reads as used.
unfoldable pub bit_of : Bitmap → ℕ → ℕ
bit_of b i = bit_at (get_or b.map (i / 8) 0xFF) (i % 8)

pub bit_of-lt : (b : Bitmap) (i : ℕ) → bit_of b i < 2
unfolding bit_of
bit_of-lt b i = bit_at-lt (get_or b.map (i / 8) 0xFF) (i % 8)

-- The map holds bytes, and every bit of it has a number that is an `int`.
pub record IsValid (b : Bitmap) : Type 0 where
  pub bytes : (j : ℕ) → get_or b.map j 0xFF < 256
  pub small : length b.map ≤ 2 ^ 28

-- `c` is `b` with the bit `i` made `v`.
pub record Writes (b : Bitmap) (i v : ℕ) (c : Bitmap) : Type 0 where
  pub same_length : length c.map ≡ length b.map
  pub same_size : c.size ≡ b.size
  pub valid : IsValid c
  pub bits : (j : ℕ) → bit_of c j ≡ (if i == j then v else bit_of b j)

pow-lt-256 : (j : ℕ) → j < 8 → 2 ^ j < 256
pow-lt-256 j h = omega (arith, pow-le-pow_right {n = 2} (omega arith) {i = j} {j = 7} (omega arith))

pub byte_after_set :
    (x j k : ℕ)
    → j < 8
    → k < 8
    → bit_at (u8 (bit_or x (2 ^ j))) k ≡ (if j == k then 1 else bit_at x k)
byte_after_set x j k hj hk = ground (
  arith,
  bit_at-mod 8 (bit_or x (2 ^ j)) k,
  bit_at-bit_or x (2 ^ j) k,
  bit_at-pow j k,
  bit_at-lt x k,
)

pub byte_after_unset :
    (x j k : ℕ)
    → j < 8
    → k < 8
    → bit_at (u8 (bit_and x (not32 (2 ^ j)))) k ≡ (if j == k then 0 else bit_at x k)
byte_after_unset x j k hj hk = ground (
  arith,
  pow-lt-256 j hj,
  bit_at-mod 8 (bit_and x (not32 (2 ^ j))) k,
  bit_at-bit_and x (not32 (2 ^ j)) k,
  bit_at-complement 32 (2 ^ j) k,
  bit_at-pow j k,
  bit_at-lt x k,
)

byte_masked : (x k : ℕ) → k < 8 → u8 (bit_and x (2 ^ k)) ≡ bit_at x k * 2 ^ k
byte_masked x k h = grind (arith, bit_and_pow x k, bit_at-lt x k, pow-lt-256 k h)

-- A byte written at `i / 8` whose bits are those of the old one but for `i % 8`.
write_byte-Writes :
    (b : Bitmap) (i v byte : ℕ)
    → IsValid b
    → i < capacity b
    → byte < 256
    → ((k : ℕ)
        → k < 8
        → bit_at byte k ≡ (if i % 8 == k then v else bit_at (get_or b.map (i / 8) 0xFF) k))
    → Writes b i v (record b { map = set b.map (i / 8) byte })
unfolding bit_of
write_byte-Writes b i v byte valid lt small bits = record {
  same_length = length-set b.map (i / 8) byte;
  same_size = refl;
  valid = record {
    bytes = λ j. ground (
      arith,
      valid.bytes j,
      get_or-set_self b.map j byte 0xFF,
      get_or-set_ne b.map (i / 8) j byte 0xFF,
      length-set b.map (i / 8) byte,
    );
    small = rw length-set valid.small;
  };
  bits = λ j. elim (ℕ_discrete (i / 8) (j / 8)) [
    | yes e ↦
        let r : get_or (set b.map (i / 8) byte) (j / 8) 0xFF ≡ byte =
          rw (← e) (get_or-set_self b.map (i / 8) byte 0xFF (omega arith)) in
        rw r (bits (j % 8) (omega arith) ∙ ground arith)
    | no ne ↦ rw (get_or-set_ne b.map (i / 8) (j / 8) byte 0xFF ne) (ground arith)
  ];
}

module _ (b : Bitmap) (i : ℕ) (valid : IsValid b) (lt : i < capacity b) where
  -- Setting a bit inside the map does not fault and makes that bit 1, and no other bit changes.
  pub set_bit-Writes : (c : Bitmap) × (set_bit b i ≡ some c) × Writes b i 1 c
  unfolding set_bit
  set_bit-Writes = (
    _,
    ground (arith, valid.small, get_elem?-eq-get_or b.map (i / 8) 0xFF),
    write_byte-Writes b i 1 _ valid lt (omega arith)
        (λ k. byte_after_set (get_or b.map (i / 8) 0xFF) (i % 8) k (omega arith)),
  )

  -- Unsetting a bit inside the map does not fault and makes that bit 0, and no other bit changes.
  pub unset_bit-Writes : (c : Bitmap) × (unset_bit b i ≡ some c) × Writes b i 0 c
  unfolding unset_bit
  unset_bit-Writes = (
    _,
    ground (arith, valid.small, get_elem?-eq-get_or b.map (i / 8) 0xFF),
    write_byte-Writes b i 0 _ valid lt (omega arith)
        (λ k. byte_after_unset (get_or b.map (i / 8) 0xFF) (i % 8) k (omega arith)),
  )

  -- A check inside the map gives the bit at its own weight.
  pub check_bit-eq-bit_of : check_bit b i ≡ some (bit_of b i * 2 ^ (i % 8))
  unfolding check_bit bit_of
  check_bit-eq-bit_of =
      let masked : u8 (bit_and (get_or b.map (i / 8) 0xFF) (2 ^ (i % 8)))
          ≡ bit_of b i * 2 ^ (i % 8) =
        byte_masked (get_or b.map (i / 8) 0xFF) (i % 8) (omega arith) in
      ground (arith, valid.small, get_elem?-eq-get_or b.map (i / 8) 0xFF, masked)

  -- It is zero exactly for a free page.
  pub check_bit-zero_iff : (v : ℕ) × (check_bit b i ≡ some v) × ((v ≡ 0) ↔ (bit_of b i ≡ 0))
  check_bit-zero_iff = (
    bit_of b i * 2 ^ (i % 8),
    check_bit-eq-bit_of,
    ((λ h. grind (arith, one-le-pow (i % 8) 2)), (λ h. rw h (omega arith))),
  )

-- Outside the map none of the three operations is defined.
pub out_of_map :
    (b : Bitmap) (i : ℕ)
    → IsValid b
    → i < 2 ^ 31
    → capacity b ≤ i
    → (set_bit b i ≡ none) × (unset_bit b i ≡ none) × (check_bit b i ≡ none)
unfolding set_bit unset_bit check_bit
out_of_map b i valid int out = ground (arith, get_elem?-eq-none b.map (i / 8))

-- Two bitmaps of one length and with the same bits are the same bytes.
pub bitmap_ext :
    (b c : Bitmap)
    → IsValid b
    → IsValid c
    → length b.map ≡ length c.map
    → b.size ≡ c.size
    → ((i : ℕ) → bit_of b i ≡ bit_of c i)
    → b ≡ c
unfolding bit_of
bitmap_ext b c vb vc same_length same_size h =
    let maps : b.map ≡ c.map = get_or_ext 0xFF b.map c.map same_length λ j lt.
      bit_ext 8 (get_or b.map j 0xFF) (get_or c.map j 0xFF) (vb.bytes j) (vc.bytes j) λ k hk.
        let q : (8 * j + k) / 8 ≡ j = omega arith in
        let r : (8 * j + k) % 8 ≡ k = omega arith in rw (q, r) at (h (8 * j + k)) in
    ground arith

-- Only the low 32 bits of a bit's number count, since it is an `int`.
pub unset_bit_cast :
    (x y : ℕ) (b : Bitmap) → x % 2 ^ 32 ≡ y % 2 ^ 32 → unset_bit b x ≡ unset_bit b y
unfolding unset_bit
unset_bit_cast x y b e = rw e
