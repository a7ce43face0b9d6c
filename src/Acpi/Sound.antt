-- ===== src/Acpi/Sound.antt =====
-- A table that passes the check has its signature, and bytes that add up to 0.
use native.Mathlib.Decide.{ℕ_discrete, dec_lt}
use knut_os.Base.{
  ℕ, zero, suc, ◌⊎◌, inl, inr, ◌+◌, ◌%◌, ◌≤◌, ◌<◌, ◌≡◌, refl, ap, ◌∙◌, arith, ◌==◌, if◌then◌else◌,
  Bool, true, false, List, length, Option, none, some, ◌>>=◌, >>=-eq-some,
}
use knut_os.Base.Int.{ℤ, pos, negsuc}
use knut_os.Mem.{phys_to_higher_half_data}
use knut_os.Str.Laws.{take, memcmp-zero_iff}
use knut_os.Acpi.{
  SdtHeader, find_from, find_sdt_table, entry_count, is_zero, check_sdt_header,
  verify_sdt_header_checksum, rsdp_init,
}
use knut_os.Acpi.Checksum.{total, rsdp_init-total, verify_sdt_header_checksum-total}

-- The signature of a table, and a checksum of 0.
pub record IsSound (h : SdtHeader) (signature : List ℕ) : Type 0 where
  pub signed : take 4 h.signature ≡ take 4 signature
  pub short : h.length < 256
  pub sum : total h.byte 0 h.length % 256 ≡ 0

pub rsdp_init-sum : (byte : ℕ → ℕ) {b : Bool} → rsdp_init byte ≡ some b → total byte 0 20 % 256 ≡ 0
rsdp_init-sum byte {b} ends = elim (ℕ_discrete (total byte 0 20 % 256) 0) [
  | yes z ↦ z
  | no ne ↦ let halts = (rsdp_init-total byte).1 ne in absurd (cc)
]

checksum-long : (h : SdtHeader) → 256 ≤ h.length → verify_sdt_header_checksum h ≡ none
unfolding verify_sdt_header_checksum
checksum-long h long = rw ((verify_sdt_header_checksum-total h).1 long 256) refl

checksum-sum :
    (h : SdtHeader)
    → verify_sdt_header_checksum h ≡ some 0
    → (h.length < 256) × (total h.byte 0 h.length % 256 ≡ 0)
checksum-sum h ends = elim (dec_lt h.length 256) [
  | yes short ↦
      let (r, run, zero_iff) = (verify_sdt_header_checksum-total h).0 short in
      (short, zero_iff.0 (cc))
  | no long ↦ let endless = checksum-long h (omega (arith, long)) in absurd (cc)
]

abbrev answer : ℕ → Option ℕ
answer result = some (if result == 0 then 0 else 1)

passes_both :
    (b : Bool) (v : Option ℕ)
    → (if b then v >>= answer else some 1) ≡ some 0
    → (b ≡ true) × (v ≡ some 0)
passes_both true none e = absurd (cc)
passes_both true (some r) e = elim (ℕ_discrete r 0) [
  | yes z ↦ (refl, ap some z)
  | no ne ↦ absurd (ground (arith, e, ne))
]
passes_both false v e = absurd (ground (arith, e))

zero_of : (d : ℤ) → is_zero d ≡ true → d ≡ pos 0
zero_of (pos n) e = ap pos (ground (arith, e))
zero_of (negsuc n) e = absurd (cc)

pub check_sdt_header-IsSound :
    (h : SdtHeader) (signature : List ℕ)
    → 4 ≤ length h.signature
    → 4 ≤ length signature
    → check_sdt_header h signature ≡ some 0
    → IsSound h signature
unfolding check_sdt_header
check_sdt_header-IsSound h signature left right passes =
    let (d, compared, zero_iff) = memcmp-zero_iff h.signature signature 4 left right in
    let (equal, verified) =
      passes_both (is_zero d) (verify_sdt_header_checksum h) (rw compared at passes) in
    let (short, sum) = checksum-sum h verified in
    record { signed = zero_iff.0 (zero_of d equal); short = short; sum = sum }

hit_or_miss :
    (c a r : ℕ) (rest : Option ℕ)
    → (if c == 0 then some a else rest) ≡ some r
    → ((c ≡ 0) × (r ≡ a)) ⊎ (rest ≡ some r)
hit_or_miss zero a r rest e = inl (refl, cc)
hit_or_miss (suc c) a r rest e = inr (ground (arith, e))

-- What a search that ends gives: NULL, or where a table that passes is mapped.
pub find_from-passes :
    (la57 : Bool) (header_at : ℕ → SdtHeader) (entries : ℕ → ℕ) (signature : List ℕ) (left i : ℕ)
    {r : ℕ}
    → find_from la57 header_at entries signature left i ≡ some r
    → (r ≡ 0)
      ⊎ ((j : ℕ) × (r ≡ phys_to_higher_half_data la57 (entries j))
          × (check_sdt_header (header_at (entries j)) signature ≡ some 0))
unfolding find_from
find_from-passes la57 header_at entries signature zero i {r} ends = inl (cc)
find_from-passes la57 header_at entries signature (suc left) i {r} ends =
    let (c, checked, next) =
      >>=-eq-some (check_sdt_header (header_at (entries i)) signature) _ ends in
    elim (hit_or_miss c _ r _ next) [
      | inl (hit, here) ↦ inr (i, here, checked ∙ ap some hit)
      | inr miss ↦ find_from-passes la57 header_at entries signature left (i + 1) miss
    ]

pub find_sdt_table-passes :
    (la57 : Bool) (header_at : ℕ → SdtHeader) (rsdt_length : ℕ) (entries : ℕ → ℕ) (has_xsdt : Bool)
    (signature : List ℕ) {r : ℕ}
    → find_sdt_table la57 header_at rsdt_length entries has_xsdt signature ≡ some r
    → (r ≡ 0)
      ⊎ ((j : ℕ) × (r ≡ phys_to_higher_half_data la57 (entries j))
          × (check_sdt_header (header_at (entries j)) signature ≡ some 0))
unfolding find_sdt_table
find_sdt_table-passes la57 header_at rsdt_length entries has_xsdt signature ends =
    find_from-passes la57 header_at entries signature (entry_count rsdt_length has_xsdt) 0 ends
