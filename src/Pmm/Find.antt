-- ===== src/Pmm/Find.antt =====
-- `pmm_find_first_free_page` finds the first free page.
use native.Mathlib.Decide.{ℕ_discrete}
use knut_os.Base.{
  ℕ, zero, suc, ◌+◌, ◌*◌, ◌^◌, ◌≤◌, ◌<◌, ◌≡◌, ◌≢◌, refl, sym, ◌∙◌, arith, Option, none, some,
}
use knut_os.Mem.{page_size}
use knut_os.Bitmap.{Bitmap, page_to_bit}
use knut_os.Bitmap.Laws.{capacity, bit_of, bit_of-lt, check_bit-zero_iff}
use knut_os.Bitmap.Laws
use knut_os.Pmm.{Pmm, scan, rounds, find_first_free_page}

-- The number of pages that the allocator looks at.
abbrev pub page_count : Pmm → ℕ
page_count p = page_to_bit p.highest_page

-- The bitmap is well formed and has a bit for every page, and the counter is a `uint32_t`.
pub record IsValid (p : Pmm) : Type 0 where
  pub bitmap : Laws.IsValid p.bitmap
  pub covers : page_count p ≤ capacity p.bitmap
  pub counter : p.used_pages < 2 ^ 32

-- What a scan of the pages from `i` up to `stop` says.
data Scanned (b : Bitmap) (i stop : ℕ) (r : Option (Option ℕ)) : Type 0 where
  full : r ≡ some none → ((j : ℕ) → i ≤ j → j < stop → bit_of b j ≡ 1) → Scanned b i stop r
  found :
      (k : ℕ)
      → r ≡ some (some (k * page_size))
      → i ≤ k
      → k < stop
      → bit_of b k ≡ 0
      → ((j : ℕ) → i ≤ j → j < k → bit_of b j ≡ 1)
      → Scanned b i stop r

module _ (b : Bitmap) (valid : Laws.IsValid b) where
  scan_free :
      (left i : ℕ)
      → i < capacity b
      → bit_of b i ≡ 0
      → scan b (suc left) i ≡ some (some (i * page_size))
  unfolding scan
  scan_free left i lt e =
      let (v, run, free_iff) = check_bit-zero_iff b i valid lt in
      ground (arith, free_iff.1 e, valid.small)

  scan_used :
      (left i : ℕ) → i < capacity b → bit_of b i ≢ 0 → scan b (suc left) i ≡ scan b left (i + 1)
  unfolding scan
  scan_used left i lt e =
      let (v, run, free_iff) = check_bit-zero_iff b i valid lt in ground (arith, free_iff)

  used_from :
      (i k : ℕ)
      → bit_of b i ≢ 0
      → ((j : ℕ) → i + 1 ≤ j → j < k → bit_of b j ≡ 1)
      → (j : ℕ) → i ≤ j
      → j < k
      → bit_of b j ≡ 1
  used_from i k e h j p q = elim (ℕ_discrete i j) [
    | yes r ↦ rw (← r) (omega (arith, bit_of-lt b i))
    | no r ↦ h j (omega arith) q
  ]

  scan-Scanned :
      (left i stop : ℕ) → i + left ≡ stop → stop ≤ capacity b → Scanned b i stop (scan b left i)
  scan-Scanned zero i stop e c = full (unfold scan in refl) (λ j p q. absurd (omega arith))
  scan-Scanned (suc left) i stop e c = elim (ℕ_discrete (bit_of b i) 0) [
    | yes is_free ↦
        found i (scan_free left i (omega arith) is_free) (omega arith) (omega arith) is_free
          (λ j p q. absurd (omega arith))
    | no is_used ↦
        rw (scan_used left i (omega arith) is_used)
          (extend is_used (scan-Scanned left (i + 1) stop (omega arith) c))
  ]
    where
      extend :
          bit_of b i ≢ 0
          → Scanned b (i + 1) stop (scan b left (i + 1))
          → Scanned b i stop (scan b left (i + 1))
      extend is_used (full r h) = full r (used_from i stop is_used h)
      extend is_used (found k r p q z h) = found k r (omega arith) q z (used_from i k is_used h)

-- What `pmm_find_first_free_page` says: the first free page, or NULL where every page is used.
pub data FirstFree (p : Pmm) (r : Option ℕ) : Type 0 where
  full : r ≡ some 0 → ((j : ℕ) → j < page_count p → bit_of p.bitmap j ≡ 1) → FirstFree p r
  found :
      (k : ℕ)
      → r ≡ some (k * page_size)
      → k < page_count p
      → bit_of p.bitmap k ≡ 0
      → ((j : ℕ) → j < k → bit_of p.bitmap j ≡ 1)
      → FirstFree p r

rounds-found :
    (p : Pmm) (n k : ℕ) → scan p.bitmap (page_count p) 0 ≡ some (some k) → rounds p (suc n) ≡ some k
unfolding rounds
rounds-found p n k e = rw e

rounds-full : (p : Pmm) (n : ℕ) → scan p.bitmap (page_count p) 0 ≡ some none → rounds p n ≡ some 0
unfolding rounds
rounds-full p zero e = refl
rounds-full p (suc n) e = rw (e, rounds-full p n e)

rounds-FirstFree :
    (p : Pmm) (n : ℕ)
    → Scanned p.bitmap 0 (page_count p) (scan p.bitmap (page_count p) 0)
    → FirstFree p (rounds p (suc n))
rounds-FirstFree p n (Scanned.full e h) =
    FirstFree.full (rounds-full p (suc n) e) (λ j. h j (omega arith))
rounds-FirstFree p n (Scanned.found k e l lt z h) =
    FirstFree.found k (rounds-found p n _ e) lt z (λ j. h j (omega arith))

-- For any positive number of pages the search does not fault, and gives the first free page, or
-- NULL where every page is used.
pub find_first_free_page-FirstFree :
    (p : Pmm) (n : ℕ) → IsValid p → n ≢ 0 → FirstFree p (find_first_free_page p n)
unfolding find_first_free_page
find_first_free_page-FirstFree p zero valid ne = absurd (ne refl)
find_first_free_page-FirstFree p (suc n) valid ne =
    let e : find_first_free_page p (suc n) ≡ rounds p (suc n) = ground arith in
    rw e (
      rounds-FirstFree p n (
        scan-Scanned p.bitmap valid.bitmap (page_count p) 0 (page_count p) (omega arith)
          valid.covers))

rounds_ignore_count :
    (p : Pmm) (m n : ℕ)
    → Scanned p.bitmap 0 (page_count p) (scan p.bitmap (page_count p) 0)
    → rounds p (suc m) ≡ rounds p (suc n)
rounds_ignore_count p m n (Scanned.full e h) =
    rounds-full p (suc m) e ∙ sym (rounds-full p (suc n) e)
rounds_ignore_count p m n (Scanned.found k e l lt z h) =
    rounds-found p m _ e ∙ sym (rounds-found p n _ e)

-- However many pages are asked for, the search gives the same page: it does not look for a run of
-- free pages.
pub find_ignores_count :
    (p : Pmm) (m n : ℕ)
    → IsValid p
    → m ≢ 0
    → n ≢ 0
    → find_first_free_page p m ≡ find_first_free_page p n
unfolding find_first_free_page
find_ignores_count p zero n valid hm hn = absurd (hm refl)
find_ignores_count p (suc m) zero valid hm hn = absurd (hn refl)
find_ignores_count p (suc m) (suc n) valid hm hn = ground (
  arith,
  rounds_ignore_count p m n (
      scan-Scanned p.bitmap valid.bitmap (page_count p) 0 (page_count p) (omega arith)
        valid.covers),
)
