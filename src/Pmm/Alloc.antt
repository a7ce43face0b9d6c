-- ===== src/Pmm/Alloc.antt =====
-- `pmm_alloc` and `pmm_free`: which pages change hands.
use native.Mathlib.Decide.{ℕ_discrete}
use knut_os.Base.{
  ℕ, ◌+◌, ◌*◌, ◌/◌, ◌%◌, ◌^◌, ◌≤◌, ◌<◌, ◌≡◌, ◌≢◌, refl, ap, ◌∙◌, arith, Option, some, Bool,
}
use knut_os.Base.Words.{u32, mul64, sub64}
use knut_os.Bitmap.{Bitmap}
use knut_os.Mem.{page_size, phys_to_higher_half_data, higher_half_data_to_phys}
use knut_os.Mem.Laws.{higher_half_page, physical_page}
use knut_os.Bitmap.Laws.{capacity, bit_of}
use knut_os.Pmm.{Pmm, take_pages, unset_bits, find_first_free_page, alloc, free}
use knut_os.Pmm.Find.{IsValid, FirstFree, find_first_free_page-FirstFree, page_count}
use knut_os.Pmm.Range.{WritesRange, set_bits-WritesRange, unset_bits-WritesRange, unset_bits_cast}

-- `p` after `n` pages were marked in the bitmap `c`.
abbrev pub after_alloc : Pmm → ℕ → Bitmap → Pmm
after_alloc p n c = record p { bitmap = c; used_pages = u32 (p.used_pages + n) }

abbrev pub after_free : Pmm → ℕ → Bitmap → Pmm
after_free p n c = record p { bitmap = c; used_pages = u32 (sub64 p.used_pages n) }

-- Why `pmm_alloc` gives NULL.
pub data Refusal (p : Pmm) (n : ℕ) : Type 0 where
  nothing_asked : n ≡ 0 → Refusal p n
  none_used : p.used_pages ≡ 0 → Refusal p n
  all_used : ((j : ℕ) → j < page_count p → bit_of p.bitmap j ≡ 1) → Refusal p n
  null_page : bit_of p.bitmap 0 ≡ 0 → Refusal p n

-- What `pmm_alloc` does: it gives NULL and changes nothing, or it marks `n` pages from the first
-- free one on, and gives the higher half address of that one.
pub data Allocated (la57 : Bool) (p : Pmm) (n : ℕ) (r : Option (ℕ × Pmm)) : Type 0 where
  refused : r ≡ some (0, p) → Refusal p n → Allocated la57 p n r
  took :
      (k : ℕ) (c : Bitmap)
      → r ≡ some (phys_to_higher_half_data la57 (k * page_size), after_alloc p n c)
      → k ≢ 0
      → k < page_count p
      → bit_of p.bitmap k ≡ 0
      → ((j : ℕ) → j < k → bit_of p.bitmap j ≡ 1)
      → WritesRange p.bitmap k (k + n) 1 c
      → Allocated la57 p n r

module _ (la57 : Bool) (p : Pmm) (n : ℕ) (valid : IsValid p) where
  take_pages-WritesRange :
      (k : ℕ)
      → k + n ≤ capacity p.bitmap
      → (c : Bitmap) × (take_pages la57 p n (k * page_size)
          ≡ some (phys_to_higher_half_data la57 (k * page_size), after_alloc p n c))
        × WritesRange p.bitmap k (k + n) 1 c
  unfolding take_pages
  take_pages-WritesRange k le =
      let (c, run, w) = set_bits-WritesRange n k (k + n) p.bitmap valid.bitmap refl le in
      let e : k * page_size / page_size ≡ k = omega arith in
      let m : mul64 k page_size ≡ k * page_size = omega (arith, valid.bitmap.small) in
      (c, rw (e, run, m) refl, w)

  alloc_full : p.used_pages ≢ 0 → find_first_free_page p n ≡ some 0 → alloc la57 p n ≡ some (0, p)
  unfolding alloc
  alloc_full used e = ground arith

  alloc_found :
      (k : ℕ)
      → p.used_pages ≢ 0
      → k ≢ 0
      → find_first_free_page p n ≡ some (k * page_size)
      → alloc la57 p n ≡ take_pages la57 p n (k * page_size)
  unfolding alloc
  alloc_found k used ne e = ground arith

  alloc_cases :
      p.used_pages ≢ 0
      → page_count p + n ≤ capacity p.bitmap + 1
      → FirstFree p (find_first_free_page p n)
      → Allocated la57 p n (alloc la57 p n)
  alloc_cases used room (FirstFree.full e h) = refused (alloc_full used e) (all_used h)
  alloc_cases used room (FirstFree.found k e lt z h) = elim (ℕ_discrete k 0) [
    | yes at_zero ↦
        refused (alloc_full used (e ∙ ap some (omega arith))) (null_page (rw at_zero at z))
    | no ne ↦
        let (c, run, w) = take_pages-WritesRange k (omega arith) in
        took k c (alloc_found k used ne e ∙ run) ne lt z h w
  ]

  alloc_unused : p.used_pages ≡ 0 → alloc la57 p n ≡ some (0, p)
  unfolding alloc
  alloc_unused e = ground arith

  alloc_nothing : n ≡ 0 → alloc la57 p n ≡ some (0, p)
  unfolding alloc find_first_free_page
  alloc_nothing e = ground arith

  -- Where the bitmap has room for `n` pages from the last page on, `pmm_alloc` does not fault. It
  -- gives NULL and changes nothing, for one of four reasons, or it marks the `n` pages that start at
  -- the first free page, which is not page 0, and gives the address of that page.
  pub alloc-Allocated :
      page_count p + n ≤ capacity p.bitmap + 1 → Allocated la57 p n (alloc la57 p n)
  alloc-Allocated room = elim (ℕ_discrete n 0) [
    | yes nothing ↦ refused (alloc_nothing nothing) (nothing_asked nothing)
    | no some_asked ↦ elim (ℕ_discrete p.used_pages 0) [
      | yes unused ↦ refused (alloc_unused unused) (none_used unused)
      | no used ↦ alloc_cases used room (find_first_free_page-FirstFree p n valid some_asked)
    ]
  ]

  free_run :
      (pointer k : ℕ) {c : Bitmap}
      → higher_half_data_to_phys la57 pointer / page_size % 2 ^ 32 ≡ k % 2 ^ 32
      → unset_bits n k p.bitmap ≡ some c
      → free la57 p pointer n ≡ some (after_free p n c)
  unfolding free
  free_run pointer k e run = rw (unset_bits_cast n _ k p.bitmap e, run)

  -- Pages inside the bitmap are freed by the physical address as by the higher half address: the
  -- bits of those pages become 0, no other bit changes, and the counter goes down by `n`.
  pub free-WritesRange :
      (k : ℕ)
      → k + n ≤ capacity p.bitmap
      → (c : Bitmap) × (free la57 p (phys_to_higher_half_data la57 (k * page_size)) n
          ≡ some (after_free p n c))
        × (free la57 p (k * page_size) n ≡ some (after_free p n c))
        × WritesRange p.bitmap k (k + n) 0 c
  free-WritesRange k le =
      let (c, run, w) = unset_bits-WritesRange n k (k + n) p.bitmap valid.bitmap refl le in
      let small : k ≤ 2 ^ 31 = omega (arith, valid.bitmap.small) in
      let high = higher_half_page la57 k (omega arith) in
      let low = physical_page la57 (k * page_size) (omega arith) in
      (c, free_run _ k (omega (arith, high)) run, free_run _ k (omega (arith, low)) run, w)

  -- The same for any physical address.
  pub free_physical :
      (a : ℕ)
      → a < 2 ^ 44
      → a / page_size + n ≤ capacity p.bitmap
      → (c : Bitmap) × (free la57 p a n ≡ some (after_free p n c))
        × WritesRange p.bitmap (a / page_size) (a / page_size + n) 0 c
  free_physical a small le =
      let k = a / page_size in
      let (c, run, w) = unset_bits-WritesRange n k (k + n) p.bitmap valid.bitmap refl le in
      (c, free_run a k (omega (arith, physical_page la57 a small)) run, w)
