-- ===== src/Pmm/Boot/Usable.antt =====
-- Step 6 of `pmm_init`: exactly the pages of usable memory become free.
use knut_os.Base.{
  ℕ, ◌+◌, ◌/◌, ◌^◌, ◌≤◌, ◌<◌, ◌≡◌, ◌≢◌, refl, ◌∙◌, arith, some, List, [], ◌∷◌, Bool, false, ◌&&◌,
  ◌||◌, leb, ltb, ◌==◌, if◌then◌else◌, length,
}
use native.Mathlib.Decide.{ℕ_discrete}
use knut_os.Base.All.{All}
use knut_os.Bitmap.{Bitmap}
use knut_os.Mem.{page_size}
use knut_os.Bitmap.Laws.{bit_of}
use knut_os.Pmm.{MmapEntry, mmap_usable, Pmm, free}
use knut_os.Pmm.Find.{IsValid, page_count}
use knut_os.Pmm.Range.{WritesRange}
use knut_os.Pmm.Alloc.{after_free, free_physical}
use knut_os.Pmm.Roundtrip.{after_free-IsValid}
use knut_os.Pmm.Boot.{free_usable}

-- The page `i` is one that a usable entry lists.
abbrev pub in_entry : MmapEntry → ℕ → Bool
in_entry e i =
    e.kind == mmap_usable
    && leb (e.base / page_size) i
    && ltb i (e.base / page_size + e.len / page_size)

abbrev pub in_usable : List MmapEntry → ℕ → Bool
in_usable [] i = false
in_usable (e ∷ es) i = in_entry e i || in_usable es i

-- A usable entry ends inside the first `pages` pages, and these lie below 16 TiB.
abbrev pub Fits : ℕ → MmapEntry → Type 0
Fits pages e =
    e.kind ≡ mmap_usable → (e.base / page_size + e.len / page_size ≤ pages) × (e.base < 2 ^ 44)

-- `q` is `p` but for the bits of the usable pages, which are 0, and the counter.
pub record Freed (p : Pmm) (es : List MmapEntry) (q : Pmm) : Type 0 where
  pub valid : IsValid q
  pub same_map : q.memory_map ≡ p.memory_map
  pub same_highest : q.highest_page ≡ p.highest_page
  pub same_length : length q.bitmap.map ≡ length p.bitmap.map
  pub bits : (i : ℕ) → bit_of q.bitmap i ≡ (if in_usable es i then 0 else bit_of p.bitmap i)

Freed-nil : (p : Pmm) → IsValid p → Freed p [] p
Freed-nil p valid = record {
  valid = valid;
  same_map = refl;
  same_highest = refl;
  same_length = refl;
  bits = λ i. refl;
}

Freed-skip :
    (p q : Pmm) (e : MmapEntry) (es : List MmapEntry)
    → e.kind ≢ mmap_usable
    → Freed p es q
    → Freed p (e ∷ es) q
Freed-skip p q e es other f = record {
  valid = f.valid;
  same_map = f.same_map;
  same_highest = f.same_highest;
  same_length = f.same_length;
  bits = λ i. f.bits i ∙ ground arith;
}

Freed-cons :
    (p q : Pmm) (c : Bitmap) (e : MmapEntry) (es : List MmapEntry)
    → e.kind ≡ mmap_usable
    → WritesRange p.bitmap (e.base / page_size) (e.base / page_size + e.len / page_size) 0 c
    → Freed (after_free p (e.len / page_size) c) es q
    → Freed p (e ∷ es) q
Freed-cons p q c e es usable w f = record {
  valid = f.valid;
  same_map = f.same_map;
  same_highest = f.same_highest;
  same_length = f.same_length ∙ w.same_length;
  bits = λ i. f.bits i ∙ ground (arith, w.inside i, w.outside i);
}

module _ (la57 : Bool) where
  free_usable-usable :
      (p q : Pmm) (e : MmapEntry) (es : List MmapEntry)
      → e.kind ≡ mmap_usable
      → free la57 p e.base (e.len / page_size) ≡ some q
      → free_usable la57 p (e ∷ es) ≡ free_usable la57 q es
  unfolding free_usable
  free_usable-usable p q e es usable run = ground arith

  free_usable-other :
      (p : Pmm) (e : MmapEntry) (es : List MmapEntry)
      → e.kind ≢ mmap_usable
      → free_usable la57 p (e ∷ es) ≡ free_usable la57 p es
  unfolding free_usable
  free_usable-other p e es other = ground arith

  pub free_usable-Freed :
      (p : Pmm) (es : List MmapEntry)
      → IsValid p
      → All (Fits (page_count p)) es
      → (q : Pmm) × (free_usable la57 p es ≡ some q) × Freed p es q
  free_usable-Freed p [] valid fits = (p, unfold free_usable in refl, Freed-nil p valid)
  free_usable-Freed p (e ∷ es) valid fits = elim (ℕ_discrete e.kind mmap_usable) [
    | yes usable ↦
        let (c, run, w) =
          free_physical la57 p (e.len / page_size) valid e.base (fits.0 usable).1
            (omega (arith, (fits.0 usable).0, valid.covers)) in
        let (q, more, f) =
          free_usable-Freed (after_free p (e.len / page_size) c) es
            (after_free-IsValid (e.len / page_size) valid w) fits.1 in
        (q, free_usable-usable p _ e es usable run ∙ more, Freed-cons p q c e es usable w f)
    | no other ↦
        let (q, more, f) = free_usable-Freed p es valid fits.1 in
        (q, free_usable-other p e es other ∙ more, Freed-skip p q e es other f)
  ]
