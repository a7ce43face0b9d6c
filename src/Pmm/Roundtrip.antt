-- ===== src/Pmm/Roundtrip.antt =====
-- The invariant is kept, and `pmm_free` undoes `pmm_alloc`.
use knut_os.Base.{ℕ, ◌+◌, ◌/◌, ◌≤◌, ◌≡◌, arith, Option, some, Bool}
use knut_os.Bitmap.{Bitmap}
use knut_os.Mem.{page_size, higher_half_data_to_phys}
use knut_os.Bitmap.Laws.{capacity}
use knut_os.Pmm.{Pmm, alloc}
use knut_os.Pmm.Find.{IsValid, page_count}
use knut_os.Pmm.Range.{WritesRange}
use knut_os.Pmm.Alloc.{after_alloc, after_free, Allocated, refused, took, alloc-Allocated}

module _ {p : Pmm} (n : ℕ) {k stop v : ℕ} {c : Bitmap} (valid : IsValid p) where
  pub after_alloc-IsValid : WritesRange p.bitmap k stop v c → IsValid (after_alloc p n c)
  after_alloc-IsValid w = record {
    bitmap = w.valid;
    covers = omega (arith, valid.covers, w.same_length);
    counter = omega arith;
  }

  pub after_free-IsValid : WritesRange p.bitmap k stop v c → IsValid (after_free p n c)
  after_free-IsValid w = record {
    bitmap = w.valid;
    covers = omega (arith, valid.covers, w.same_length);
    counter = omega arith;
  }

Allocated-IsValid :
    {la57 : Bool} {p q : Pmm} {n pointer : ℕ} {r : Option (ℕ × Pmm)}
    → IsValid p
    → Allocated la57 p n r
    → r ≡ some (pointer, q)
    → IsValid q
Allocated-IsValid {p} {q} valid (refused e why) run = let same : p ≡ q = cc in rw (← same) valid
Allocated-IsValid {p} {q} {n} valid (took k c e ne lt z h w) run =
    let same : after_alloc p n c ≡ q = cc in rw (← same) (after_alloc-IsValid n valid w)

-- `pmm_alloc` keeps the allocator well formed.
pub alloc-IsValid :
    (la57 : Bool) (p : Pmm) (n : ℕ) {pointer : ℕ} {q : Pmm}
    → IsValid p
    → page_count p + n ≤ capacity p.bitmap + 1
    → alloc la57 p n ≡ some (pointer, q)
    → IsValid q
alloc-IsValid la57 p n valid room run =
    Allocated-IsValid valid (alloc-Allocated la57 p n valid room) run

-- The number of the page that a higher half address lies in.
abbrev pub page_of : Bool → ℕ → ℕ
page_of la57 pointer = higher_half_data_to_phys la57 pointer / page_size
