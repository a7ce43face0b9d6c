-- ===== src/Pmm/Owners.antt =====
-- Clients of the allocator: whoever gets a page owns it until it is given back.
use knut_os.Base.{
  ℕ, ◌+◌, ◌*◌, ◌^◌, ◌<◌, ◌≡◌, ◌≢◌, refl, ap, ◌∙◌, arith, Option, some, List, [], ◌∷◌, Bool,
  get_elem?,
}
use knut_os.Base.All.{
  All, Distinct, remove, All-map, All-zip, All-remove, All-get, Distinct-remove, removed-ne,
}
use knut_os.Bitmap.{Bitmap}
use knut_os.Mem.{page_size, phys_to_higher_half_data}
use knut_os.Mem.Laws.{higher_half_page, higher_half-ne-zero}
use knut_os.Bitmap.Laws.{bit_of}
use knut_os.Pmm.{Pmm, alloc, free}
use knut_os.Pmm.Find.{IsValid, page_count}
use knut_os.Pmm.Range.{WritesRange}
use knut_os.Pmm.Alloc.{
  after_alloc, after_free, Allocated, refused, took, alloc-Allocated, free-WritesRange,
}
use knut_os.Pmm.Roundtrip.{page_of, after_alloc-IsValid, after_free-IsValid}

-- The allocator and the pointers that are out.
pub record Client : Type 0 where
  pub pmm : Pmm
  pub owned : List ℕ

-- One call of `pmm_alloc(1)`, or one of `pmm_free(pointer, 1)` by the owner of the pointer.
pub data Step (la57 : Bool) (s : Client) : Client → Type 0 where
  allocates :
      (pointer : ℕ) (q : Pmm)
      → alloc la57 s.pmm 1 ≡ some (pointer, q)
      → pointer ≢ 0
      → Step la57 s (record { pmm = q; owned = pointer ∷ s.owned })
  fails : (q : Pmm) → alloc la57 s.pmm 1 ≡ some (0, q) → Step la57 s (record s { pmm = q })
  frees :
      (i pointer : ℕ) (q : Pmm)
      → get_elem? s.owned i ≡ some pointer
      → free la57 s.pmm pointer 1 ≡ some q
      → Step la57 s (record { pmm = q; owned = remove s.owned i })

pub data Reach (la57 : Bool) (p : Pmm) : Client → Type 0 where
  start : Reach la57 p (record { pmm = p; owned = [] })
  later : {s t : Client} → Reach la57 p s → Step la57 s t → Reach la57 p t

-- A pointer that is out is the address of a page that the bitmap has as used.
abbrev pub IsOut : Bool → Pmm → ℕ → Type 0
IsOut la57 p pointer =
    (pointer ≡ phys_to_higher_half_data la57 (page_of la57 pointer * page_size))
    × (page_of la57 pointer < page_count p)
    × (bit_of p.bitmap (page_of la57 pointer) ≡ 1)

pub record IsSafe (la57 : Bool) (s : Client) : Type 0 where
  pub valid : IsValid s.pmm
  pub used : All (IsOut la57 s.pmm) s.owned
  pub distinct : Distinct (page_of la57) s.owned

module _ (la57 : Bool) (p : Pmm) (k : ℕ) (c : Bitmap) where
  page-ne : bit_of p.bitmap k ≡ 0 → (x : ℕ) → IsOut la57 p x → k ≢ page_of la57 x
  page-ne z x (a, lt, u) e = ground arith

  IsOut-alloc :
      WritesRange p.bitmap k (k + 1) 1 c
      → bit_of p.bitmap k ≡ 0
      → (x : ℕ) → IsOut la57 p x
      → IsOut la57 (after_alloc p 1 c) x
  IsOut-alloc w z x (a, lt, u) =
      let ne : k ≢ page_of la57 x = page-ne z x (a, lt, u) in
      (a, lt, w.outside (page_of la57 x) (ground arith) ∙ u)

  IsOut-free :
      WritesRange p.bitmap k (k + 1) 0 c
      → (x : ℕ) → IsOut la57 p x × (k ≢ page_of la57 x)
      → IsOut la57 (after_free p 1 c) x
  IsOut-free w x ((a, lt, u), ne) = (a, lt, w.outside (page_of la57 x) (ground arith) ∙ u)

-- A page that is out can be given back.
free-IsOut :
    (la57 : Bool) (p : Pmm)
    → IsValid p
    → (pointer : ℕ) → IsOut la57 p pointer
    → (c : Bitmap) × (free la57 p pointer 1 ≡ some (after_free p 1 c))
      × WritesRange p.bitmap (page_of la57 pointer) (page_of la57 pointer + 1) 0 c
free-IsOut la57 p valid pointer (address, lt, bit) =
    let (c, high, low, w) =
      free-WritesRange la57 p 1 valid (page_of la57 pointer) (omega (arith, valid.covers)) in
    (c, ap (λ a. free la57 p a 1) address ∙ high, w)

module _ {la57 : Bool} {p : Pmm} {owned : List ℕ}
    (safe : IsSafe la57 (record { pmm = p; owned = owned })) where
  took-IsSafe :
      (k : ℕ) (c : Bitmap)
      → k < page_count p
      → bit_of p.bitmap k ≡ 0
      → WritesRange p.bitmap k (k + 1) 1 c
      → IsSafe la57 (record {
        pmm = after_alloc p 1 c;
        owned = phys_to_higher_half_data la57 (k * page_size) ∷ owned;
      })
  took-IsSafe k c lt z w =
      let small : k < 2 ^ 32 = omega (arith, safe.valid.covers, safe.valid.bitmap.small) in
      let page : page_of la57 (phys_to_higher_half_data la57 (k * page_size)) ≡ k =
        higher_half_page la57 k small in
      record {
        valid = after_alloc-IsValid 1 safe.valid w;
        used = (
          rw page (refl, lt, w.inside k (omega arith) (omega arith)),
          All-map _ _ (IsOut-alloc la57 p k c w z) owned safe.used,
        );
        distinct = (
          rw page (
              All-map (IsOut la57 p) (λ x. k ≢ page_of la57 x) (page-ne la57 p k c z) owned
                safe.used),
          safe.distinct,
        );
      }

  Allocated-IsSafe :
      {r : Option (ℕ × Pmm)} {pointer : ℕ} {q : Pmm}
      → Allocated la57 p 1 r
      → r ≡ some (pointer, q)
      → pointer ≢ 0
      → IsSafe la57 (record { pmm = q; owned = pointer ∷ owned })
  Allocated-IsSafe (refused e why) run ne = absurd (ne (cc))
  Allocated-IsSafe {pointer = pointer} {q} (took k c e k_ne lt z h w) run ne =
      let here : phys_to_higher_half_data la57 (k * page_size) ≡ pointer = cc in
      let same : after_alloc p 1 c ≡ q = cc in rw (← same, ← here) (took-IsSafe k c lt z w)

  failed-IsSafe :
      {r : Option (ℕ × Pmm)} {q : Pmm}
      → Allocated la57 p 1 r
      → r ≡ some (0, q)
      → IsSafe la57 (record { pmm = q; owned = owned })
  failed-IsSafe {q = q} (refused e why) run = let same : p ≡ q = cc in rw (← same) safe
  failed-IsSafe {q = q} (took k c e k_ne lt z h w) run =
      let small : k < 2 ^ 32 = omega (arith, safe.valid.covers, safe.valid.bitmap.small) in
      absurd (higher_half-ne-zero la57 k small (cc))

  freed-IsSafe :
      (i : ℕ) {pointer : ℕ} {q : Pmm}
      → get_elem? owned i ≡ some pointer
      → free la57 p pointer 1 ≡ some q
      → IsSafe la57 (record { pmm = q; owned = remove owned i })
  freed-IsSafe i {pointer} {q} at run =
      let (c, freed, w) =
        free-IsOut la57 p safe.valid pointer (All-get (IsOut la57 p) owned i safe.used at) in
      let same : after_free p 1 c ≡ q = cc in
      rw (← same) (record {
        valid = after_free-IsValid 1 safe.valid w;
        used = All-map _ _ (IsOut-free la57 p (page_of la57 pointer) c w) (remove owned i) (
            All-zip (IsOut la57 p) (λ x. page_of la57 pointer ≢ page_of la57 x) (remove owned i)
              (All-remove (IsOut la57 p) owned i safe.used)
              (removed-ne (page_of la57) owned i safe.distinct at));
        distinct = Distinct-remove (page_of la57) owned i safe.distinct;
      })

Step-IsSafe : {la57 : Bool} {s t : Client} → Step la57 s t → IsSafe la57 s → IsSafe la57 t
Step-IsSafe {la57} {s} (allocates pointer q run ne) safe =
    Allocated-IsSafe safe
      (alloc-Allocated la57 s.pmm 1 safe.valid (omega (arith, safe.valid.covers))) run ne
Step-IsSafe {la57} {s} (fails q run) safe =
    failed-IsSafe safe (alloc-Allocated la57 s.pmm 1 safe.valid (omega (arith, safe.valid.covers)))
      run
Step-IsSafe (frees i pointer q at run) safe = freed-IsSafe safe i at run

pub Reach-IsSafe : {la57 : Bool} {p : Pmm} {s : Client} → IsValid p → Reach la57 p s → IsSafe la57 s
Reach-IsSafe valid start = record { valid = valid; used = tt; distinct = tt }
Reach-IsSafe valid (later r st) = Step-IsSafe st (Reach-IsSafe valid r)

-- No such sequence of calls runs into a fault: the next `pmm_alloc(1)` returns, and so does the
-- next `pmm_free(x, 1)` for every pointer `x` that is out.
pub calls_never_fault :
    {la57 : Bool} {p : Pmm} {s : Client}
    → IsValid p
    → Reach la57 p s
    → ((r : ℕ × Pmm) × (alloc la57 s.pmm 1 ≡ some r))
      × ((i x : ℕ) → get_elem? s.owned i ≡ some x → (q : Pmm) × (free la57 s.pmm x 1 ≡ some q))
calls_never_fault {la57} {s = s} valid r =
    let safe = Reach-IsSafe valid r in
    (
      returns (alloc-Allocated la57 s.pmm 1 safe.valid (omega (arith, safe.valid.covers))),
      λ i x at.
          let out = All-get (IsOut la57 s.pmm) s.owned i safe.used at in
          let (c, freed, w) = free-IsOut la57 s.pmm safe.valid x out in (_, freed),
    )
  where
    returns :
        {la57 : Bool} {p : Pmm} {r : Option (ℕ × Pmm)}
        → Allocated la57 p 1 r
        → (v : ℕ × Pmm) × (r ≡ some v)
    returns (refused e why) = (_, e)
    returns (took k c e ne lt z h w) = (_, e)
