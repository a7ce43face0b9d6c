-- ===== src/Pmm/Boot/Init.antt =====
-- What `pmm_init` leaves behind.
use native.Mathlib.Decide.{ℕ_discrete, dec_le}
use mathlib.Core.List.{append-nil}
use mathlib.Core.Option
use knut_os.Base.{
  ℕ, zero, suc, ◌+◌, ◌-◌, ◌*◌, ◌/◌, ◌%◌, ◌^◌, ◌≤◌, ◌<◌, ◌≡◌, ◌≢◌, refl, sym, ap, ◌∙◌, arith, none,
  some, List, [], ◌∷◌, ◌⊎◌, inl, inr, Bool, ◌&&◌, ltb, ◌==◌, if◌then◌else◌, length, replicate,
  get_or, length-replicate, Option-cases,
}
use knut_os.Base.All.{All, All-map}
use knut_os.Base.Words.{add64}
use knut_os.Bits.{bit_at-complement, bit_at-zero}
use knut_os.Str.{memset}
use knut_os.Str.Laws.{memset_lem, drop}
use knut_os.Bitmap.{Bitmap, page_to_bit, set_bit}
use knut_os.Mem.{page_size}
use knut_os.Bitmap.Laws.{bit_of, Writes, set_bit-Writes}
use knut_os.Pmm.{MmapEntry, mmap_usable, Pmm}
use knut_os.Pmm.Find.{IsValid}
use knut_os.Pmm.Boot.{
  top, highest_top, host, block, bitmap_byte_size, laid_out, free_usable, init, counts_as_memory,
}
use knut_os.Pmm.Boot.Size.{bitmap_byte_size_lem, bitmap_covers_iff}
use knut_os.Pmm.Boot.Usable.{Fits, Freed, free_usable-Freed, in_usable}

-- A usable entry that ends at or below `limit`.
abbrev EndsBy : ℕ → MmapEntry → Type 0
EndsBy limit e = e.kind ≡ mmap_usable → e.base + e.len ≤ limit

abbrev pub NoWrap : MmapEntry → Type 0
NoWrap e = e.base + e.len < 2 ^ 64

le-highest_top : (h : ℕ) (es : List MmapEntry) → h ≤ highest_top h es
unfolding highest_top
le-highest_top h [] = omega arith
le-highest_top h (e ∷ es) = ground (arith, le-highest_top h es, le-highest_top (top e) es)

highest_top-EndsBy :
    (h : ℕ) (es : List MmapEntry) → All NoWrap es → All (EndsBy (highest_top h es)) es
unfolding highest_top
highest_top-EndsBy h [] ok = tt
highest_top-EndsBy h (e ∷ es) ok = (
  (λ usable. ground (arith, ok.0, le-highest_top (top e) es, le-highest_top h es)),
  highest_top-EndsBy (if counts_as_memory e && ltb h (top e) then top e else h) es ok.1,
)

host-nil : (size : ℕ) → host size [] ≡ none
unfolding host
host-nil size = refl

host-here :
    (size : ℕ) (e : MmapEntry) (es : List MmapEntry)
    → e.kind ≡ mmap_usable
    → size ≤ e.len
    → host size (e ∷ es)
      ≡ some (e.base, record e { base = add64 e.base size; len = e.len - size } ∷ es)
unfolding host
host-here size e es usable large = ground arith

host-there :
    (size : ℕ) (e : MmapEntry) (es : List MmapEntry)
    → ¬ ((e.kind ≡ mmap_usable) × (size ≤ e.len))
    → host size (e ∷ es) ≡ Option.map (λ found. (found.0, e ∷ found.1)) (host size es)
unfolding host
host-there size e es no_room = ground arith

fits_host : (size : ℕ) (e : MmapEntry) → Dec ((e.kind ≡ mmap_usable) × (size ≤ e.len))
fits_host size e = elim (ℕ_discrete e.kind mmap_usable) [
  | yes usable ↦ elim (dec_le size e.len) [
    | yes large ↦ yes (usable, large)
    | no small ↦ no (λ h. small h.1)
  ]
  | no other ↦ no (λ h. other h.0)
]

host-EndsBy :
    (size limit : ℕ) (es : List MmapEntry) {address : ℕ} {carved : List MmapEntry}
    → limit < 2 ^ 64
    → All (EndsBy limit) es
    → host size es ≡ some (address, carved)
    → All (EndsBy limit) carved
host-EndsBy size limit [] {address} {carved} small h run = cc (host-nil size)
host-EndsBy size limit (e ∷ es) {address} {carved} small h run = elim (fits_host size e) [
  | yes room ↦
      let same : record e { base = add64 e.base size; len = e.len - size } ∷ es ≡ carved =
        cc (host-here size e es room.0 room.1) in
      rw (← same) ((λ usable. omega (arith, h.0 usable)), h.1)
  | no no_room ↦ elim (Option-cases (host size es)) [
    | inl nowhere ↦ cc (host-there size e es no_room)
    | inr found ↦
        let same : e ∷ found.0.1 ≡ carved = cc (host-there size e es no_room) in
        rw (← same) (h.0, host-EndsBy size limit es small h.1 found.1)
  ]
]

length-block : (memory : ℕ → ℕ) (a n : ℕ) → length (block memory a n) ≡ n
unfolding block
length-block memory a zero = refl
length-block memory a (suc n) = ap suc (length-block memory (a + 1) n)

drop_all : (xs : List ℕ) → drop (length xs) xs ≡ []
drop_all [] = refl
drop_all (x ∷ xs) = drop_all xs

-- Step 5 overwrites the whole bitmap, whatever memory held.
memset-block :
    (memory : ℕ → ℕ) (a n : ℕ) → memset (block memory a n) 0xFF n ≡ some (replicate n 0xFF)
memset-block memory a n =
    let e : drop n (block memory a n) ≡ [] =
      ap (λ k. drop k (block memory a n)) (sym (length-block memory a n))
      ∙ drop_all (block memory a n) in
    memset_lem (block memory a n) 0xFF n (omega (arith, length-block memory a n))
    ∙ ap some (rw e (append-nil _))

get_or-all_ones : (n i : ℕ) → get_or {A = ℕ} (replicate n 0xFF) i 0xFF ≡ 0xFF
get_or-all_ones zero i = refl
get_or-all_ones (suc n) zero = refl
get_or-all_ones (suc n) (suc i) = get_or-all_ones n i

bit_of-all_ones : (n size i : ℕ) → bit_of (record { map = replicate n 0xFF; size = size }) i ≡ 1
unfolding bit_of
bit_of-all_ones n size i =
    rw (get_or-all_ones n (i / 8)) (
      omega (arith, bit_at-complement 8 0 (i % 8) (omega arith) (omega arith), bit_at-zero (i % 8)))

EndsBy-Fits :
    (limit : ℕ) → limit < 2 ^ 43 → (e : MmapEntry) → EndsBy limit e → Fits (page_to_bit limit) e
EndsBy-Fits limit small e ends usable = (omega (arith, ends usable), omega (arith, ends usable))

-- `pmm_init` has left the allocator well formed; exactly the pages of usable memory are free, but
-- for page 0.
pub record Booted (highest : ℕ) (carved : List MmapEntry) (p : Pmm) : Type 0 where
  pub valid : IsValid p
  pub highest_page : p.highest_page ≡ highest
  pub memory_map : p.memory_map ≡ carved
  pub bits :
      (i : ℕ) → bit_of p.bitmap i ≡ (if i == 0 then 1 else if in_usable carved i then 0 else 1)

module _ (la57 : Bool) (highest address : ℕ) (carved : List MmapEntry)
    (some_memory : 0 < page_to_bit highest) (small : highest < 2 ^ 43)
    (covers : page_to_bit highest ≤ 8 * bitmap_byte_size highest) where
  abbrev before : Pmm
  before = laid_out la57 highest address carved (replicate (bitmap_byte_size highest) 0xFF)

  before-IsValid : IsValid before
  before-IsValid = record {
    bitmap = record {
      bytes = λ j. rw (get_or-all_ones (bitmap_byte_size highest) j) (omega arith);
      small = omega (
        arith,
        length-replicate {A = ℕ} (bitmap_byte_size highest) 0xFF,
        bitmap_byte_size_lem highest (omega arith),
      );
    };
    covers = omega (arith, covers, length-replicate {A = ℕ} (bitmap_byte_size highest) 0xFF);
    counter = omega arith;
  }

  Booted-before :
      (p : Pmm) (c : Bitmap)
      → Freed before carved p
      → Writes p.bitmap 0 1 c
      → Booted highest carved (record p { bitmap = c })
  Booted-before p c f w = record {
    valid = record {
      bitmap = w.valid;
      covers = omega (arith, f.valid.covers, w.same_length);
      counter = f.valid.counter;
    };
    highest_page = f.same_highest;
    memory_map = f.same_map;
    bits = λ i.
        w.bits i
        ∙ ground (
          arith,
          f.bits i,
          bit_of-all_ones (bitmap_byte_size highest) (bitmap_byte_size highest) i,
        );
  }

init_steps :
    (la57 : Bool) (memory : ℕ → ℕ) (entries : List MmapEntry) (address : ℕ)
    (carved : List MmapEntry) (bytes : List ℕ) (p : Pmm) (c : Bitmap)
    → host (bitmap_byte_size (highest_top 0 entries)) entries ≡ some (address, carved)
    → memset
        (block memory address (bitmap_byte_size (highest_top 0 entries)))
        0xFF
        (bitmap_byte_size (highest_top 0 entries))
      ≡ some bytes
    → free_usable la57 (laid_out la57 (highest_top 0 entries) address carved bytes) carved ≡ some p
    → set_bit p.bitmap 0 ≡ some c
    → init la57 memory entries ≡ some (record p { bitmap = c })
unfolding init
init_steps la57 memory entries address carved bytes p c hosted filled freed reserved =
    rw (hosted, filled, freed, reserved) refl

-- `pmm_init` runs to its end on a memory map without wrap-around whose memory ends below 8 TiB, has
-- a usable entry with room for the bitmap, and has a bitmap that covers the last page. Then the
-- allocator is well formed, and a page is free exactly if it is not page 0 and a usable entry lists
-- it, the bitmap's own place apart, whatever memory held before.
pub init-Booted :
    (la57 : Bool) (memory : ℕ → ℕ) (entries : List MmapEntry) {address : ℕ}
    {carved : List MmapEntry}
    → All NoWrap entries
    → 0 < page_to_bit (highest_top 0 entries)
    → highest_top 0 entries < 2 ^ 43
    → (page_to_bit (highest_top 0 entries) % 8 ≡ 0)
      ⊎ (page_to_bit (highest_top 0 entries) / 8 % page_size ≢ 0)
    → host (bitmap_byte_size (highest_top 0 entries)) entries ≡ some (address, carved)
    → (p : Pmm) × (init la57 memory entries ≡ some p) × Booted (highest_top 0 entries) carved p
init-Booted la57 memory entries {address} {carved} ok some_memory small shape hosted =
    let highest = highest_top 0 entries in
    let size = bitmap_byte_size highest in
    let covers : page_to_bit highest ≤ 8 * size =
      (bitmap_covers_iff highest (omega arith)).1 shape in
    let p0 = before la57 highest address carved some_memory small covers in
    let v0 = before-IsValid la57 highest address carved some_memory small covers in
    let ends =
      host-EndsBy size highest entries (omega arith) (highest_top-EndsBy 0 entries ok) hosted in
    let (p, ran, f) = free_usable-Freed la57 p0 carved v0 (
      All-map (EndsBy highest) (Fits (page_to_bit highest)) (EndsBy-Fits highest small) carved
        ends) in
    let (c, set, w) =
      set_bit-Writes p.bitmap 0 f.valid.bitmap (omega (arith, f.same_highest, f.valid.covers)) in
    (
      record p { bitmap = c },
      init_steps la57 memory entries address carved (replicate size 0xFF) p c hosted
          (memset-block memory address size) ran set,
      Booted-before la57 highest address carved some_memory small covers p c f w,
    )
