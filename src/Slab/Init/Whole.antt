-- ===== src/Slab/Init/Whole.antt =====
-- What `slab_init` leaves behind: two slabs in each page, and a page for the last one.
use knut_os.Base.{
  ℕ, zero, suc, ◌+◌, ◌^◌, ◌≤◌, ◌<◌, ◌≡◌, ◌≢◌, refl, arith, some, Bool, List, [], ◌∷◌, ◌++◌,
  get_elem?, ◌⊎◌, inl, inr,
}
use knut_os.Base.Words.{u32, add64}
use knut_os.Mem.{page_size}
use knut_os.Pmm
use knut_os.Pmm.{Pmm}
use knut_os.Slab.{Slab, slab_count}
use knut_os.Slab.Route.{IsSized}
use knut_os.Slab.Init.{Pool, refill, init_slab, init_slabs, init}
use knut_os.Slab.Init.Layout.{HasRoom, advanced, laid, refill-HasRoom, init_slab-laid}

-- One call of `pmm_alloc` after the other gives these pages.
pub data Gives (la57 : Bool) : Pmm → List ℕ → Pmm → Type 0 where
  done : {pmm : Pmm} → Gives la57 pmm [] pmm
  page :
      {pmm next last : Pmm} {p : ℕ} {ps : List ℕ}
      → Pmm.alloc la57 pmm 1 ≡ some (p, next)
      → p ≢ 0
      → p + page_size < 2 ^ 64
      → Gives la57 next ps last
      → Gives la57 pmm (p ∷ ps) last

-- Slab `i` and those behind it, two in each page.
abbrev pub two_each : ℕ → List ℕ → List Slab
two_each i [] = []
two_each i (p ∷ ps) = laid i p ∷ laid (i + 1) (p + 2048) ∷ two_each (i + 1 + 1) ps

-- There is no page yet, or it is used up.
IsSpent : Pool → Type 0
IsSpent pool = (pool.internal_mem_ptr ≡ 0) ⊎ (pool.internal_mem_ptr ≡ pool.internal_mem_len)

abbrev pub fresh : Pmm → ℕ → ℕ → Pool
fresh pmm p count = record {
  pmm = pmm;
  internal_mem_ptr = p;
  internal_mem_len = p + page_size;
  page_alloc_count = count;
}

refill-spent :
    (la57 : Bool) (pool : Pool) (p : ℕ) (next : Pmm)
    → IsSpent pool
    → Pmm.alloc la57 pool.pmm 1 ≡ some (p, next)
    → p + page_size < 2 ^ 64
    → refill la57 pool ≡ some (fresh next p (u32 (pool.page_alloc_count + 1)))
unfolding refill IsSpent
refill-spent la57 pool p next (inl none_yet) given room =
    let no_wrap : add64 p page_size ≡ p + page_size = omega (arith, room) in
    rw (given, no_wrap) (ground (arith, none_yet))
refill-spent la57 pool p next (inr used_up) given room =
    let no_wrap : add64 p page_size ≡ p + page_size = omega (arith, room) in
    rw (given, no_wrap) (ground (arith, used_up))

fresh-HasRoom :
    (pmm : Pmm) (p count used : ℕ)
    → p ≢ 0
    → p + page_size < 2 ^ 64
    → used ≤ 2048
    → HasRoom (advanced (fresh pmm p count) used) 2048
fresh-HasRoom pmm p count used ne small half = record {
  not_null = omega (arith, ne);
  room_left = omega arith;
  no_wrap = small;
}

module _ (la57 : Bool) (pool : Pool) (p : ℕ) (next : Pmm) (spent : IsSpent pool)
    (given : Pmm.alloc la57 pool.pmm 1 ≡ some (p, next)) (ne : p ≢ 0)
    (small : p + page_size < 2 ^ 64) where
  -- The pool with the new page, of which some bytes are used.
  at_page : ℕ → Pool
  at_page used = advanced (fresh next p (u32 (pool.page_alloc_count + 1))) used

  first_half : (i : ℕ) → i < slab_count → init_slab la57 i pool ≡ some (laid i p, at_page 2048)
  unfolding at_page
  first_half i valid =
      (init_slab-laid la57 i pool (fresh next p (u32 (pool.page_alloc_count + 1))) valid
        (refill-spent la57 pool p next spent given small)
        (record { not_null = ne; room_left = omega arith; no_wrap = small })).0

  second_half :
      (i : ℕ)
      → i < slab_count
      → init_slab la57 i (at_page 2048) ≡ some (laid i (p + 2048), advanced (at_page 2048) 2048)
  unfolding at_page
  second_half i valid =
      let has =
        fresh-HasRoom next p (u32 (pool.page_alloc_count + 1)) 2048 ne small (omega arith) in
      (init_slab-laid la57 i (at_page 2048) (at_page 2048) valid
        (refill-HasRoom la57 (at_page 2048) 2048 (omega arith) has) has).0

  full-IsSpent : IsSpent (advanced (at_page 2048) 2048)
  unfolding IsSpent at_page
  full-IsSpent = inr (omega arith)

-- The rounds for two slabs in each page and `rest` more, and the slab after those.
rounds : List ℕ → ℕ → ℕ
rounds [] rest = rest
rounds (p ∷ ps) rest = suc (suc (rounds ps rest))

abbrev pub after : List ℕ → ℕ → ℕ
after [] i = i
after (p ∷ ps) i = after ps (i + 1 + 1)

after-le : (ps : List ℕ) (i : ℕ) → i ≤ after ps i
after-le [] i = omega arith
after-le (p ∷ ps) i = omega (arith, after-le ps (i + 1 + 1))

-- What the rounds for those pages come to.
abbrev Halves : Bool → ℕ → Pool → List ℕ → Pmm → Type 0
Halves la57 i pool ps last =
    (q : Pool) × (q.pmm ≡ last)
    × IsSpent q
    × ((rest : ℕ) (slabs : List Slab) (end : Pool)
        → init_slabs la57 rest (after ps i) q ≡ some (slabs, end)
        → init_slabs la57 (rounds ps rest) i pool ≡ some (two_each i ps ++ slabs, end))

init_slabs-two_each :
    (la57 : Bool) (i : ℕ) (pool : Pool) {ps : List ℕ} {last : Pmm}
    → Gives la57 pool.pmm ps last
    → IsSpent pool
    → after ps i ≤ slab_count
    → Halves la57 i pool ps last
unfolding init_slabs rounds at_page
init_slabs-two_each la57 i pool done spent valid = (pool, refl, spent, λ rest slabs end then. then)
init_slabs-two_each la57 i pool (page {next = next} {p = p} {ps} given ne small more) spent valid =
    let (q, pmm, q_spent, ih) =
      init_slabs-two_each la57 (i + 1 + 1)
        (advanced (at_page la57 pool p next spent given ne small 2048) 2048) {ps = ps} more
        (full-IsSpent la57 pool p next spent given ne small) valid in
    let low : i + 1 < slab_count = omega (arith, after-le ps (i + 1 + 1), valid) in
    (
      q,
      pmm,
      q_spent,
      λ rest slabs end then.
          rw
            (
              first_half la57 pool p next spent given ne small i (omega (arith, low)),
              second_half la57 pool p next spent given ne small (i + 1) low,
              ih rest slabs end then,
            )
            refl,
    )

-- The pages that `slab_init` takes: five that hold two slabs each, and that of the last slab.
abbrev pub all_slabs : List ℕ → ℕ → List Slab
all_slabs ps p = two_each 0 ps ++ laid 10 p ∷ []

init_slabs-last :
    (la57 : Bool) (pool : Pool) (p : ℕ) (last : Pmm) (spent : IsSpent pool)
    (given : Pmm.alloc la57 pool.pmm 1 ≡ some (p, last)) (ne : p ≢ 0)
    (small : p + page_size < 2 ^ 64)
    → init_slabs la57 1 10 pool
      ≡ some (laid 10 p ∷ [], at_page la57 pool p last spent given ne small 2048)
unfolding init_slabs
init_slabs-last la57 pool p last spent given ne small =
    rw (first_half la57 pool p last spent given ne small 10 (omega arith)) refl

all_sized :
    (ps : List ℕ) (i p k m : ℕ) (s : Slab)
    → m ≡ i + k
    → get_elem? (two_each i ps ++ laid (after ps i) p ∷ []) k ≡ some s
    → s.size ≡ 2 ^ (m + 1)
all_sized [] i p zero m s e at =
    let same : m ≡ i = omega (arith, e) in let it : laid i p ≡ s = cc in rw (← it, same) refl
all_sized [] i p (suc k) m s e at = cc
all_sized (q ∷ ps) i p zero m s e at =
    let same : m ≡ i = omega (arith, e) in let it : laid i q ≡ s = cc in rw (← it, same) refl
all_sized (q ∷ ps) i p (suc zero) m s e at =
    let same : m ≡ i + 1 = omega (arith, e) in
    let it : laid (i + 1) (q + 2048) ≡ s = cc in rw (← it, same) refl
all_sized (q ∷ ps) i p (suc (suc k)) m s e at =
    all_sized ps (i + 1 + 1) p k m s (omega (arith, e)) at

-- Where `pmm_alloc` gives six pages, one after the other, none of them at NULL and none up to the
-- end of the address space, `slab_init` ends with eleven slabs, slab `k` having objects of
-- `2 ^ (k + 1)` bytes: each of the first five pages holds the objects of two slabs, and the last
-- page those of the slab of 2048 bytes. No more pages are taken.
pub init-all_slabs :
    (la57 : Bool) (pmm before last : Pmm) (a b c d e f : ℕ)
    → Gives la57 pmm (a ∷ b ∷ c ∷ d ∷ e ∷ []) before
    → Gives la57 before (f ∷ []) last
    → ((end : Pool) × (init la57 pmm ≡ some (all_slabs (a ∷ b ∷ c ∷ d ∷ e ∷ []) f, end))
        × (end.pmm ≡ last))
      × IsSized (all_slabs (a ∷ b ∷ c ∷ d ∷ e ∷ []) f)
unfolding init rounds at_page IsSpent
init-all_slabs la57 pmm before last a b c d e f gives (page {next = next} given ne small done) =
    let first : Pool = record {
      pmm = pmm;
      internal_mem_ptr = 0;
      internal_mem_len = 0;
      page_alloc_count = 0;
    } in
    let (q, same, spent, run) =
      init_slabs-two_each la57 0 first {ps = a ∷ b ∷ c ∷ d ∷ e ∷ []} gives (inl refl)
        (omega arith) in
    let given' : Pmm.alloc la57 q.pmm 1 ≡ some (f, next) = rw same given in
    (
      (
        at_page la57 q f next spent given' ne small 2048,
        run 1 (laid 10 f ∷ []) _ (init_slabs-last la57 q f next spent given' ne small),
        refl,
      ),
      λ k s at. all_sized (a ∷ b ∷ c ∷ d ∷ e ∷ []) 0 f k k s (omega arith) at,
    )
