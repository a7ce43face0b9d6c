-- ===== src/Slab/Init/Samples.antt =====
-- Six pages of the memory of sixteen.
use knut_os.Base.{ℕ, zero, suc, ◌+◌, ◌*◌, ◌<◌, ◌≡◌, refl, arith, false, List, [], ◌∷◌, get_or}
use knut_os.Pmm.Samples.{sixteen, with_bytes, six_runs}
use knut_os.Slab.Init.Whole.{Gives, page, done}
use knut_os.Slab.Init.Starts.{ArePages}

pub five_pages :
    Gives false sixteen
      (0xFFFF800000003000 ∷ 0xFFFF800000004000 ∷ 0xFFFF800000005000 ∷ 0xFFFF800000006000
        ∷ 0xFFFF800000007000 ∷ [])
      (with_bytes 0xFF 0xF0 12)
five_pages = page six_runs.0 (omega arith) (omega arith) (
    page six_runs.1 (omega arith) (omega arith) (
      page six_runs.2 (omega arith) (omega arith) (
        page six_runs.3 (omega arith) (omega arith)
          (page six_runs.4 (omega arith) (omega arith) done))))

pub one_page :
    Gives false (with_bytes 0xFF 0xF0 12) (0xFFFF800000008000 ∷ []) (with_bytes 0xFF 0xF1 13)
one_page = page six_runs.5 (omega arith) (omega arith) done

abbrev six : List ℕ
six =
    0xFFFF800000003000 ∷ 0xFFFF800000004000 ∷ 0xFFFF800000005000 ∷ 0xFFFF800000006000
    ∷ 0xFFFF800000007000 ∷ 0xFFFF800000008000 ∷ []

six_at : (i : ℕ) → i < 6 → get_or six i 0 ≡ 0xFFFF800000003000 + 4096 * i
six_at zero inside = refl
six_at (suc zero) inside = refl
six_at (suc (suc zero)) inside = refl
six_at (suc (suc (suc zero))) inside = refl
six_at (suc (suc (suc (suc zero)))) inside = refl
six_at (suc (suc (suc (suc (suc zero))))) inside = refl
six_at (suc (suc (suc (suc (suc (suc i)))))) inside = absurd (omega arith)

pub six-ArePages : ArePages six
six-ArePages = record {
  aligned = λ i inside. rw (six_at i inside) (omega arith);
  not_null = λ i inside. rw (six_at i inside) (omega arith);
  no_wrap = λ i inside. rw (six_at i inside) (omega (arith, inside));
  distinct = λ i j in_i in_j ne. rw (six_at i in_i, six_at j in_j) (omega (arith, ne));
}
