-- ===== src/Madt/Records.antt =====
-- Reading back a table that was laid out record by record.
use native.Mathlib.Decide.{ℕ_discrete}
use mathlib.Core.List.{append_assoc, append-nil}
use knut_os.Base.{
  ℕ, zero, suc, ◌+◌, ◌^◌, ◌≤◌, ◌<◌, ◌≡◌, refl, ap, arith, ◌==◌, ==_false, true, false, ltb,
  if◌then◌else◌, List, [], ◌∷◌, ◌++◌, length, none, some,
}
use knut_os.Base.Words.{add64}
use knut_os.Madt.{
  Madt, processor_local_apic, io_apic, interrupt_source_override, lapic_nmi, add_record, parse,
  init,
}

-- A record as the firmware writes it: its kind, and its length in bytes.
pub record Entry : Type 0 where
  pub kind : ℕ
  pub size : ℕ

abbrev pub table_size : List Entry → ℕ
table_size [] = 0
table_size (e ∷ es) = e.size + table_size es

-- The bytes from `at` on are those records, each of two bytes at least.
abbrev pub LaidOut : (ℕ → ℕ) → ℕ → List Entry → Type 0
LaidOut byte at [] = Unit {0}
LaidOut byte at (e ∷ es) =
    (byte at ≡ e.kind) × (byte (at + 1) ≡ e.size) × (2 ≤ e.size) × LaidOut byte (at + e.size) es

-- The addresses of the records of one kind, in order.
abbrev pub of_kind : ℕ → ℕ → List Entry → List ℕ
of_kind kind at [] = []
of_kind kind at (e ∷ es) =
    if e.kind == kind then at ∷ of_kind kind (at + e.size) es else of_kind kind (at + e.size) es

abbrev pub sorted : ℕ → List Entry → Madt
sorted at es = record {
  lapics = of_kind processor_local_apic at es;
  io_apics = of_kind io_apic at es;
  isos = of_kind interrupt_source_override at es;
  lapic_nmis = of_kind lapic_nmi at es;
}

abbrev join : Madt → Madt → Madt
join m n = record {
  lapics = m.lapics ++ n.lapics;
  io_apics = m.io_apics ++ n.io_apics;
  isos = m.isos ++ n.isos;
  lapic_nmis = m.lapic_nmis ++ n.lapic_nmis;
}

add_record-join :
    (m : Madt) (e : Entry) (at : ℕ) (es : List Entry)
    → join (add_record m e.kind at) (sorted (at + e.size) es) ≡ join m (sorted at (e ∷ es))
unfolding add_record
add_record-join m e at es = elim (ℕ_discrete e.kind 0) [
  | yes k ↦ rw k (simp append_assoc refl)
  | no a ↦ elim (ℕ_discrete e.kind 1) [
    | yes k ↦ rw k (simp append_assoc refl)
    | no b ↦ elim (ℕ_discrete e.kind 2) [
      | yes k ↦ rw k (simp append_assoc refl)
      | no c ↦ elim (ℕ_discrete e.kind 4) [
        | yes k ↦ rw k (simp append_assoc refl)
        | no d ↦
            rw (==_false e.kind 0 a, ==_false e.kind 1 b, ==_false e.kind 2 c, ==_false e.kind 4 d)
              refl
      ]
    ]
  ]
]

parse-sorted :
    (fuel : ℕ) (byte : ℕ → ℕ) (m : Madt) (at stop : ℕ) (es : List Entry)
    → LaidOut byte at es
    → at + table_size es ≡ stop
    → stop < 2 ^ 64
    → length es < fuel
    → parse fuel byte stop m at ≡ some (join m (sorted at es))
unfolding parse
parse-sorted zero byte m at stop es laid end small enough = elim enough [ ]
parse-sorted (suc fuel) byte m at stop [] laid end small enough =
    let done : ltb at stop ≡ false = ground (arith, end) in rw done (simp append-nil refl)
parse-sorted (suc fuel) byte m at stop (e ∷ es) (kind, size, two, laid) end small enough =
    let rest =
      parse-sorted fuel byte (add_record m e.kind at) (at + e.size) stop es laid (omega arith) small
        (omega (arith, enough)) in
    let more : ltb at stop ≡ true = ground (arith, end, two) in
    let next : add64 at (byte (at + 1)) ≡ at + e.size = omega (arith, size, end, small) in
    rw (more, next, kind, rest) (ap some (add_record-join m e at es))

length-table_size :
    (byte : ℕ → ℕ) (at : ℕ) (es : List Entry) → LaidOut byte at es → length es ≤ table_size es
length-table_size byte at [] laid = omega arith
length-table_size byte at (e ∷ es) (kind, size, two, laid) =
    omega (arith, two, length-table_size byte (at + e.size) es laid)

pub init-sorted :
    (byte : ℕ → ℕ) (header length : ℕ) (es : List Entry)
    → LaidOut byte (header + 44) es
    → length ≡ 44 + table_size es
    → header + length < 2 ^ 64
    → init byte header length ≡ some (sorted (header + 44) es)
unfolding init
init-sorted byte header length es laid whole small =
    let stop : add64 header length ≡ header + length = omega (arith, small) in
    rw stop (
      parse-sorted (suc length) byte
        (record { lapics = []; io_apics = []; isos = []; lapic_nmis = [] }) (header + 44)
        (header + length) es laid (omega (arith, whole)) small
        (omega (arith, whole, length-table_size byte (header + 44) es laid)))

-- A record of length 0 before the end of the table is read again and again: the loop of `madt_init`
-- does not end, whatever the fuel.
pub parse-stuck :
    (fuel : ℕ) (byte : ℕ → ℕ) (m : Madt) (at stop : ℕ)
    → byte (at + 1) ≡ 0
    → at < stop
    → at < 2 ^ 64
    → parse fuel byte stop m at ≡ none
unfolding parse
parse-stuck zero byte m at stop empty before small = refl
parse-stuck (suc fuel) byte m at stop empty before small =
    let more : ltb at stop ≡ true = ground (arith, before) in
    let same : add64 at (byte (at + 1)) ≡ at = omega (arith, empty, small) in
    rw (more, same) (parse-stuck fuel byte (add_record m (byte at) at) at stop empty before small)
