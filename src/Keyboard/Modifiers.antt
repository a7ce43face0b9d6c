-- ===== src/Keyboard/Modifiers.antt =====
-- Which scan codes move which flag of the keyboard.
use native.Mathlib.Decide.{ℕ_discrete}
use knut_os.Base.{
  ℕ, ◌+◌, ◌<◌, ◌≡◌, ◌≢◌, leb, ==_false, refl, sym, ◌∙◌, arith, ◌==◌, if◌then◌else◌, Bool, true,
  false, not, ◌||◌, passes, passes-at, get_or,
}
use knut_os.Keyboard.{Keyboard, standard_keycodes, press, release, keycode_to_ascii}
use knut_os.Keyboard.Keys.{
  key_lctrl, key_rctrl, key_lalt, key_ralt, key_lshift, key_rshift, key_capslock, key_kp_numlock,
  key_scrolllock,
}

-- A flag that is on from one make code to one break code, which is 0x80 more.
abbrev holds : Bool → ℕ → ℕ → Bool
holds now make scancode =
    if scancode == make then true else if scancode == make + 0x80 then false else now

-- One that each make code turns round.
abbrev toggles : Bool → ℕ → ℕ → Bool
toggles now make scancode = if scancode == make then not now else now

-- The flags after one interrupt. There is a code for the left and for the right shift key.
abbrev pub flags_after : Keyboard → ℕ → Keyboard
flags_after k scancode = record k {
  ctrl = holds k.ctrl 0x1D scancode;
  alt = holds k.alt 0x38 scancode;
  shift = holds (holds k.shift 0x2A scancode) 0x36 scancode;
  capslock = toggles k.capslock 0x3A scancode;
  numlock = toggles k.numlock 0x45 scancode;
  scrolllock = toggles k.scrolllock 0x46 scancode;
}

abbrev pub key_at : ℕ → ℕ
key_at scancode = get_or standard_keycodes scancode 0

abbrev same : Bool → Bool → Bool
same true b = b
same false b = not b

same→≡ : (a b : Bool) → same a b ≡ true → a ≡ b
same→≡ true true e = refl
same→≡ true false e = sym e
same→≡ false true e = e
same→≡ false false e = refl

-- A test of the keys of the table that finds the scan codes of another test.
found_by : (key_test code_test : ℕ → Bool) → ℕ → Bool
found_by key_test code_test s = same (key_test (key_at s)) (code_test s)

by_table :
    (key_test code_test : ℕ → Bool)
    → passes (found_by key_test code_test) 83 ≡ true
    → (s : ℕ) → s < 83
    → key_test (key_at s) ≡ code_test s
unfolding found_by
by_table key_test code_test all s small =
    same→≡ (key_test (key_at s)) (code_test s)
      (passes-at (found_by key_test code_test) 83 all small)

same_flags :
    (k : Keyboard) (test : Bool) (c : ℕ)
    → (if◌then◌else◌ {A = Keyboard × ℕ} test (k, c) (k, 0)).0 ≡ k
same_flags k true c = refl
same_flags k false c = refl

-- A code that moves no flag.
record Plain (s : ℕ) : Type 0 where
  pub no_ctrl : (s ≢ 0x1D) × (s ≢ 0x9D)
  pub no_alt : (s ≢ 0x38) × (s ≢ 0xB8)
  pub no_shift : (s ≢ 0x2A) × (s ≢ 0xAA) × (s ≢ 0x36) × (s ≢ 0xB6)
  pub no_lock : (s ≢ 0x3A) × (s ≢ 0x45) × (s ≢ 0x46)

flags_after-Plain : (k : Keyboard) (s : ℕ) → Plain s → flags_after k s ≡ k
flags_after-Plain k s plain =
    rw
      (
        ==_false s 0x1D plain.no_ctrl.0,
        ==_false s 0x9D plain.no_ctrl.1,
        ==_false s 0x38 plain.no_alt.0,
        ==_false s 0xB8 plain.no_alt.1,
        ==_false s 0x2A plain.no_shift.0,
        ==_false s 0xAA plain.no_shift.1,
        ==_false s 0x36 plain.no_shift.2,
        ==_false s 0xB6 plain.no_shift.3,
        ==_false s 0x3A plain.no_lock.0,
        ==_false s 0x45 plain.no_lock.1,
        ==_false s 0x46 plain.no_lock.2,
      )
      refl

module _ (s : ℕ) (small : s < 83) where
  ctrl-code : (key_at s == key_lctrl || key_at s == key_rctrl) ≡ (s == 0x1D)
  unfolding passes found_by
  ctrl-code = by_table (λ x. x == key_lctrl || x == key_rctrl) (λ x. x == 0x1D) refl s small

  alt-code : (key_at s == key_lalt || key_at s == key_ralt) ≡ (s == 0x38)
  unfolding passes found_by
  alt-code = by_table (λ x. x == key_lalt || x == key_ralt) (λ x. x == 0x38) refl s small

  shift-code : (key_at s == key_lshift || key_at s == key_rshift) ≡ (s == 0x2A || s == 0x36)
  unfolding passes found_by
  shift-code =
      by_table (λ x. x == key_lshift || x == key_rshift) (λ x. x == 0x2A || x == 0x36) refl s small

  capslock-code : (key_at s == key_capslock) ≡ (s == 0x3A)
  unfolding passes found_by
  capslock-code = by_table (λ x. x == key_capslock) (λ x. x == 0x3A) refl s small

  numlock-code : (key_at s == key_kp_numlock) ≡ (s == 0x45)
  unfolding passes found_by
  numlock-code = by_table (λ x. x == key_kp_numlock) (λ x. x == 0x45) refl s small

  scrolllock-code : (key_at s == key_scrolllock) ≡ (s == 0x46)
  unfolding passes found_by
  scrolllock-code = by_table (λ x. x == key_scrolllock) (λ x. x == 0x46) refl s small

  press-Plain : (k : Keyboard) → Plain s → (press k (key_at s)).0 ≡ k
  unfolding press
  press-Plain k plain =
      rw
        (
          ctrl-code,
          alt-code,
          shift-code,
          capslock-code,
          numlock-code,
          scrolllock-code,
          ==_false s 0x1D plain.no_ctrl.0,
          ==_false s 0x38 plain.no_alt.0,
          ==_false s 0x2A plain.no_shift.0,
          ==_false s 0x36 plain.no_shift.2,
          ==_false s 0x3A plain.no_lock.0,
          ==_false s 0x45 plain.no_lock.1,
          ==_false s 0x46 plain.no_lock.2,
        )
        (same_flags k (leb (key_at s) 0x7F) (keycode_to_ascii k (key_at s)))

  release-other :
      (k : Keyboard) → s ≢ 0x1D → s ≢ 0x38 → s ≢ 0x2A → s ≢ 0x36 → release k (key_at s) ≡ k
  unfolding release
  release-other k a b c d =
      rw
        (
          ctrl-code,
          alt-code,
          shift-code,
          ==_false s 0x1D a,
          ==_false s 0x38 b,
          ==_false s 0x2A c,
          ==_false s 0x36 d,
        )
        refl

  pub press-flags_after : (k : Keyboard) → (press k (key_at s)).0 ≡ flags_after k s
  unfolding press
  press-flags_after k = elim (ℕ_discrete s 0x1D) [
    | yes e ↦ rw e refl
    | no a ↦ elim (ℕ_discrete s 0x38) [
      | yes e ↦ rw e refl
      | no b ↦ elim (ℕ_discrete s 0x2A) [
        | yes e ↦ rw e refl
        | no c ↦ elim (ℕ_discrete s 0x36) [
          | yes e ↦ rw e refl
          | no d ↦ elim (ℕ_discrete s 0x3A) [
            | yes e ↦ rw e refl
            | no e ↦ elim (ℕ_discrete s 0x45) [
              | yes e ↦ rw e refl
              | no f ↦ elim (ℕ_discrete s 0x46) [
                | yes e ↦ rw e refl
                | no g ↦
                    let plain : Plain s = record {
                      no_ctrl = (a, omega arith);
                      no_alt = (b, omega arith);
                      no_shift = (c, omega arith, d, omega arith);
                      no_lock = (e, f, g);
                    } in
                    press-Plain k plain ∙ sym (flags_after-Plain k s plain)
              ]
            ]
          ]
        ]
      ]
    ]
  ]

  pub release-flags_after : (k : Keyboard) → release k (key_at s) ≡ flags_after k (s + 0x80)
  unfolding release
  release-flags_after k = elim (ℕ_discrete s 0x1D) [
    | yes e ↦ rw e refl
    | no a ↦ elim (ℕ_discrete s 0x38) [
      | yes e ↦ rw e refl
      | no b ↦ elim (ℕ_discrete s 0x2A) [
        | yes e ↦ rw e refl
        | no c ↦ elim (ℕ_discrete s 0x36) [
          | yes e ↦ rw e refl
          | no d ↦
              release-other k a b c d
              ∙ sym (
                  flags_after-Plain k (s + 0x80) (record {
                    no_ctrl = (omega arith, omega arith);
                    no_alt = (omega arith, omega arith);
                    no_shift = (omega arith, omega arith, omega arith, omega arith);
                    no_lock = (omega arith, omega arith, omega arith);
                  }))
        ]
      ]
    ]
  ]
