-- ===== src/Devices/Pro3/Blob/Overrides.antt =====
-- crates/controller-core/src/devices/pro3/profile.rs: the button mappings of `compile_profile`,
-- and when each has a code.
use Prim.Native.String.{◌∷◌, String}
use text.Mathlib.Text.{◌==◌ as str_eq}
use text.Mathlib.TextEquality.{eq_iff}
use b.Devices.Pro3.Modes.{mode_byte_cases}
use b.Protocol.WireWrite.{same_bytes}
use b.Shared.{
  none, set, ◌==◌, ◌*◌, ◌+◌, [], ◌∷◌, inl, inr, some, Bool-cases, Option-cases, subst, Bool-cases,
  Option-cases, Option, some, All, ◌&&◌, ℕ, ◌≡◌, refl, List, Bool, true, false, Result, ok, err,
  take, arith,
}
use b.Model.Mode.{Mode, same_mode}
use b.Devices.Pro3.{mode_byte, xinput, switch, dinput}
use b.Devices.Pro3.Compile.{
  target_encoding, control_name_to_index, override_with, overrides_from, position_from,
  new_encoding, write_encoding, disabled_encoding,
}
use b.Devices.Pro3.Compile.ReadBack.{All-contains, outputs}
use b.Devices.Pro3.Macros.Buttons.{All-all_of, contains, all_of}
use b.Devices.Pro3.Profile.{decode_target_control, bytes4_at, ButtonMapping, encodings_for_mode}
use b.Devices.Pro3.Tables.Buttons.{ButtonEncodingEntry}

is_ok {ℓ} : {A : Type ℓ} → Result A → Bool
is_ok (err e) = false
is_ok (ok a) = true

is_ok→ok {ℓ} : {A : Type ℓ} (r : Result A) → is_ok r ≡ true → (a : A) × (r ≡ ok a)
unfolding is_ok
is_ok→ok (err e) h = absurd (ground arith)
is_ok→ok (ok a) h = (a, refl)

-- Whether each output can be written to the button of entry `e`.
writes_all : Bool → List ButtonEncodingEntry → List String → ℕ → ButtonEncodingEntry → Bool
unfolding is_ok all_of
writes_all is_switch entries names n e =
    all_of (λ name. is_ok (new_encoding is_switch entries e.source name n)) names

-- Whether the table of a mode is complete.
complete : Mode → ℕ → Bool
unfolding writes_all
complete mode n =
    let entries = encodings_for_mode mode in
    is_ok (write_encoding "home/guide" entries)
    && all_of (writes_all (same_mode mode switch) entries (outputs mode) n) (take 22 entries)

xinput-complete : (n : ℕ) → complete xinput n ≡ true
unfolding complete outputs encodings_for_mode new_encoding disabled_encoding write_encoding xinput
    switch dinput same_bytes
xinput-complete n = refl

switch-complete : (n : ℕ) → complete switch n ≡ true
unfolding complete outputs encodings_for_mode new_encoding disabled_encoding write_encoding xinput
    switch dinput same_bytes
switch-complete n = refl

dinput-complete : (n : ℕ) → complete dinput n ≡ true
unfolding complete outputs encodings_for_mode new_encoding disabled_encoding write_encoding xinput
    switch dinput same_bytes
dinput-complete n = refl

mode_complete : (mode : Mode) (byte n : ℕ) → mode_byte mode ≡ ok byte → complete mode n ≡ true
mode_complete mode byte n e = elim (mode_byte_cases mode byte e) [
  | inl (m, _) ↦ rw m (switch-complete n)
  | inr (inl (m, _)) ↦ rw m (dinput-complete n)
  | inr (inr (m, _)) ↦ rw m (xinput-complete n)
]

-- What holds of every entry's name holds of a name that stands in the table.
All-position_from {κ} :
    (Q : String → Type κ) (name : String) (i n : ℕ) (es : List ButtonEncodingEntry)
    → All (λ e. Q e.source) es
    → position_from (λ e. str_eq e.source name) i es ≡ some n
    → Q name
unfolding position_from
All-position_from Q name i n [] h e = absurd (cc)
All-position_from Q name i n (x ∷ xs) h e = elim (Bool-cases (str_eq x.source name)) [
  | inl here ↦ subst Q ((eq_iff x.source name).0 here) h.0
  | inr there ↦ All-position_from Q name (i + 1) n xs h.1 (ground arith)
]

module _ (is_switch : Bool) (entries : List ButtonEncodingEntry) (mapping : ButtonMapping)
    (buf : List ℕ) (base : ℕ) (overrides : List (Option (List ℕ))) where
  override_with-none :
      control_name_to_index mapping.source entries ≡ none
      → override_with is_switch entries mapping buf base overrides ≡ ok overrides
  unfolding override_with control_name_to_index b.Devices.Pro3.Compile.position_from
  override_with-none missing = rw missing refl

  override_with-some :
      (n : ℕ) (enc home : List ℕ)
      → control_name_to_index mapping.source entries ≡ some n
      → target_encoding is_switch entries mapping n (bytes4_at buf (base + n * 4)) ≡ ok enc
      → write_encoding "home/guide" entries ≡ ok home
      → (after : List (Option (List ℕ))) × (override_with is_switch entries mapping buf base
            overrides
          ≡ ok after)
  unfolding override_with control_name_to_index b.Devices.Pro3.Compile.position_from
  override_with-some n enc home found e h = elim (Bool-cases (n == 13)) [
    | inl here ↦ (set overrides n (some home), rw (found, e, here, h) refl)
    | inr there ↦ (set overrides n (some enc), rw (found, e, there) refl)
  ]

module _ (mode : Mode) (byte : ℕ) (known : mode_byte mode ≡ ok byte) where
  abbrev entries : List ButtonEncodingEntry
  entries = encodings_for_mode mode

  abbrev is_switch : Bool
  is_switch = same_mode mode switch

  new_encoding-ok :
      (source target : String) (n : ℕ)
      → control_name_to_index source entries ≡ some n
      → contains (outputs mode) target ≡ true
      → (code : List ℕ) × (new_encoding is_switch entries source target n ≡ ok code)
  unfolding control_name_to_index writes_all complete
  new_encoding-ok source target n at known_output =
      let full : complete mode n ≡ true = mode_complete mode byte n known in
      let every : all_of (writes_all is_switch entries (outputs mode) n) (take 22 entries) ≡ true =
        ground arith in
      let named : all_of (λ name. is_ok (new_encoding is_switch entries source name n))
            (outputs mode)
          ≡ true =
        All-position_from
          (λ s.
            all_of (λ name. is_ok (new_encoding is_switch entries s name n)) (outputs mode) ≡ true)
          source 0 n (take 22 entries)
          (All-all_of (writes_all is_switch entries (outputs mode) n) (take 22 entries) every) at in
      is_ok→ok (new_encoding is_switch entries source target n) (
        All-contains (λ name. is_ok (new_encoding is_switch entries source name n) ≡ true)
          (outputs mode) target
          (All-all_of (λ name. is_ok (new_encoding is_switch entries source name n)) (outputs mode)
            named)
          known_output)

  home-ok : (code : List ℕ) × (write_encoding "home/guide" entries ≡ ok code)
  unfolding complete
  home-ok =
      let full : complete mode 0 ≡ true = mode_complete mode byte 0 known in
      is_ok→ok (write_encoding "home/guide" entries) (ground arith)

  target_encoding-ok :
      (mapping : ButtonMapping) (n : ℕ) (kept : List ℕ)
      → control_name_to_index mapping.source entries ≡ some n
      → contains (outputs mode) mapping.target ≡ true
      → (code : List ℕ) × (target_encoding is_switch entries mapping n kept ≡ ok code)
  unfolding target_encoding
  target_encoding-ok mapping n kept at output =
      elim (Bool-cases (str_eq (decode_target_control entries n kept) mapping.target)) [
        | inl same ↦ rw same (kept, refl)
        | inr other ↦ rw other (new_encoding-ok mapping.source mapping.target n at output)
      ]

  override_with-ok :
      (mapping : ButtonMapping) (buf : List ℕ) (base : ℕ) (overrides : List (Option (List ℕ)))
      → contains (outputs mode) mapping.target ≡ true
      → (after : List (Option (List ℕ))) × (override_with is_switch entries mapping buf base
            overrides
          ≡ ok after)
  override_with-ok mapping buf base overrides output =
      elim (Option-cases (control_name_to_index mapping.source entries)) [
        | inl missing ↦
            (overrides, override_with-none is_switch entries mapping buf base overrides missing)
        | inr (n, found) ↦
            let kept : List ℕ = bytes4_at buf (base + n * 4) in
            let (enc, e) = target_encoding-ok mapping n kept found output in
            let (home, h) = home-ok in
            override_with-some is_switch entries mapping buf base overrides n enc home found e h
      ]

  pub overrides_from-ok :
      (mappings : List ButtonMapping) (buf : List ℕ) (base : ℕ) (overrides : List (Option (List ℕ)))
      → All (λ m. contains (outputs mode) m.target ≡ true) mappings
      → (after : List (Option (List ℕ))) × (overrides_from is_switch entries mappings buf base
            overrides
          ≡ ok after)
  unfolding overrides_from
  overrides_from-ok [] buf base overrides h = (overrides, refl)
  overrides_from-ok (m ∷ ms) buf base overrides h =
      let (os, e) = override_with-ok m buf base overrides h.0 in
      rw e (overrides_from-ok ms buf base os h.1)
