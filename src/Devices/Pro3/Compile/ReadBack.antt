-- ===== src/Devices/Pro3/Compile/ReadBack.antt =====
-- crates/controller-core/src/devices/pro3/profile.rs: the outputs that a button can be given, and
-- their codes.
use Prim.Native.String.{String}
use text.Mathlib.Text.{◌==◌ as str_eq}
use native.Mathlib.Decide.{dec_le}
use text.Mathlib.TextEquality.{eq_iff}
use b.Devices.Pro3.{mode_byte}
use b.Devices.Pro3.Modes.{mode_byte_cases}
use b.Shared.{
  ==_iff, ℕ, zero, suc, ◌+◌, ◌<◌, ◌==◌, ◌≡◌, refl, subst, inl, inr, List, [], ◌∷◌, Bool, true,
  false, ◌&&◌, ◌||◌, if◌then◌else◌, Result, ok, err, Bool-cases, All, arith,
}
use b.Model.Mode.{Mode, same_mode}
use b.Devices.Pro3.{xinput, switch, dinput}
use b.Devices.Pro3.Compile.{new_encoding, target_encoding}
use b.Devices.Pro3.Macros.Buttons.{contains, all_of, All-all_of}
use b.Devices.Pro3.Profile.{decode_target_control, encodings_for_mode, is_paddle_index, source_at}
use b.Devices.Pro3.Tables.Buttons.{
  ButtonEncodingEntry, xinput_encodings, switch_encodings, dinput_encodings,
}

-- The outputs of a table: every entry but the paddles, from entry `i` on.
outputs_from : ℕ → List ButtonEncodingEntry → List String
outputs_from i [] = []
outputs_from i (e ∷ es) =
    let rest = outputs_from (i + 1) es in if is_paddle_index i then rest else e.source ∷ rest

-- What a button can be set to in a mode.
unfoldable pub outputs : Mode → List String
unfolding outputs_from
outputs mode = "disabled" ∷ outputs_from 0 (encodings_for_mode mode)

-- Button `n` reads output `name` back from the code that is written for it.
reads_back : Bool → List ButtonEncodingEntry → ℕ → String → Bool
unfolding new_encoding decode_target_control
reads_back is_switch entries n name =
    elim (new_encoding is_switch entries (source_at entries n) name n) [
      | err e ↦ false
      | ok code ↦ str_eq (decode_target_control entries n code) name
    ]

-- Buttons `n` and below, but for home, which always reads back as itself.
all_buttons : Bool → List ButtonEncodingEntry → List String → ℕ → Bool
unfolding reads_back all_of
all_buttons is_switch entries names zero = true
all_buttons is_switch entries names (suc n) =
    (n == 13 || all_of (reads_back is_switch entries n) names)
    && all_buttons is_switch entries names n

xinput_buttons : all_buttons false xinput_encodings (outputs xinput) 22 ≡ true
unfolding all_buttons outputs encodings_for_mode b.Devices.Pro3.Compile.disabled_encoding
    b.Devices.Pro3.Compile.write_encoding xinput
xinput_buttons = refl

switch_buttons : all_buttons true switch_encodings (outputs switch) 22 ≡ true
unfolding all_buttons outputs encodings_for_mode b.Devices.Pro3.Compile.disabled_encoding
    b.Devices.Pro3.Compile.write_encoding switch
switch_buttons = refl

dinput_buttons : all_buttons false dinput_encodings (outputs dinput) 22 ≡ true
unfolding all_buttons outputs encodings_for_mode b.Devices.Pro3.Compile.disabled_encoding
    b.Devices.Pro3.Compile.write_encoding dinput
dinput_buttons = refl

pub All-contains {κ} :
    (P : String → Type κ) (names : List String) (name : String)
    → All P names
    → contains names name ≡ true
    → P name
unfolding contains
All-contains P [] name h e = absurd (ground arith)
All-contains P (x ∷ xs) name h e = elim (Bool-cases (str_eq x name)) [
  | inl here ↦ subst P ((eq_iff x name).0 here) h.0
  | inr there ↦ All-contains P xs name h.1 (ground arith)
]

row :
    (is_switch : Bool) (entries : List ButtonEncodingEntry) (names : List String) (m n : ℕ)
    → all_buttons is_switch entries names m ≡ true
    → n < m
    → ¬ (n ≡ 13)
    → all_of (reads_back is_switch entries n) names ≡ true
unfolding all_buttons
row is_switch entries names zero n h k ne = absurd (omega arith)
row is_switch entries names (suc m) n h k ne = elim (dec_le m n) [
  | yes last ↦ let e : n ≡ m = omega arith in rw e (ground (arith, ==_iff m 13))
  | no below ↦ row is_switch entries names m n (ground arith) (omega arith) ne
]

mode_buttons :
    (mode : Mode) (byte : ℕ)
    → mode_byte mode ≡ ok byte
    → all_buttons (same_mode mode switch) (encodings_for_mode mode) (outputs mode) 22 ≡ true
unfolding encodings_for_mode xinput switch dinput b.Protocol.WireWrite.same_bytes
mode_buttons mode byte e = elim (mode_byte_cases mode byte e) [
  | inl (m, _) ↦ rw m switch_buttons
  | inr (inl (m, _)) ↦ rw m dinput_buttons
  | inr (inr (m, _)) ↦ rw m xinput_buttons
]

read_code :
    (is_switch : Bool) (entries : List ButtonEncodingEntry) (n : ℕ) (name : String)
    → reads_back is_switch entries n name ≡ true
    → (code : List ℕ) × (new_encoding is_switch entries (source_at entries n) name n ≡ ok code)
      × (decode_target_control entries n code ≡ name)
unfolding reads_back
read_code is_switch entries n name h =
    made (new_encoding is_switch entries (source_at entries n) name n) h
  where
    made :
        (r : Result (List ℕ))
        → (elim r [ err e ↦ false | ok code ↦ str_eq (decode_target_control entries n code) name ])
          ≡ true
        → (code : List ℕ) × (r ≡ ok code) × (decode_target_control entries n code ≡ name)
    made (err e) k = absurd (ground arith)
    made (ok code) k = (code, refl, (eq_iff (decode_target_control entries n code) name).0 k)

-- In each of the three modes, setting a button other than home to any output that the mode has
-- succeeds, whatever the blob held, and the code that is written reads back as that output.
pub target_encoding-decode_target_control :
    (mode : Mode) (byte n : ℕ) (target : String) (kept : List ℕ)
    → mode_byte mode ≡ ok byte
    → n < 22
    → ¬ (n ≡ 13)
    → contains (outputs mode) target ≡ true
    → (code : List ℕ) × (target_encoding
          (same_mode mode switch)
          (encodings_for_mode mode)
          (record { source = source_at (encodings_for_mode mode) n; target = target })
          n
          kept
        ≡ ok code)
      × (decode_target_control (encodings_for_mode mode) n code ≡ target)
unfolding target_encoding
target_encoding-decode_target_control mode byte n target kept known h ne output =
    let entries : List ButtonEncodingEntry = encodings_for_mode mode in
    elim (Bool-cases (str_eq (decode_target_control entries n kept) target)) [
      | inl same ↦
          rw same (kept, refl, (eq_iff (decode_target_control entries n kept) target).0 same)
      | inr other ↦ rw other (
          read_code (same_mode mode switch) entries n target (
            All-contains (λ name. reads_back (same_mode mode switch) entries n name ≡ true)
              (outputs mode) target
              (All-all_of (reads_back (same_mode mode switch) entries n) (outputs mode) (
                row (same_mode mode switch) entries (outputs mode) 22 n
                  (mode_buttons mode byte known) h ne))
              output))
    ]
