-- ===== src/Devices/Pro3/Blob/Coded.antt =====
-- crates/controller-core/src/devices/pro3/tables.rs: the lengths of the codes in the tables.
use b.Shared.{
  zero, suc, set, replicate, get_elem?, ℕ, ◌==◌, ◌≡◌, refl, List, [], ◌∷◌, Bool, true, false,
  if◌then◌else◌, length, All, Option, none, some, arith,
}
use b.Model.Mode.{Mode, same_mode}
use b.Devices.Pro3.{switch, dinput, xinput}
use b.Devices.Pro3.Compile.{wire_code}
use b.Devices.Pro3.Macros.Buttons.{all_of}
use b.Devices.Pro3.Profile.{encodings_for_mode}
use b.Devices.Pro3.Tables.Buttons.{
  ButtonEncodingEntry, xinput_encodings, switch_encodings, dinput_encodings,
}

abbrev pub IsCode : List ℕ → Type 0
IsCode code = length code ≡ 4

abbrev pub AreCodes : List ButtonEncodingEntry → Type 0
AreCodes entries = All (λ e. IsCode (wire_code e)) entries

abbrev pub IsOverride : Option (List ℕ) → Type 0
IsOverride none = Unit
IsOverride (some code) = IsCode code

abbrev pub AreOverrides : List (Option (List ℕ)) → Type 0
AreOverrides overrides = All IsOverride overrides

pub All-set {ℓ κ} :
    {A : Type ℓ} (P : A → Type κ) (xs : List A) (i : ℕ) (x : A)
    → All P xs
    → P x
    → All P (set xs i x)
All-set P [] i x h p = tt
All-set P (y ∷ ys) zero x h p = (p, h.1)
All-set P (y ∷ ys) (suc i) x h p = (h.0, All-set P ys i x h.1 p)

pub no_overrides : (n : ℕ) → AreOverrides (replicate n none)
no_overrides zero = tt
no_overrides (suc n) = (tt, no_overrides n)

pub chosen-IsOverride :
    (overrides : List (Option (List ℕ))) (i : ℕ)
    → AreOverrides overrides
    → IsOverride (elim (get_elem? overrides i) [ none ↦ none | some o ↦ o ])
chosen-IsOverride [] i h = tt
chosen-IsOverride (o ∷ os) zero h = h.0
chosen-IsOverride (o ∷ os) (suc i) h = chosen-IsOverride os i h.1

coded : ButtonEncodingEntry → Bool
coded e = length (wire_code e) == 4

AreCodes-all_of : (es : List ButtonEncodingEntry) → all_of coded es ≡ true → AreCodes es
unfolding all_of coded
AreCodes-all_of [] h = tt
AreCodes-all_of (e ∷ es) h = (ground arith, AreCodes-all_of es (ground arith))

switch_coded : all_of coded switch_encodings ≡ true
unfolding all_of coded
switch_coded = refl

dinput_coded : all_of coded dinput_encodings ≡ true
unfolding all_of coded
dinput_coded = refl

xinput_coded : all_of coded xinput_encodings ≡ true
unfolding all_of coded
xinput_coded = refl

tables-AreCodes :
    (a b c : Bool)
    → AreCodes (
        if a
        then switch_encodings
        else if b
        then dinput_encodings
        else if c
        then xinput_encodings
        else [])
tables-AreCodes true b c = AreCodes-all_of switch_encodings switch_coded
tables-AreCodes false true c = AreCodes-all_of dinput_encodings dinput_coded
tables-AreCodes false false true = AreCodes-all_of xinput_encodings xinput_coded
tables-AreCodes false false false = tt

pub encodings-AreCodes : (mode : Mode) → AreCodes (encodings_for_mode mode)
unfolding encodings_for_mode
encodings-AreCodes mode =
    tables-AreCodes (same_mode mode switch) (same_mode mode dinput) (same_mode mode xinput)
