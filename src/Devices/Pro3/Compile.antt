-- ===== src/Devices/Pro3/Compile.antt =====
-- crates/controller-core/src/devices/pro3/profile.rs: the compiler of a profile, the inverse of
-- `map_profile`. The settings are those that `Settings::of` reads from the profile's JSON.
pub mod ReadBack
use Prim.Native.String.{String}
use text.Mathlib.Text.{◌==◌ as str_eq}
use b.Shared.{
  ℕ, ◌+◌, ◌*◌, ◌/◌, ◌==◌, min, leb, if◌then◌else◌, ◌&&◌, not, List, [], ◌∷◌, Bool, get_elem?, take,
  find, set, Option, none, some, Result, ok, err, validation, ◌>>=◌,
}
use b.Shared.Int.{ℤ, clamp, same_int}
use b.Devices.Pro3.Profile.{
  bytes4_at, to_percent, has_target_only_output, decode_target_control, ButtonMapping,
}
use b.Devices.Pro3.Tables.{
  stick_raw_max, trigger_raw_max, button_entry_bytes, source_button_count, null_default_first_index,
  null_encoding, switch_turbo_default, home_guide_index,
}
use b.Devices.Pro3.Tables.Buttons.{ButtonEncodingEntry}

-- `floor(pct * raw_max / 100 + 0.5)` of a clamped percentage. A half is exact in double precision,
-- and any other quotient is far enough from one.
unfoldable pub percent_to_byte : ℕ → ℤ → ℕ
percent_to_byte raw_max pct = min raw_max ((clamp pct 0 100 * raw_max * 2 + 100) / 200)

abbrev pub percent_to_stick_byte : ℤ → ℕ
percent_to_stick_byte pct = percent_to_byte stick_raw_max pct

abbrev pub percent_to_trigger_byte : ℤ → ℕ
percent_to_trigger_byte pct = percent_to_byte trigger_raw_max pct

unfoldable pub keep_or_encode : ℕ → ℤ → ℕ → (ℤ → ℕ) → ℕ
keep_or_encode base pct raw_max encode =
    if same_int (to_percent base raw_max) pct then base else encode pct

-- `Iterator::position`, from `i` on; `none` is `usize::MAX`.
unfoldable pub position_from :
    (ButtonEncodingEntry → Bool) → ℕ → List ButtonEncodingEntry → Option ℕ
position_from p i [] = none
position_from p i (e ∷ es) = if p e then some i else position_from p (i + 1) es

unfoldable pub control_name_to_index : String → List ButtonEncodingEntry → Option ℕ
control_name_to_index name entries =
    position_from (λ e. str_eq e.source name) 0 (take source_button_count entries)

-- `variant_identity_encodings.first().copied().unwrap_or(encoding)`
abbrev pub wire_code : ButtonEncodingEntry → List ℕ
wire_code e = elim (get_elem? e.variant_identity_encodings 0) [ none ↦ e.encoding | some v ↦ v ]

unfoldable pub write_encoding : String → List ButtonEncodingEntry → Result (List ℕ)
write_encoding name entries = elim (find (λ e. str_eq e.source name) entries) [
  | none ↦ err validation
  | some e ↦ ok (wire_code e)
]

-- What `disabled` writes.
unfoldable pub disabled_encoding : String → ℕ → List ButtonEncodingEntry → Result (List ℕ)
disabled_encoding source source_idx entries = do
  own ← write_encoding source entries
  ok (
      if leb null_default_first_index source_idx && not (has_target_only_output entries own)
      then own
      else null_encoding)

-- The code of a mapping that changes the button.
unfoldable pub new_encoding :
    Bool → List ButtonEncodingEntry → String → String → ℕ → Result (List ℕ)
new_encoding is_switch entries source target source_idx =
    if str_eq target "unrecognised"
    then err validation
    else if str_eq target "disabled"
    then disabled_encoding source source_idx entries
    else if str_eq target "screenshot" && is_switch
    then ok switch_turbo_default
    else if str_eq target "screenshot"
    then write_encoding source entries
    else write_encoding target entries

-- The code of a mapping, from the entry that the blob holds.
unfoldable pub target_encoding :
    Bool → List ButtonEncodingEntry → ButtonMapping → ℕ → List ℕ → Result (List ℕ)
target_encoding is_switch entries mapping source_idx kept =
    if str_eq (decode_target_control entries source_idx kept) mapping.target
    then ok kept
    else new_encoding is_switch entries mapping.source mapping.target source_idx

-- One pass of the loop over `profile.button_mappings`.
unfoldable pub override_with :
    Bool
    → List ButtonEncodingEntry
    → ButtonMapping
    → List ℕ
    → ℕ
    → List (Option (List ℕ))
    → Result (List (Option (List ℕ)))
override_with is_switch entries mapping buf entry_base overrides =
    elim (control_name_to_index mapping.source entries) [
      | none ↦ ok overrides
      | some source_idx ↦ do
        let kept = bytes4_at buf (entry_base + source_idx * button_entry_bytes)
        enc ← target_encoding is_switch entries mapping source_idx kept
        forced ←
            (if source_idx == home_guide_index then write_encoding "home/guide" entries else ok enc)
        ok (set overrides source_idx (some forced))
    ]

unfoldable pub overrides_from :
    Bool
    → List ButtonEncodingEntry
    → List ButtonMapping
    → List ℕ
    → ℕ
    → List (Option (List ℕ))
    → Result (List (Option (List ℕ)))
overrides_from is_switch entries [] buf entry_base overrides = ok overrides
overrides_from is_switch entries (mapping ∷ rest) buf entry_base overrides = do
  overrides ← override_with is_switch entries mapping buf entry_base overrides
  overrides_from is_switch entries rest buf entry_base overrides
