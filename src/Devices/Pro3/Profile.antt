-- ===== src/Devices/Pro3/Profile.antt =====
-- crates/controller-core/src/devices/pro3/profile.rs: the decoder of a profile blob. The floating
-- point of the percentages is exact for a byte and is written as a quotient; a single-precision
-- level is read from its bits.
use Prim.Native.String.{String}
use b.Shared.{
  unwrap_or, ℕ, zero, suc, ◌+◌, ◌-◌, ◌*◌, ◌/◌, ◌==◌, min, ltb, leb, if◌then◌else◌, ◌&&◌, ◌||◌, not,
  List, [], ◌∷◌, Bool, false, length, get_elem?, drop, filter, find, Option, none, some, ok, err,
}
use b.Model.Mode.{Mode, same_mode}
use b.Protocol.WireWrite.{same_bytes}
use b.Protocol.Bytes.{read_u8, take_bytes}
use b.Protocol.Text.{decode_utf16be_name}
use b.Devices.Pro3.{xinput, dinput}
use b.Devices.Pro3 as pro3
use b.Devices.Pro3.Tables.{
  slot_marker, null_encoding, flag_stride, name_base_offset, name_stride, name_bytes,
  button_map_base_offset, button_map_slot_stride, button_entry_bytes, source_button_count,
  home_guide_index, null_default_first_index,
}
use b.Devices.Pro3.Tables.Buttons.{
  ButtonEncodingEntry, xinput_encodings, switch_encodings, dinput_encodings,
}

-- `DecodeLayout::adjust`: the layout is whether the blob is shifted by two.
unfoldable pub adjust : Bool → ℕ → ℕ
adjust shifted_by_two offset = if shifted_by_two then offset - 2 else offset

unfoldable pub marker_at : List ℕ → ℕ → Bool
unfolding take_bytes same_bytes
marker_at payload offset = elim (take_bytes payload offset 4) [
  | err e ↦ false
  | ok s ↦ same_bytes s slot_marker
]

unfoldable pub detect_layout : List ℕ → Bool
unfolding marker_at
detect_layout payload =
    marker_at payload (0 * flag_stride)
    || (marker_at payload (1 * flag_stride) || marker_at payload (2 * flag_stride))

unfoldable pub byte_at : List ℕ → ℕ → ℕ
unfolding read_u8
byte_at payload offset = unwrap_or (read_u8 payload offset) 0

unfoldable pub bytes4_at : List ℕ → ℕ → List ℕ
unfolding take_bytes
bytes4_at payload offset = unwrap_or (take_bytes payload offset 4) null_encoding

-- `floor(raw * 100 / raw_max + 0.5)`, clamped: no byte comes near a half, so the division in double
-- precision rounds to the same integer.
unfoldable pub to_percent : ℕ → ℕ → ℕ
to_percent raw raw_max = if raw_max == 0 then 0 else min 100 ((raw * 200 + raw_max) / (2 * raw_max))

abbrev pub in_slots : ℕ → Bool
in_slots source_slot = leb 1 source_slot && leb source_slot 3

-- "unnamed"
abbrev pub unnamed : List ℕ
unnamed = b'u' ∷ b'n' ∷ b'n' ∷ b'a' ∷ b'm' ∷ b'e' ∷ b'd' ∷ []

unfoldable pub decode_name : List ℕ → ℕ → Bool → List ℕ
unfolding adjust take_bytes decode_utf16be_name
decode_name payload source_slot layout =
    if not (in_slots source_slot)
    then unnamed
    else elim (take_bytes payload (adjust layout name_base_offset + (source_slot - 1) * name_stride)
        name_bytes) [ err e ↦ unnamed | ok bytes ↦ decode_utf16be_name bytes ]

unfoldable pub encodings_for_mode : Mode → List ButtonEncodingEntry
encodings_for_mode mode =
    if same_mode mode pro3.switch
    then switch_encodings
    else if same_mode mode dinput
    then dinput_encodings
    else if same_mode mode xinput
    then xinput_encodings
    else []

unfoldable pub any {ℓ} : {A : Type ℓ} → (A → Bool) → List A → Bool
any p [] = false
any p (x ∷ xs) = p x || any p xs

unfoldable pub has_target_only_output : List ButtonEncodingEntry → List ℕ → Bool
unfolding any same_bytes
has_target_only_output entries value =
    any (λ e. same_bytes e.encoding value) (drop source_button_count entries)

-- The loop of step 4: the indices from `i` on whose entry passes the test.
unfoldable matches_from : (ButtonEncodingEntry → Bool) → ℕ → List ButtonEncodingEntry → List ℕ
matches_from p i [] = []
matches_from p i (e ∷ es) = let rest = matches_from p (i + 1) es in if p e then i ∷ rest else rest

abbrev pub is_paddle_index : ℕ → Bool
is_paddle_index i = leb null_default_first_index i && ltb i source_button_count

-- The closure `pick_best`.
unfoldable pick_best : ℕ → List ℕ → Option ℕ
pick_best source_index matches = elim (find (λ i. not (i == source_index)) matches) [
  | some i ↦ some i
  | none ↦ get_elem? matches 0
]

-- Steps 4 to 8.
unfoldable search_target : List ButtonEncodingEntry → ℕ → List ℕ → String
unfolding matches_from pick_best any same_bytes
search_target entries source_index value =
    let primary =
      filter (λ i. not (is_paddle_index i))
        (matches_from (λ e. same_bytes e.encoding value) 0 entries) in
    let variant =
      filter (λ i. not (is_paddle_index i))
        (matches_from (λ e. any (λ v. same_bytes v value) e.variant_identity_encodings) 0
          entries) in
    let best : Option ℕ = elim (pick_best source_index primary) [
      | some i ↦ some i
      | none ↦ pick_best source_index variant
    ] in
    elim best [
      | none ↦ "unrecognised"
      | some i ↦ elim (get_elem? entries i) [ none ↦ "unrecognised" | some e ↦ e.source ]
    ]

-- Step 1: nothing is sent.
unfoldable is_disabled : List ButtonEncodingEntry → ℕ → List ℕ → Bool
unfolding has_target_only_output same_bytes
is_disabled entries source_index value =
    same_bytes value null_encoding
    || (is_paddle_index source_index
        && (not (has_target_only_output entries value) && elim (get_elem? entries source_index) [
          | none ↦ false
          | some e ↦ same_bytes e.encoding value
        ]))

-- Steps 2 and 3: the source's own code or an alternate of it.
unfoldable is_identity : ButtonEncodingEntry → List ℕ → Bool
unfolding any same_bytes
is_identity e value =
    same_bytes value e.encoding || any (λ v. same_bytes v value) e.variant_identity_encodings

-- Steps 1 to 8.
unfoldable decode_remapped : List ButtonEncodingEntry → ℕ → List ℕ → String
unfolding is_disabled is_identity search_target
decode_remapped entries source_index value =
    if is_disabled entries source_index value
    then "disabled"
    else elim (get_elem? entries source_index) [
      | none ↦ search_target entries source_index value
      | some e ↦
          if not (is_paddle_index source_index) && is_identity e value
          then e.source
          else search_target entries source_index value
    ]

unfoldable pub decode_target_control : List ButtonEncodingEntry → ℕ → List ℕ → String
unfolding decode_remapped
decode_target_control entries source_index value =
    if source_index == home_guide_index
    then elim (get_elem? entries source_index) [
      | some e ↦ e.source
      | none ↦ decode_remapped entries source_index value
    ]
    else decode_remapped entries source_index value

-- `entries.get(index).map_or("", |e| e.source)`
abbrev pub source_at : List ButtonEncodingEntry → ℕ → String
source_at entries index = elim (get_elem? entries index) [ none ↦ "" | some e ↦ e.source ]

pub record ButtonMapping : Type 0 where
  pub source : String
  pub target : String

-- The loop of `decode_button_mappings` from `index` on, with `left` buttons to go.
unfoldable pub mappings_from : ℕ → ℕ → List ButtonEncodingEntry → List ℕ → ℕ → List ButtonMapping
unfolding bytes4_at decode_target_control
mappings_from zero index entries payload base = []
mappings_from (suc left) index entries payload base =
    record {
      source = source_at entries index;
      target =
          decode_target_control entries index
            (bytes4_at payload (base + index * button_entry_bytes));
    }
    ∷ mappings_from left (index + 1) entries payload base

unfoldable pub decode_button_mappings : List ℕ → Mode → ℕ → List ButtonMapping
unfolding encodings_for_mode mappings_from
decode_button_mappings payload mode source_slot =
    let entries = encodings_for_mode mode in
    if not (in_slots source_slot) || ltb (length entries) source_button_count
    then []
    else mappings_from source_button_count 0 entries payload
        (button_map_base_offset + (source_slot - 1) * button_map_slot_stride)
