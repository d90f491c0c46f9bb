-- ===== src/Devices/Pro3/Blob/Readers.antt =====
-- crates/controller-core/src/devices/pro3/profile.rs: which bytes of a blob the readers of a slot
-- take.
use b.Devices.Pro3.Blob.Sections.{
  head_regions, vibration_regions, pair_regions, flag_regions, button_regions, motor_regions,
  crc_regions,
}
use b.Devices.Pro3.Blob.Slots.{macro_region}
use b.Protocol.Bytes.Frames.{Region}
use b.Shared.{◌++◌}
use b.Protocol.Text.{decode_utf16be_name}
use b.Devices.Pro3.Tables.{null_encoding}
use b.Devices.Pro3.Profile.{
  ButtonMapping, adjust, in_slots, unnamed, encodings_for_mode, encodings_for_mode, bytes4_at,
  source_at, decode_target_control, mappings_from, decode_name, decode_button_mappings,
}
use b.Devices.Pro3.Macros.{push_some, decode_descriptor, decode_descriptors, decode_macro_metadata}
use b.Devices.Pro3.Tables.Buttons.{ButtonEncodingEntry}
use b.Devices.Pro3.{slot_index}
use b.Shared.{
  if◌then◌else◌, not, ◌||◌, ltb, ap₂, unwrap_or, ap, ◌-◌, ◌≤◌, zero, suc, zero, suc, ◌<◌, ℕ, ◌+◌,
  ◌*◌, ◌≡◌, ◌>>=◌, refl, List, [], ◌∷◌, ◌++◌, Result, ok, err, length, leb, ltb, inl, inr, Bool,
  true, ◌&&◌, ◌||◌, Bool-cases, arith,
}
use b.Model.Slot.{Slot}
use b.Model.Mode.{Mode}
use b.Model.Macros.{MacroDefinition}
use b.Protocol.Bytes.{slice, take_bytes}
use b.Protocol.Bytes.Frames.{Region, Frame, apart, apart-Outside}
use b.Devices.Pro3.Blob.Sections.{
  head_regions, vibration_regions, pair_regions, flag_regions, button_regions, motor_regions,
  crc_regions,
}
use b.Devices.Pro3.Blob.Slots.{macro_region}

abbrev pub slot_regions : ℕ → List Region
slot_regions i =
    head_regions i
    ++ (vibration_regions i
        ++ (pair_regions 0x98 0x9C i
            ++ (pair_regions 0xB0 0xB4 i
                ++ (flag_regions i
                    ++ (button_regions i
                        ++ ((macro_region i ∷ []) ++ (motor_regions i ++ crc_regions)))))))

-- The bytes that slot `j` reads its name, its buttons and its macros from are outside slot `i`.
unfoldable pub spares : ℕ → ℕ → Bool
spares i j =
    (apart (slot_regions i) (0x14 + j * 0x20) (0x14 + j * 0x20 + 0x20)
      && apart (slot_regions i) (0xE4 + j * 0x5C) (0xE4 + j * 0x5C + 88))
    && apart (slot_regions i) (0x68C + j * 216 + 8) (0x68C + j * 216 + 216)

pub other_slot : (i j : ℕ) → i < 3 → j < 3 → ¬ (i ≡ j) → spares i j ≡ true
unfolding spares apart
other_slot zero zero h k ne = absurd (ne refl)
other_slot zero (suc zero) h k ne = refl
other_slot zero (suc (suc zero)) h k ne = refl
other_slot (suc zero) zero h k ne = refl
other_slot (suc zero) (suc zero) h k ne = absurd (ne refl)
other_slot (suc zero) (suc (suc zero)) h k ne = refl
other_slot (suc (suc zero)) zero h k ne = refl
other_slot (suc (suc zero)) (suc zero) h k ne = refl
other_slot (suc (suc zero)) (suc (suc zero)) h k ne = absurd (ne refl)
other_slot i (suc (suc (suc j))) h k ne = absurd (omega arith)
other_slot (suc (suc (suc i))) j h k ne = absurd (omega arith)

pub slot_index-inverse :
    (slot : Slot) (i : ℕ) → slot_index slot ≡ ok i → (i < 3) × (slot.get ≡ i + 1)
unfolding slot_index
slot_index-inverse slot i e = elim (Bool-cases (leb 1 slot.get && leb slot.get 3)) [
  | inl within ↦ (ground arith, ground arith)
  | inr without ↦ absurd (ground arith)
]

-- Every window in `lo .. hi` holds the same bytes in both blobs.
abbrev Kept : List ℕ → List ℕ → ℕ → ℕ → Type 0
Kept base out lo hi =
    (at n : ℕ) → lo ≤ at → at + n ≤ hi → take_bytes out at n ≡ take_bytes base at n

pub Frame-Kept :
    (rs : List Region) (base out : List ℕ) (lo hi : ℕ)
    → Frame rs base out
    → apart rs lo hi ≡ true
    → Kept base out lo hi
unfolding take_bytes slice
Frame-Kept rs base out lo hi f e at n h k = f.same at n (apart-Outside rs lo hi at n e h k)

module _ (base out : List ℕ) where
  mappings_from-Kept :
      (left index : ℕ) (entries : List ButtonEncodingEntry) (lo : ℕ)
      → index + left ≡ 22
      → Kept base out lo (lo + 88)
      → mappings_from left index entries out lo ≡ mappings_from left index entries base lo
  unfolding mappings_from bytes4_at
  mappings_from-Kept zero index entries lo e kept = refl
  mappings_from-Kept (suc left) index entries lo e kept =
      ap₂
        (λ code rest.
          record {
            source = source_at entries index;
            target = decode_target_control entries index code;
          }
          ∷ rest)
        (ap (λ r. unwrap_or r null_encoding) (kept (lo + index * 4) 4 (omega arith) (omega arith)))
        (mappings_from-Kept left (index + 1) entries lo (omega arith) kept)

  decode_descriptors-Kept :
      (left index lo : ℕ)
      → index + left ≡ 4
      → Kept base out lo (lo + 208)
      → decode_descriptors left index lo out ≡ decode_descriptors left index lo base
  unfolding decode_descriptors
  decode_descriptors-Kept zero index lo e kept = refl
  decode_descriptors-Kept (suc left) index lo e kept =
      ap₂
        (λ (r : Result (List ℕ)) (rest : Result (List MacroDefinition)). elim r [
          | err e ↦ ok []
          | ok descriptor ↦ do
            found ← decode_descriptor index descriptor
            others ← rest
            ok (push_some found others)
        ])
        (kept (lo + index * 52) 52 (omega arith) (omega arith))
        (decode_descriptors-Kept left (index + 1) lo (omega arith) kept)

  pub decode_name-Kept :
      (slot : ℕ)
      → Kept base out (0x14 + (slot - 1) * 0x20) (0x14 + (slot - 1) * 0x20 + 0x20)
      → decode_name out slot true ≡ decode_name base slot true
  unfolding decode_name adjust
  decode_name-Kept slot kept =
      ap
        (λ (r : Result (List ℕ)).
          if not (in_slots slot)
          then unnamed
          else elim r [ err e ↦ unnamed | ok bytes ↦ decode_utf16be_name bytes ])
        (kept (0x14 + (slot - 1) * 0x20) 0x20 (omega arith) (omega arith))

  pub decode_button_mappings-Kept :
      (mode : Mode) (slot : ℕ)
      → Kept base out (0xE4 + (slot - 1) * 0x5C) (0xE4 + (slot - 1) * 0x5C + 88)
      → decode_button_mappings out mode slot ≡ decode_button_mappings base mode slot
  unfolding decode_button_mappings
  decode_button_mappings-Kept mode slot kept =
      ap
        (λ (mappings : List ButtonMapping).
          if not (in_slots slot) || ltb (length (encodings_for_mode mode)) 22 then [] else mappings)
        (mappings_from-Kept 22 0 (encodings_for_mode mode) (0xE4 + (slot - 1) * 0x5C) refl kept)

  pub decode_macro_metadata-Kept :
      (slot : Slot) (j : ℕ)
      → slot_index slot ≡ ok j
      → Kept base out (0x68C + j * 216 + 8) (0x68C + j * 216 + 216)
      → decode_macro_metadata out slot ≡ decode_macro_metadata base slot
  unfolding decode_macro_metadata
  decode_macro_metadata-Kept slot j at kept =
      rw at (
        decode_descriptors-Kept 4 0 (0x68C + j * 216 + 8) refl
          (λ a n h k. kept a n h (omega arith)))
