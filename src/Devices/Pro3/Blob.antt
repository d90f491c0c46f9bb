-- ===== src/Devices/Pro3/Blob.antt =====
-- crates/controller-core/src/devices/pro3/profile.rs: `compile_profile`, section by section.
pub mod Coded
pub mod Codes
pub mod Sections
pub mod Slots
pub mod Readers
pub mod Compiled
pub mod Sealed
pub mod Overrides
pub mod Complete
pub mod Preserved
pub mod Kept
pub mod Values
pub mod StickValues
pub mod Own
use b.Shared.{
  ℕ, zero, suc, ◌+◌, ◌*◌, ◌==◌, leb, if◌then◌else◌, ◌&&◌, List, [], ◌∷◌, Bool, length, get_elem?,
  replicate, Option, none, some, Result, ok, err, validation, ◌>>=◌, bit_or,
}
use b.Shared.Int.{ℤ, clamp}
use b.Model.Mode.{Mode, same_mode}
use b.Model.Slot.{Slot}
use b.Model.MacroSlot as macro_slots
use b.Model.Macros.{MacroDefinition}
use b.Protocol.Bytes.{put_slice, put_u16_le, put_u32_le}
use b.Protocol.Crc16.{crc16_modbus}
use b.Protocol.Text.{encode_utf16be_name}
use b.Devices.Pro3 as pro3
use b.Devices.Pro3.{slot_index}
use b.Devices.Pro3.Macros.{encode_macro_metadata}
use b.Devices.Pro3.Profile.{source_at, byte_at, encodings_for_mode, ButtonMapping}
use b.Devices.Pro3.Compile.{
  percent_to_stick_byte, percent_to_trigger_byte, keep_or_encode, write_encoding, overrides_from,
}
use b.Devices.Pro3.Settings.{Settings, Sticks, Triggers, analog, switch, Vibration}
use b.Devices.Pro3.Tables.{
  expected_profile_size, flag_stride, slot_marker, name_stride, name_bytes,
  vibration_section_stride, slot_data_stride, stick_raw_max, trigger_raw_max,
  button_map_slot_stride, button_entry_bytes, source_button_count, null_encoding,
  switch_turbo_default, turbo_index, section4_base_offset, section4_slot_stride,
  section4_record_header_size, macro_slots_per_profile, macro_descriptor_size,
  button_map_base_offset,
}
use b.Devices.Pro3.Tables.Buttons.{ButtonEncodingEntry}

abbrev dev_mode_offset : ℕ
dev_mode_offset = 0x0010

abbrev dev_name_base : ℕ
dev_name_base = 0x0014

abbrev dev_vib_base : ℕ
dev_vib_base = 0x0074

abbrev dev_stick_flag_base : ℕ
dev_stick_flag_base = 0x0098

abbrev dev_stick_data_base : ℕ
dev_stick_data_base = 0x009C

abbrev dev_trig_flag_base : ℕ
dev_trig_flag_base = 0x00B0

abbrev dev_trig_data_base : ℕ
dev_trig_data_base = 0x00B4

abbrev dev_sect3_marker_base : ℕ
dev_sect3_marker_base = 0x00C8

abbrev dev_flags_base : ℕ
dev_flags_base = 0x00CC

abbrev dev_btn_marker_base : ℕ
dev_btn_marker_base = 0x00E0

abbrev dev_sect5_base : ℕ
dev_sect5_base = 0x0914

abbrev dev_crc_offset : ℕ
dev_crc_offset = 0x000C

-- What `compile_profile` reads of a `CanonicalProfile`; the settings are those of `Settings::of`.
pub record Profile : Type 0 where
  pub name : List ℕ
  pub mode : Mode
  pub settings : Result Settings
  pub button_mappings : List ButtonMapping

unfoldable pub mode_enc : Mode → Result ℕ
mode_enc mode =
    if same_mode mode pro3.switch
    then ok 0
    else if same_mode mode pro3.dinput
    then ok 1
    else if same_mode mode pro3.xinput
    then ok 3
    else err validation

-- Section 0: marker, mode and name.
unfoldable pub write_head : Profile → ℕ → List ℕ → Result (List ℕ)
write_head profile idx buf = do
  buf ← put_slice buf (0 + idx * flag_stride) slot_marker
  mode ← mode_enc profile.mode
  buf ← put_u16_le buf dev_mode_offset mode
  put_slice buf (dev_name_base + idx * name_stride) (encode_utf16be_name profile.name name_bytes)

-- `(level.clamp(0, 5) as f32 / 5.0).to_bits()`
abbrev level_bits : ℤ → ℕ
level_bits level =
    let n = clamp level 0 5 in
    if n == 0
    then 0x00000000
    else if n == 1
    then 0x3E4CCCCD
    else if n == 2
    then 0x3ECCCCCD
    else if n == 3
    then 0x3F19999A
    else if n == 4
    then 0x3F4CCCCD
    else 0x3F800000

-- Section 1.
unfoldable pub write_vibration : Vibration → ℕ → List ℕ → Result (List ℕ)
write_vibration vibration idx buf = do
  let vib_off = dev_vib_base + idx * vibration_section_stride
  buf ← put_slice buf vib_off slot_marker
  buf ← put_u32_le buf (vib_off + 4) (level_bits vibration.left_level)
  put_u32_le buf (vib_off + 8) (level_bits vibration.right_level)

-- Section 2A.
unfoldable pub write_sticks : Sticks → ℕ → List ℕ → Result (List ℕ)
write_sticks sticks idx buf = do
  buf ← put_slice buf (dev_stick_flag_base + idx * slot_data_stride) slot_marker
  let data_off = dev_stick_data_base + idx * slot_data_stride
  let stick = λ (i : ℕ) (pct : ℤ).
      keep_or_encode (byte_at buf (data_off + i)) pct stick_raw_max percent_to_stick_byte
  put_slice buf data_off (
      stick 0 sticks.left_min_pct
      ∷ stick 1 sticks.left_max_pct
      ∷ stick 2 sticks.right_min_pct
      ∷ stick 3 sticks.right_max_pct
      ∷ [])

unfoldable pub trig_bytes : Triggers → (ℕ → ℤ → ℕ) → List ℕ
trig_bytes (analog a) trig =
    trig 0 a.left_min_pct
    ∷ trig 1 a.left_max_pct
    ∷ trig 2 a.right_min_pct
    ∷ trig 3 a.right_max_pct
    ∷ []
trig_bytes (switch sw) trig =
    trig 0 sw.left_threshold_pct ∷ 0xFF ∷ trig 2 sw.right_threshold_pct ∷ 0xFF ∷ []

-- Section 2B.
unfoldable pub write_triggers : Triggers → ℕ → List ℕ → Result (List ℕ)
write_triggers triggers idx buf = do
  buf ← put_slice buf (dev_trig_flag_base + idx * slot_data_stride) slot_marker
  let data_off = dev_trig_data_base + idx * slot_data_stride
  put_slice buf data_off (
      trig_bytes triggers (λ i pct.
        keep_or_encode (byte_at buf (data_off + i)) pct trigger_raw_max percent_to_trigger_byte))

abbrev pub swap_triggers_of : Triggers → Bool
swap_triggers_of (analog a) = a.swap_triggers
swap_triggers_of (switch sw) = sw.swap_triggers

-- `if on { flags |= mask }`
abbrev pub or_if : Bool → ℕ → ℕ → ℕ
or_if on mask flags = if on then bit_or flags mask else flags

unfoldable pub flags0_of : Sticks → Triggers → ℕ
flags0_of sticks triggers = or_if (swap_triggers_of triggers) 0x80 (
    or_if sticks.swap_sticks 0x10 (
      or_if sticks.invert_right_y 0x08 (
        or_if sticks.invert_right_x 0x04
          (or_if sticks.invert_left_y 0x02 (or_if sticks.invert_left_x 0x01 0)))))

unfoldable pub flags1_of : Sticks → ℕ
flags1_of sticks = or_if sticks.swap_dpad_with_left_stick 0x01 0

-- Section 3, the flags.
unfoldable pub write_flags : Sticks → Triggers → ℕ → List ℕ → Result (List ℕ)
write_flags sticks triggers idx buf = do
  buf ← put_slice buf (dev_sect3_marker_base + idx * slot_data_stride) slot_marker
  put_slice buf (dev_flags_base + idx * slot_data_stride)
      (flags0_of sticks triggers ∷ flags1_of sticks ∷ [])

-- The code of a button that no mapping sets.
unfoldable pub default_encoding : Bool → List ButtonEncodingEntry → ℕ → List ℕ
default_encoding is_switch entries i =
    if i == turbo_index && is_switch
    then switch_turbo_default
    else elim (write_encoding (if i == turbo_index then "turbo" else source_at entries i) entries) [
      | err e ↦ null_encoding
      | ok code ↦ code
    ]

-- `remap_overrides.get(i).copied().flatten()`
abbrev override_at : List (Option (List ℕ)) → ℕ → Option (List ℕ)
override_at overrides i = elim (get_elem? overrides i) [ none ↦ none | some o ↦ o ]

unfoldable pub entry_code : Bool → List ButtonEncodingEntry → List (Option (List ℕ)) → ℕ → List ℕ
entry_code is_switch entries overrides i = elim (override_at overrides i) [
  | none ↦ default_encoding is_switch entries i
  | some code ↦ code
]

-- The loop over the entries, with `left` to go.
unfoldable pub write_entries : ℕ → ℕ → (ℕ → List ℕ) → ℕ → List ℕ → Result (List ℕ)
write_entries zero i code entry_base buf = ok buf
write_entries (suc left) i code entry_base buf = do
  buf ← put_slice buf (entry_base + i * button_entry_bytes) (code i)
  write_entries left (i + 1) code entry_base buf

-- Section 3, the button map.
unfoldable pub write_buttons : Profile → ℕ → List ℕ → Result (List ℕ)
write_buttons profile idx buf = do
  buf ← put_slice buf (dev_btn_marker_base + idx * button_map_slot_stride) slot_marker
  let entries = encodings_for_mode profile.mode
  let is_switch = same_mode profile.mode pro3.switch
  let entry_base = button_map_base_offset + idx * button_map_slot_stride
  overrides ←
      overrides_from is_switch entries profile.button_mappings buf entry_base
        (replicate source_button_count none)
  write_entries source_button_count 0 (entry_code is_switch entries overrides) entry_base buf

-- One pass of the loop over the macros.
unfoldable pub write_descriptor : MacroDefinition → ℕ → ℕ → List ℕ → Result (List ℕ)
write_descriptor m slot_idx sect4_base buf = do
  macro_slot ← macro_slots.new slot_idx
  descriptor ← encode_macro_metadata m macro_slot
  put_slice buf (sect4_base + section4_record_header_size + slot_idx * macro_descriptor_size)
      descriptor

unfoldable pub write_macro_descriptors : List MacroDefinition → ℕ → List ℕ → Result (List ℕ)
write_macro_descriptors [] sect4_base buf = ok buf
write_macro_descriptors (m ∷ macros) sect4_base buf =
    let slot_idx : ℕ = elim m.macro_slot [ none ↦ 0 | some i ↦ i ] in
    let after =
      if leb macro_slots_per_profile slot_idx
      then ok buf
      else write_descriptor m slot_idx sect4_base buf in
    after >>= write_macro_descriptors macros sect4_base

-- Section 4.
unfoldable pub write_macros : List MacroDefinition → ℕ → List ℕ → Result (List ℕ)
write_macros macros idx buf = do
  let sect4_base = section4_base_offset + idx * section4_slot_stride
  buf ← put_slice buf sect4_base slot_marker
  buf ← put_u32_le buf (sect4_base + 4) macro_slots_per_profile
  buf ←
      put_slice buf (sect4_base + section4_record_header_size)
        (replicate (macro_slots_per_profile * macro_descriptor_size) 0)
  write_macro_descriptors macros sect4_base buf

-- Section 5.
unfoldable pub write_motor_range : ℕ → List ℕ → Result (List ℕ)
write_motor_range idx buf = do
  let sect5_off = dev_sect5_base + idx * 8
  buf ← put_slice buf sect5_off slot_marker
  let range_off = sect5_off + 4
  buf ← put_slice buf range_off (1 ∷ 100 ∷ [])
  if leb (range_off + 4) expected_profile_size
      then put_slice buf (range_off + 2) (1 ∷ 100 ∷ [])
      else ok buf

unfoldable pub seal_crc : List ℕ → Result (List ℕ)
seal_crc buf = do
  buf ← put_u32_le buf dev_crc_offset 0
  put_u16_le buf dev_crc_offset (crc16_modbus buf)

unfoldable pub compile_profile : Profile → Slot → List ℕ → List MacroDefinition → Result (List ℕ)
compile_profile profile target_slot base_blob macros = do
  let buf =
      if length base_blob == expected_profile_size
      then base_blob
      else replicate expected_profile_size 0
  idx ← slot_index target_slot
  settings ← profile.settings
  buf ← write_head profile idx buf
  buf ← write_vibration settings.vibration idx buf
  buf ← write_sticks settings.sticks idx buf
  buf ← write_triggers settings.triggers idx buf
  buf ← write_flags settings.sticks settings.triggers idx buf
  buf ← write_buttons profile idx buf
  buf ← write_macros macros idx buf
  buf ← write_motor_range idx buf
  seal_crc buf
