-- ===== src/Devices/Pro3/Tables.antt =====
-- crates/controller-core/src/devices/pro3/tables.rs: the layout of the Pro 3's profile blob and the
-- codes of its buttons. The encodings are lists of four bytes.
pub mod Buttons
use b.Shared.{ℕ, List, [], ◌∷◌}

abbrev pub expected_profile_size : ℕ
expected_profile_size = 0x092C

abbrev pub name_base_offset : ℕ
name_base_offset = 0x0016

abbrev pub name_stride : ℕ
name_stride = 0x20

abbrev pub name_bytes : ℕ
name_bytes = 0x20

abbrev pub flag_base_offset : ℕ
flag_base_offset = 0x0002

abbrev pub flag_stride : ℕ
flag_stride = 0x04

abbrev pub stick_data_offset : ℕ
stick_data_offset = 0x009E

abbrev pub trigger_data_offset : ℕ
trigger_data_offset = 0x00B6

abbrev pub slot_flags_offset : ℕ
slot_flags_offset = 0x00CE

abbrev pub vibration_section_offset : ℕ
vibration_section_offset = 0x0076

abbrev pub slot_data_stride : ℕ
slot_data_stride = 8

abbrev pub vibration_section_stride : ℕ
vibration_section_stride = 12

abbrev pub button_map_base_offset : ℕ
button_map_base_offset = 0x00E4

abbrev pub button_map_slot_stride : ℕ
button_map_slot_stride = 0x5C

abbrev pub button_entry_bytes : ℕ
button_entry_bytes = 4

abbrev pub profile_slot_count : ℕ
profile_slot_count = 3

abbrev pub home_guide_index : ℕ
home_guide_index = 13

abbrev pub turbo_index : ℕ
turbo_index = 12

abbrev pub null_default_first_index : ℕ
null_default_first_index = 18

abbrev pub source_button_count : ℕ
source_button_count = 22

abbrev pub stick_min_pct_lo : ℕ
stick_min_pct_lo = 0

abbrev pub stick_min_pct_hi : ℕ
stick_min_pct_hi = 90

abbrev pub stick_max_pct_lo : ℕ
stick_max_pct_lo = 10

abbrev pub stick_max_pct_hi : ℕ
stick_max_pct_hi = 100

abbrev pub switch_threshold_pct_lo : ℕ
switch_threshold_pct_lo = 0

abbrev pub switch_threshold_pct_hi : ℕ
switch_threshold_pct_hi = 90

abbrev pub default_stick_min_pct : ℕ
default_stick_min_pct = 13

abbrev pub default_switch_threshold_pct : ℕ
default_switch_threshold_pct = 30

abbrev pub stick_raw_max : ℕ
stick_raw_max = 128

abbrev pub trigger_raw_max : ℕ
trigger_raw_max = 255

abbrev pub vibration_level_max : ℕ
vibration_level_max = 5

abbrev pub section4_base_offset : ℕ
section4_base_offset = 0x068C

abbrev pub section4_slot_stride : ℕ
section4_slot_stride = 216

abbrev pub section4_record_header_size : ℕ
section4_record_header_size = 8

abbrev pub macro_descriptor_size : ℕ
macro_descriptor_size = 52

abbrev pub macro_slots_per_profile : ℕ
macro_slots_per_profile = 4

abbrev pub macro_name_bytes : ℕ
macro_name_bytes = 32

abbrev pub macro_mode_offset : ℕ
macro_mode_offset = 32

abbrev pub macro_max_steps_offset : ℕ
macro_max_steps_offset = 34

abbrev pub macro_offset_field_offset : ℕ
macro_offset_field_offset = 36

abbrev pub macro_key_map_offset : ℕ
macro_key_map_offset = 40

abbrev pub macro_repeat_count_offset : ℕ
macro_repeat_count_offset = 44

abbrev pub macro_interval_ms_offset : ℕ
macro_interval_ms_offset = 48

abbrev pub macro_step_record_size : ℕ
macro_step_record_size = 10

abbrev pub step_button_bits_mask : ℕ
step_button_bits_mask = 0x3FFF

abbrev pub step_switch_l2_mask : ℕ
step_switch_l2_mask = 0x4000

abbrev pub step_switch_r2_mask : ℕ
step_switch_r2_mask = 0x8000

abbrev pub slot_marker : List ℕ
slot_marker = 0x11 ∷ 0x09 ∷ 0x20 ∷ 0x20 ∷ []

abbrev pub null_encoding : List ℕ
null_encoding = 0x00 ∷ 0x00 ∷ 0x00 ∷ 0x00 ∷ []

abbrev pub switch_turbo_default : List ℕ
switch_turbo_default = 0x00 ∷ 0x00 ∷ 0x40 ∷ 0x00 ∷ []
