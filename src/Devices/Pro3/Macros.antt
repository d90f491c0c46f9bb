-- ===== src/Devices/Pro3/Macros.antt =====
-- crates/controller-core/src/devices/pro3/macros.rs: the macro descriptors and step records of the
-- Pro 3, decoded and encoded.
pub mod Buttons
pub mod Triggers
pub mod Routing
pub mod Steps
pub mod RoundTrip
pub mod Fields
pub mod Descriptor
pub mod Listed
use Prim.Native.String.{String}
use mathlib.Core.Option
use text.Mathlib.Text.{◌==◌ as str_eq}
use b.Shared.{
  ok_or, ℕ, zero, suc, ◌+◌, ◌-◌, ◌*◌, ◌/◌, ◌%◌, ◌^◌, ◌==◌, ltb, leb, if◌then◌else◌, ◌&&◌, not, List,
  [], ◌∷◌, map, Bool, true, false, length, set, filter, find, replicate, Option, none, some,
  bit_and, bit_or, Result, ok, err, ◌>>=◌, ◌>>◌, refuse_if, validation, decode,
}
use b.Shared.Masks.{has_bit}
use b.Model.Mode.{Mode, same_mode}
use b.Model.Slot.{Slot}
use b.Model.MacroSlot.{MacroSlot}
use b.Model.Macros.{MacroStep, MacroDefinition, default_step}
use b.Protocol.Bytes.{
  read_u8, read_u16_le, read_u32_le, take_bytes, put_slice, put_u16_le, put_u32_le,
}
use b.Protocol.Text.{decode_utf16be_name, encode_utf16be_name}
use b.Devices.Pro3.{xinput, switch, dinput, mode_byte, slot_index}
use b.Devices.Pro3.Tables.{
  section4_base_offset, section4_slot_stride, section4_record_header_size, macro_descriptor_size,
  macro_slots_per_profile, macro_name_bytes, macro_mode_offset, macro_max_steps_offset,
  macro_offset_field_offset, macro_key_map_offset, macro_repeat_count_offset,
  macro_interval_ms_offset, macro_step_record_size, step_button_bits_mask, step_switch_l2_mask,
  step_switch_r2_mask,
}
use b.Devices.Pro3.Tables.Buttons.{TriggerEntry, step_buttons, triggers}

unfoldable pub bitmask_to_step_button_names : ℕ → List String
bitmask_to_step_button_names keys =
    map (λ e. e.name) (filter (λ e. has_bit keys e.mask) step_buttons)

-- `!bits` of a `u32`
abbrev pub not_u32 : ℕ → ℕ
not_u32 bits = 2 ^ 32 - 1 - bits

-- `fold(0, |bits, entry| bits | entry.key_map)`
unfoldable pub known_bits : List TriggerEntry → ℕ → ℕ
known_bits [] bits = bits
known_bits (e ∷ rest) bits = known_bits rest (bit_or bits e.key_map)

unfoldable pub key_map_to_trigger_buttons : ℕ → List String × ℕ
unfolding known_bits
key_map_to_trigger_buttons key_map = (
  map (λ e. e.name) (filter (λ e. has_bit key_map e.key_map) triggers),
  bit_and key_map (not_u32 (known_bits triggers 0)),
)

unfoldable pub gamepad_byte_to_mode : ℕ → Mode
gamepad_byte_to_mode byte = if byte == 3 then xinput else if byte == 1 then dinput else switch

-- The definition that a descriptor in use gives, from the name on.
unfoldable pub read_definition : ℕ → List ℕ → ℕ → ℕ → Result (Option MacroDefinition)
read_definition macro_index descriptor key_map max_steps = do
  name_bytes ← take_bytes descriptor 0 macro_name_bytes
  mode_byte ← read_u8 descriptor macro_mode_offset
  repeat_count ← read_u32_le descriptor macro_repeat_count_offset
  interval_ms ← read_u32_le descriptor macro_interval_ms_offset
  ok (
      some (record {
        name = decode_utf16be_name name_bytes;
        mode = gamepad_byte_to_mode mode_byte;
        trigger_buttons = (key_map_to_trigger_buttons key_map).0;
        unknown_trigger_bits = (key_map_to_trigger_buttons key_map).1;
        repeat_count = repeat_count;
        interval_ms = interval_ms;
        steps = replicate max_steps default_step;
        macro_slot = if ltb macro_index 256 then some macro_index else none;
      }))

-- One pass of the loop of `decode_macro_metadata` over a descriptor: `none` is `continue`.
unfoldable pub decode_descriptor : ℕ → List ℕ → Result (Option MacroDefinition)
decode_descriptor macro_index descriptor = do
  key_map ← read_u32_le descriptor macro_key_map_offset
  max_steps ← read_u16_le descriptor macro_max_steps_offset
  if key_map == 0 && max_steps == 0
      then ok none
      else read_definition macro_index descriptor key_map max_steps

-- What a pass adds to the result.
abbrev pub push_some {ℓ} : {A : Type ℓ} → Option A → List A → List A
push_some none rest = rest
push_some (some a) rest = a ∷ rest

-- The loop from `macro_index` on, with `left` passes to go.
unfoldable pub decode_descriptors : ℕ → ℕ → ℕ → List ℕ → Result (List MacroDefinition)
unfolding decode_descriptor take_bytes
decode_descriptors zero macro_index slot_base blob = ok []
decode_descriptors (suc left) macro_index slot_base blob =
    let rest = decode_descriptors left (macro_index + 1) slot_base blob in
    elim (take_bytes blob (slot_base + macro_index * macro_descriptor_size) macro_descriptor_size) [
      | err e ↦ ok []
      | ok descriptor ↦ do
        found ← decode_descriptor macro_index descriptor
        others ← rest
        ok (push_some found others)
    ]

abbrev slot_base_of : ℕ → ℕ
slot_base_of slot_index =
    section4_base_offset + slot_index * section4_slot_stride + section4_record_header_size

unfoldable pub decode_macro_metadata : List ℕ → Slot → Result (List MacroDefinition)
unfolding slot_index decode_descriptors
decode_macro_metadata blob profile_slot = do
  index ← slot_index profile_slot
  decode_descriptors macro_slots_per_profile 0 (slot_base_of index) blob

-- A step record of ten bytes, decoded.
unfoldable pub decode_step : Bool → List ℕ → Result MacroStep
unfolding read_u16_le bitmask_to_step_button_names
decode_step analog record_bytes = do
  duration_ms ← read_u16_le record_bytes 0
  keys ← read_u16_le record_bytes 2
  trigger_value ← read_u16_le record_bytes 4
  left_joy ← read_u16_le record_bytes 6
  right_joy ← read_u16_le record_bytes 8
  let l2_bit = if has_bit keys step_switch_l2_mask then 255 else 0
  let r2_bit = if has_bit keys step_switch_r2_mask then 255 else 0
  let left = trigger_value / 256 % 256
  let right = trigger_value % 256
  ok (record {
    duration_ms = duration_ms;
    pressed_buttons = bitmask_to_step_button_names (bit_and keys step_button_bits_mask);
    left_stick_x = left_joy % 256;
    left_stick_y = left_joy / 256 % 256;
    right_stick_x = right_joy % 256;
    right_stick_y = right_joy / 256 % 256;
    trigger_left = if analog then (if left == 0 then l2_bit else left) else l2_bit;
    trigger_right = if analog then (if right == 0 then r2_bit else right) else r2_bit;
    glide = [];
  })

-- The loop from record `i` on, with `left` records to go.
unfoldable pub decode_steps_from : ℕ → ℕ → Bool → List ℕ → Result (List MacroStep)
unfolding decode_step take_bytes
decode_steps_from zero i analog stream = ok []
decode_steps_from (suc left) i analog stream =
    let rest = decode_steps_from left (i + 1) analog stream in
    elim (take_bytes stream (i * macro_step_record_size) macro_step_record_size) [
      | err e ↦ ok []
      | ok record_bytes ↦ do
        step ← decode_step analog record_bytes
        others ← rest
        ok (step ∷ others)
    ]

unfoldable pub decode_macro_steps : List ℕ → ℕ → Mode → Result (List MacroStep)
unfolding decode_steps_from
decode_macro_steps stream count mode =
    decode_steps_from count 0 (not (same_mode mode switch)) stream

unfoldable pub step_button_mask : String → Result ℕ
step_button_mask name =
    ok_or (Option.map (λ e. e.mask) (find (λ e. str_eq e.name name) step_buttons)) validation

-- `names.iter().try_fold(bits, ..)`
unfoldable pub trigger_bits_from : ℕ → List String → Result ℕ
trigger_bits_from bits [] = ok bits
trigger_bits_from bits (name ∷ names) = do
  more ←
      ok_or (Option.map (λ e. bit_or bits e.key_map) (find (λ e. str_eq e.name name) triggers))
        validation
  trigger_bits_from more names

unfoldable pub trigger_key_map : List String → Result ℕ
unfolding trigger_bits_from
trigger_key_map names = trigger_bits_from 0 names

-- The loop over `step.pressed_buttons`.
unfoldable pub keys_from : ℕ → List String → Result ℕ
unfolding step_button_mask
keys_from keys [] = ok keys
keys_from keys (name ∷ names) = do mask ← step_button_mask name; keys_from (bit_or keys mask) names

-- The closure `full`.
abbrev full : ℕ → ℕ → ℕ → ℕ
full keys value mask = if value == 0 && has_bit keys mask then 255 else value

-- `keys` and `trigger_value` of a step, from its buttons' bits.
unfoldable pub route_triggers : Bool → MacroStep → ℕ → ℕ × ℕ
route_triggers true step keys = (
  bit_and keys step_button_bits_mask,
  full keys step.trigger_left step_switch_l2_mask * 256
      + full keys step.trigger_right step_switch_r2_mask,
)
route_triggers false step keys =
    let left = if ltb 0 step.trigger_left then bit_or keys step_switch_l2_mask else keys in
    (if ltb 0 step.trigger_right then bit_or left step_switch_r2_mask else left, 0)

-- One pass of the loop of `encode_macro_steps`.
unfoldable pub encode_step : Bool → ℕ → MacroStep → List ℕ → Result (List ℕ)
unfolding keys_from route_triggers put_u16_le
encode_step analog base step out = do
  pressed ← keys_from 0 step.pressed_buttons
  let keys = (route_triggers analog step pressed).0
  let trigger_value = (route_triggers analog step pressed).1
  out ← put_u16_le out (base + 0) step.duration_ms
  out ← put_u16_le out (base + 2) keys
  out ← put_u16_le out (base + 4) trigger_value
  out ← put_u16_le out (base + 6) (step.left_stick_y * 256 + step.left_stick_x)
  put_u16_le out (base + 8) (step.right_stick_y * 256 + step.right_stick_x)

unfoldable pub encode_steps_from : Bool → ℕ → List MacroStep → List ℕ → Result (List ℕ)
unfolding encode_step
encode_steps_from analog i [] out = ok out
encode_steps_from analog i (step ∷ steps) out = do
  out ← encode_step analog (i * macro_step_record_size) step out
  encode_steps_from analog (i + 1) steps out

abbrev pub padded_len : ℕ → ℕ
padded_len raw_len = if raw_len % 32 == 0 then raw_len else (raw_len / 32 + 1) * 32

unfoldable pub encode_macro_steps : List MacroStep → Mode → Result (List ℕ)
unfolding encode_steps_from
encode_macro_steps [] mode = ok []
encode_macro_steps (step ∷ steps) mode =
    let raw_len = length (step ∷ steps) * macro_step_record_size in
    encode_steps_from (not (same_mode mode switch)) 0 (step ∷ steps)
      (replicate (padded_len raw_len) 0)

unfoldable pub encode_macro_metadata : MacroDefinition → MacroSlot → Result (List ℕ)
encode_macro_metadata def macro_slot = do
  let out = replicate macro_descriptor_size 0
  out ← put_slice out 0 (encode_utf16be_name def.name macro_name_bytes)
  mode_byte ← mode_byte def.mode
  refuse_if (leb (length out) macro_mode_offset) decode
  let out = set out macro_mode_offset mode_byte
  refuse_if (leb 65536 (length def.steps)) validation
  out ← put_u16_le out macro_max_steps_offset (length def.steps)
  refuse_if (leb 65536 (macro_slot.get * 4096)) validation
  out ← put_u16_le out macro_offset_field_offset (macro_slot.get * 4096)
  key_map ← trigger_key_map def.trigger_buttons
  out ← put_u32_le out macro_key_map_offset key_map
  out ← put_u32_le out macro_repeat_count_offset def.repeat_count
  put_u32_le out macro_interval_ms_offset def.interval_ms
