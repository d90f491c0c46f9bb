-- ===== src/Devices/Pro3/Reading.antt =====
-- crates/controller-core/src/devices/pro3/profile.rs and model/profile.rs: the settings of a slot,
-- decoded, and `map_profile`. The texts of a profile that are not read from the blob (the id, the
-- kind, the device and the macros' file names) are left out.
use b.Shared.{
  unwrap_or, ℕ, ◌+◌, ◌-◌, ◌*◌, ◌/◌, ◌%◌, ◌^◌, ◌==◌, min, max, ltb, leb, if◌then◌else◌, ◌||◌, not,
  List, Bool, true, false, length, Result, ok, decode, ◌>>=◌, ◌>>◌, refuse_if,
}
use b.Shared.Int.{ℤ, pos}
use b.Shared.Masks.{has_bit}
use b.Model.Mode.{Mode, same_mode}
use b.Model.Slot.{Slot}
use b.Model.Slot as slots
use b.Model.Macros.{MacroDefinition}
use b.Protocol.Bytes.{read_u32_le}
use b.Devices.Pro3 as pro3
use b.Devices.Pro3.Macros.{decode_macro_metadata}
use b.Devices.Pro3.Profile.{
  adjust, marker_at, detect_layout, byte_at, to_percent, in_slots, decode_name, ButtonMapping,
  decode_button_mappings,
}
use b.Devices.Pro3.Settings.{Settings, Sticks, Triggers, TriggersAnalog, TriggersSwitch, Vibration}
use b.Devices.Pro3.Settings as settings
use b.Devices.Pro3.Tables.{
  expected_profile_size, flag_base_offset, flag_stride, stick_data_offset, slot_data_stride,
  slot_flags_offset, trigger_data_offset, vibration_section_offset, vibration_section_stride,
  stick_raw_max, trigger_raw_max, stick_min_pct_lo, stick_min_pct_hi, stick_max_pct_lo,
  stick_max_pct_hi, switch_threshold_pct_lo, switch_threshold_pct_hi, vibration_level_max,
}

-- `i32::clamp` of a percentage
abbrev clamped : ℕ → ℕ → ℕ → ℤ
clamped n lo hi = pos (min (max n lo) hi)

abbrev neutral_sticks : Sticks
neutral_sticks = record {
  left_min_pct = pos 0;
  left_max_pct = pos 100;
  right_min_pct = pos 0;
  right_max_pct = pos 100;
  invert_left_x = false;
  invert_left_y = false;
  invert_right_x = false;
  invert_right_y = false;
  swap_sticks = false;
  swap_dpad_with_left_stick = false;
}

unfoldable pub decode_sticks : List ℕ → ℕ → Bool → Sticks
unfolding byte_at adjust to_percent
decode_sticks payload source_slot layout =
    let slot = source_slot - 1 in
    let stick_off = adjust layout stick_data_offset + slot * slot_data_stride in
    let flag_off = adjust layout slot_flags_offset + slot * slot_data_stride in
    let flags0 = byte_at payload flag_off in
    let flags1 = byte_at payload (flag_off + 1) in
    let pct = λ (i : ℕ). to_percent (byte_at payload (stick_off + i)) stick_raw_max in
    if not (in_slots source_slot) then neutral_sticks else record {
      left_min_pct = clamped (pct 0) stick_min_pct_lo stick_min_pct_hi;
      left_max_pct = clamped (pct 1) stick_max_pct_lo stick_max_pct_hi;
      right_min_pct = clamped (pct 2) stick_min_pct_lo stick_min_pct_hi;
      right_max_pct = clamped (pct 3) stick_max_pct_lo stick_max_pct_hi;
      invert_left_x = has_bit flags0 0x01;
      invert_left_y = has_bit flags0 0x02;
      invert_right_x = has_bit flags0 0x04;
      invert_right_y = has_bit flags0 0x08;
      swap_sticks = has_bit flags0 0x10;
      swap_dpad_with_left_stick = has_bit flags1 0x01;
    }

abbrev neutral_triggers : Bool → Triggers
neutral_triggers true =
    settings.switch
      (record { left_threshold_pct = pos 0; right_threshold_pct = pos 0; swap_triggers = false })
neutral_triggers false = settings.analog (record {
  left_min_pct = pos 0;
  left_max_pct = pos 100;
  right_min_pct = pos 0;
  right_max_pct = pos 100;
  swap_triggers = false;
})

unfoldable pub decode_triggers : List ℕ → Mode → ℕ → Bool → Triggers
unfolding byte_at adjust to_percent
decode_triggers payload mode source_slot layout =
    let is_switch = same_mode mode pro3.switch in
    let slot = source_slot - 1 in
    let trig_off = adjust layout trigger_data_offset + slot * slot_data_stride in
    let flag_off = adjust layout slot_flags_offset + slot * slot_data_stride in
    let swap_triggers = has_bit (byte_at payload flag_off) 0x80 in
    let pct = λ (i : ℕ). to_percent (byte_at payload (trig_off + i)) trigger_raw_max in
    if not (in_slots source_slot)
    then neutral_triggers is_switch
    else if is_switch
    then settings.switch (record {
      left_threshold_pct = clamped (pct 0) switch_threshold_pct_lo switch_threshold_pct_hi;
      right_threshold_pct = clamped (pct 2) switch_threshold_pct_lo switch_threshold_pct_hi;
      swap_triggers = swap_triggers;
    })
    else settings.analog (record {
      left_min_pct = pos (if ltb (pct 1) (pct 0) then pct 1 else pct 0);
      left_max_pct = pos (if ltb (pct 1) (pct 0) then pct 0 else pct 1);
      right_min_pct = pos (if ltb (pct 3) (pct 2) then pct 3 else pct 2);
      right_max_pct = pos (if ltb (pct 3) (pct 2) then pct 2 else pct 3);
      swap_triggers = swap_triggers;
    })

-- The nearest multiple of `2 ^ k` to `m`, over `2 ^ k`, ties to even.
abbrev round_even : ℕ → ℕ → ℕ
round_even m k =
    let q = m / 2 ^ k in
    let r = m % 2 ^ k * 2 in if ltb r (2 ^ k) then q else if r == 2 ^ k then q + q % 2 else q + 1

-- `f32 * 5.0` of a number `m * 2 ^ (e - 150)`: a mantissa of 24 bits, and the exponent's growth.
abbrev times_five : ℕ → ℕ × ℕ
times_five m =
    let p = 5 * m in
    let k =
      if ltb p (2 ^ 24) then 0 else if ltb p (2 ^ 25) then 1 else if ltb p (2 ^ 26) then 2 else 3 in
    (round_even p k, k)

-- `scale_vibration(f32::from_bits(bits))`: the level of a finite number that is not negative is
-- `floor(value * 5 + 0.5)`, at most 5. A negative number has level 0, as its half-up rounding is
-- below 1, and so have an infinity and a NaN.
unfoldable scale_vibration : ℕ → ℕ
scale_vibration bits =
    let sign = bits / 2 ^ 31 in
    let exponent = bits / 2 ^ 23 % 256 in
    let fraction = bits % 2 ^ 23 in
    let mantissa = if exponent == 0 then fraction else fraction + 2 ^ 23 in
    let (q, k) = times_five mantissa in
    -- the product is q / 2 ^ (150 - e)
    let e = max exponent 1 + k in
    if exponent == 255 || not (sign == 0)
    then 0
    else if leb 150 e
    then (if q == 0 then 0 else vibration_level_max)
    else min vibration_level_max ((2 * q + 2 ^ (150 - e)) / (2 * 2 ^ (150 - e)))

-- `read_u32_le(..).unwrap_or(0)`, as a level
unfoldable level_at : List ℕ → ℕ → ℕ
unfolding read_u32_le scale_vibration
level_at payload offset = scale_vibration (unwrap_or (read_u32_le payload offset) 0)

unfoldable decode_vibration : List ℕ → ℕ → Bool → Vibration
unfolding adjust level_at
decode_vibration payload source_slot layout =
    let section =
      adjust layout vibration_section_offset + (source_slot - 1) * vibration_section_stride in
    if not (in_slots source_slot)
    then record { left_level = pos 0; right_level = pos 0 }
    else record {
      left_level = pos (level_at payload (section + 4));
      right_level = pos (level_at payload (section + 8));
    }

unfoldable detect_source_slot : List ℕ → Bool → ℕ
unfolding adjust marker_at
detect_source_slot payload layout =
    let at = λ (i : ℕ). marker_at payload (adjust layout flag_base_offset + i * flag_stride) in
    if at 0 then 1 else if at 1 then 2 else if at 2 then 3 else 0

pub record RawProfilePayload : Type 0 where
  pub payload : List ℕ
  pub source_slot : ℕ
  pub source_profile_index : ℕ
  pub mode_hint : Mode

-- What is read of a slot: `CanonicalProfileSummary` with its `CanonicalProfile`.
pub record Summary : Type 0 where
  pub name : List ℕ
  pub mode : Mode
  pub source_slot : ℕ
  pub source_profile_index : ℕ
  pub settings : Settings
  pub button_mappings : List ButtonMapping
  pub macros : List MacroDefinition

unfoldable pub map_profile : RawProfilePayload → Result Summary
unfolding detect_layout detect_source_slot decode_name decode_sticks decode_triggers
    decode_vibration decode_button_mappings
map_profile raw = do
  refuse_if (ltb (length raw.payload) expected_profile_size) decode
  let layout = detect_layout raw.payload
  let source_slot =
      if ltb 0 raw.source_slot then raw.source_slot else detect_source_slot raw.payload layout
  refuse_if (source_slot == 0) decode
  slot ← slots.new source_slot
  macros ← decode_macro_metadata raw.payload slot
  ok (record {
    name = decode_name raw.payload source_slot layout;
    mode = raw.mode_hint;
    source_slot = source_slot;
    source_profile_index = raw.source_profile_index;
    settings = record {
      sticks = decode_sticks raw.payload source_slot layout;
      triggers = decode_triggers raw.payload raw.mode_hint source_slot layout;
      vibration = decode_vibration raw.payload source_slot layout;
    };
    button_mappings = decode_button_mappings raw.payload raw.mode_hint source_slot;
    macros = macros;
  })
