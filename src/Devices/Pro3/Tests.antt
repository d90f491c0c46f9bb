-- ===== src/Devices/Pro3/Tests.antt =====
-- Runs of the Pro 3's codec on concrete inputs: crates/controller-core/src/devices/pro3.
use b.Protocol.Text.{encode_utf16}
use b.Model.Slot.{Slot}
use b.Devices.Pro3.{slot_index}
use b.Devices.Pro3.Blob.{Profile, compile_profile}
use b.Devices.Pro3.Blob.Complete.{IsCompilable, seal_crc-Works}
use b.Devices.Pro3.Blob.StickValues.{IsSticks}
use b.Devices.Pro3.Reading.{decode_sticks}
use b.Devices.Pro3.Blob.Preserved.{compile_profile-decode_sticks, compile_profile-other_slot}
use b.Devices.Pro3.Blob.Sealed.{IsSealed, seal_crc-IsSealed}
use b.Devices.Pro3.Defaults.{default_settings}
use b.Devices.Pro3.Edit.Sequence.{
  Edit, compiled, macros_dropped, macro_deleted, deactivated, apply_all, apply_all-IsSealed,
}
use b.Devices.Pro3.Macros.{decode_macro_metadata}
use b.Devices.Pro3.Profile.{decode_name, decode_button_mappings}
use b.Shared.{
  replicate, length-replicate, true, ℕ, ◌+◌, ◌*◌, ◌<◌, ◌≤◌, ◌%◌, ◌≡◌, ◌==◌, ◌&&◌, if◌then◌else◌,
  inl, map, not, List, [], ◌∷◌, length, none, some, ok, refl, bit_and, bit_or, arith,
}
use b.Model.Mode.{same_mode}
use b.Model.Macros.{MacroStep, MacroDefinition, default_step}
use b.Protocol.WireWrite.{same_bytes}
use b.Devices.Pro3 as pro3
use b.Devices.Pro3.{mode_byte}
use b.Devices.Pro3.Macros.Buttons.{contains}
use b.Devices.Pro3.Macros.Steps.{IsStep}
use b.Devices.Pro3.Macros.Descriptor.{IsEncodable}
use b.Devices.Pro3.Compile.ReadBack.{outputs}
use b.Devices.Pro3.Macros.{
  trigger_bits_from, bitmask_to_step_button_names, key_map_to_trigger_buttons, trigger_key_map,
  encode_macro_steps, decode_macro_steps, encode_macro_metadata, decode_descriptor,
}
use b.Devices.Pro3.Macros.Triggers.{trigger_key_map-key_map_to_trigger_buttons}
use b.Devices.Pro3.Macros.Steps.{as_played}
use b.Devices.Pro3.Macros.RoundTrip.{decode-encode_macro_steps}
use b.Devices.Pro3.Macros.Listed.{IsWellFormed, as_listed, decode-encode_macro_metadata}
use b.Devices.Pro3.Compile.{target_encoding}
use b.Devices.Pro3.Compile.ReadBack.{target_encoding-decode_target_control}
use b.Devices.Pro3.Profile.{encodings_for_mode, source_at, decode_target_control}

top_and_r1 : bitmask_to_step_button_names 0x0810 ≡ "top face" ∷ "r1" ∷ []
unfolding bitmask_to_step_button_names
top_and_r1 = refl

-- Every bit is set: 21 of them have names.
trigger_key_map-key_map_to_trigger_buttons_example :
    (bits : ℕ) × (trigger_key_map (key_map_to_trigger_buttons 0xFFFFFFFF).0 ≡ ok bits)
    × (bit_or bits (key_map_to_trigger_buttons 0xFFFFFFFF).1 ≡ 0xFFFFFFFF)
    × (bit_and (key_map_to_trigger_buttons 0xFFFFFFFF).1 bits ≡ 0)
trigger_key_map-key_map_to_trigger_buttons_example =
    trigger_key_map-key_map_to_trigger_buttons 0xFFFFFFFF (omega arith)

-- r1 held with the left trigger half pulled
abbrev held_step : MacroStep
held_step = record default_step {
  duration_ms = 40;
  pressed_buttons = "r1" ∷ "l2" ∷ [];
  trigger_left = 128;
}

held_step-IsStep : IsStep held_step
held_step-IsStep = record {
  duration = omega arith;
  buttons = ((_, refl), ((_, refl), tt));
  lx = omega arith;
  ly = omega arith;
  rx = omega arith;
  ry = omega arith;
  left = omega arith;
  right = omega arith;
}

default_step-IsStep : IsStep default_step
default_step-IsStep = record {
  duration = omega arith;
  buttons = tt;
  lx = omega arith;
  ly = omega arith;
  rx = omega arith;
  ry = omega arith;
  left = omega arith;
  right = omega arith;
}

decode-encode_macro_steps_example :
    (stream : List ℕ) × (encode_macro_steps (held_step ∷ default_step ∷ []) pro3.switch ≡ ok stream)
    × (length stream % 32 ≡ 0)
    × (2 * 10 ≤ length stream)
    × (length stream < 2 * 10 + 32)
    × (decode_macro_steps stream 2 pro3.switch
        ≡ ok (
            map
              (as_played (not (same_mode pro3.switch pro3.switch)))
              (held_step ∷ default_step ∷ [])))
decode-encode_macro_steps_example =
    decode-encode_macro_steps pro3.switch (held_step ∷ default_step ∷ [])
      (held_step-IsStep, (default_step-IsStep, tt)) (omega arith)

-- macro "A" of one step, started by l4 and r1 together
abbrev jump : MacroDefinition
jump = record {
  name = b'A' ∷ [];
  mode = pro3.xinput;
  trigger_buttons = "l4" ∷ "r1" ∷ [];
  unknown_trigger_bits = 0;
  repeat_count = 2;
  interval_ms = 100;
  steps = held_step ∷ [];
  macro_slot = some 1;
}

abbrev jump_buttons : ℕ
jump_buttons = 0x00200800

jump-IsEncodable : IsEncodable jump (record { get = 1 }) 3 jump_buttons
unfolding mode_byte trigger_key_map trigger_bits_from pro3.xinput pro3.switch pro3.dinput same_bytes
    encode_utf16
jump-IsEncodable = record {
  plain_name = ((omega arith, omega arith, inl (omega arith)), tt);
  short_name = omega arith;
  mode_known = refl;
  buttons_known = refl;
  few_steps = omega arith;
  repeats = omega arith;
  pauses = omega arith;
  slot_known = omega arith;
}

jump-IsWellFormed : IsWellFormed jump (record { get = 1 }) 3
jump-IsWellFormed = record {
  plain_name = jump-IsEncodable.plain_name;
  short_name = jump-IsEncodable.short_name;
  mode_known = jump-IsEncodable.mode_known;
  buttons_known = ((_, refl), ((_, refl), tt));
  few_steps = omega arith;
  repeats = omega arith;
  pauses = omega arith;
  slot_known = omega arith;
}

decode-encode_macro_metadata_example :
    (descriptor : List ℕ) × (encode_macro_metadata jump (record { get = 1 }) ≡ ok descriptor)
    × (length descriptor ≡ 52)
    × (decode_descriptor 1 descriptor
        ≡ ok (if 2 == 0 && 1 == 0 then none else some (as_listed jump 1)))
decode-encode_macro_metadata_example =
    decode-encode_macro_metadata jump (record { get = 1 }) 3 jump-IsWellFormed

dinput_byte : mode_byte pro3.dinput ≡ ok 1
unfolding mode_byte pro3.xinput pro3.switch pro3.dinput same_bytes
dinput_byte = refl

bottom_face : contains (outputs pro3.dinput) "bottom face" ≡ true
unfolding contains outputs encodings_for_mode pro3.xinput pro3.switch pro3.dinput same_bytes
bottom_face = refl

-- The right paddle of a DInput pad is made to send the bottom face button.
target_encoding-decode_target_control_example :
    (code : List ℕ) × (target_encoding
        (same_mode pro3.dinput pro3.switch)
        (encodings_for_mode pro3.dinput)
        (record { source = source_at (encodings_for_mode pro3.dinput) 18; target = "bottom face" })
        18
        (0 ∷ 0 ∷ 0 ∷ 0 ∷ [])
      ≡ ok code)
    × (decode_target_control (encodings_for_mode pro3.dinput) 18 code ≡ "bottom face")
target_encoding-decode_target_control_example =
    target_encoding-decode_target_control pro3.dinput 1 18 "bottom face" (0 ∷ 0 ∷ 0 ∷ 0 ∷ [])
      dinput_byte (omega arith) (λ e. absurd (omega arith)) bottom_face

-- DInput with its right paddle on the bottom face button, named "A"
abbrev pads : Profile
pads = record {
  name = b'A' ∷ [];
  mode = pro3.dinput;
  settings = ok (default_settings pro3.dinput);
  button_mappings = record { source = "rp"; target = "bottom face" } ∷ [];
}

pads-IsCompilable : IsCompilable pads (jump ∷ [])
pads-IsCompilable = record {
  mode = 1;
  mode_known = dinput_byte;
  settings = default_settings pro3.dinput;
  settings_known = refl;
  targets = (bottom_face, tt);
  writable = ((3, jump_buttons, jump-IsEncodable), tt);
}

abbrev zeros : List ℕ
zeros = replicate 2348 0

zeros_sized : length zeros ≡ 2348
zeros_sized = length-replicate {A = ℕ} 2348 0

abbrev slot_1 : Slot
slot_1 = record { get = 1 }

abbrev slot_3 : Slot
slot_3 = record { get = 3 }

slot_1_index : slot_index slot_1 ≡ ok 0
unfolding slot_index
slot_1_index = refl

slot_3_index : slot_index slot_3 ≡ ok 2
unfolding slot_index
slot_3_index = refl

compile_profile-other_slot_example :
    (out : List ℕ) × (compile_profile pads slot_1 zeros (jump ∷ []) ≡ ok out)
    × (length out ≡ 2348)
    × (decode_name out 3 true ≡ decode_name zeros 3 true)
    × (decode_button_mappings out pro3.xinput 3 ≡ decode_button_mappings zeros pro3.xinput 3)
    × (decode_macro_metadata out slot_3 ≡ decode_macro_metadata zeros slot_3)
compile_profile-other_slot_example =
    compile_profile-other_slot pads (jump ∷ []) slot_1 slot_3 0 2 zeros pro3.xinput
      pads-IsCompilable slot_1_index slot_3_index (λ e. absurd (omega arith)) zeros_sized

abbrev sealed_zeros : List ℕ
sealed_zeros = (seal_crc-Works zeros zeros_sized).0

sealed_zeros-IsSealed : IsSealed sealed_zeros
sealed_zeros-IsSealed =
    seal_crc-IsSealed zeros zeros_sized sealed_zeros (seal_crc-Works zeros zeros_sized).1

abbrev edits : List (Edit × Slot)
edits =
    (compiled pads (jump ∷ []), slot_1)
    ∷ (macros_dropped ("r1" ∷ "no button" ∷ []), slot_1)
    ∷ (macro_deleted (record { get = 2 }), slot_3)
    ∷ (deactivated, slot_1)
    ∷ []

apply_all-IsSealed_example : (out : List ℕ) × (apply_all edits sealed_zeros ≡ ok out) × IsSealed out
apply_all-IsSealed_example =
    apply_all-IsSealed edits sealed_zeros
      (
        (pads-IsCompilable, (0, slot_1_index)),
        (
          (tt, (0, slot_1_index)),
          ((omega arith, (2, slot_3_index)), ((tt, (0, slot_1_index)), tt)),
        ),
      )
      sealed_zeros-IsSealed

default-IsSticks : IsSticks (default_settings pro3.dinput).sticks
unfolding default_settings decode_sticks
default-IsSticks = record {
  left_min = (13, refl, omega arith);
  left_max = (100, refl, omega arith, omega arith);
  right_min = (13, refl, omega arith);
  right_max = (100, refl, omega arith, omega arith);
}

-- The default settings, over no blob at all.
compile_profile-decode_sticks_example :
    (out : List ℕ) × (compile_profile pads slot_3 [] (jump ∷ []) ≡ ok out)
    × (decode_sticks out 3 true ≡ (default_settings pro3.dinput).sticks)
compile_profile-decode_sticks_example =
    compile_profile-decode_sticks pads (jump ∷ []) slot_3 2 [] (default_settings pro3.dinput)
      pads-IsCompilable refl slot_3_index default-IsSticks
