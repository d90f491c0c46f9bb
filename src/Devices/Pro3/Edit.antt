-- ===== src/Devices/Pro3/Edit.antt =====
-- crates/controller-core/src/devices/pro3/edit.rs: the edits of a blob that the write orchestrators
-- need on top of `compile_profile`.
pub mod Checksums
pub mod Regions
pub mod Sequence
use Prim.Native.String.{String}
use text.Mathlib.Text.{◌==◌ as str_eq}
use b.Shared.{
  ℕ, zero, suc, ◌+◌, ◌*◌, ◌==◌, not, if◌then◌else◌, List, [], length, filter, replicate, Option,
  none, some, Result, ok, validation, ◌>>=◌, ◌>>◌, refuse_if, bit_and,
}
use b.Model.Slot.{Slot}
use b.Model.MacroSlot.{MacroSlot}
use b.Model.Macros.{MacroDefinition}
use b.Protocol.Bytes.{put_slice, put_u32_le, read_u32_le, take_bytes}
use b.Devices.Pro3.{slot_index}
use b.Devices.Pro3.Blob.{Profile, compile_profile, seal_crc}
use b.Devices.Pro3.Macros.{encode_macro_metadata, trigger_key_map, not_u32}
use b.Devices.Pro3.Profile.{any}
use b.Devices.Pro3.Tables.{
  expected_profile_size, flag_stride, section4_base_offset, section4_slot_stride,
  section4_record_header_size, macro_slots_per_profile, macro_descriptor_size, macro_key_map_offset,
}
use b.Devices.Pro3.Tables.Buttons.{triggers}

abbrev descriptor_region_size : ℕ
descriptor_region_size = macro_slots_per_profile * macro_descriptor_size

abbrev flag_size : ℕ
flag_size = 4

unfoldable pub descriptor_region_offset : Slot → Result ℕ
descriptor_region_offset slot = do
  index ← slot_index slot
  ok (section4_base_offset + index * section4_slot_stride + section4_record_header_size)

-- `if blob.len() != EXPECTED_PROFILE_SIZE`
abbrev pub check_size : List ℕ → Result (Unit {0})
check_size blob = refuse_if (not (length blob == expected_profile_size)) validation

unfoldable pub compile_profile_keep_macros : Profile → Slot → List ℕ → Result (List ℕ)
compile_profile_keep_macros profile target_slot base_blob = do
  blob ← compile_profile profile target_slot base_blob []
  if length base_blob == expected_profile_size
      then (do
        at ← descriptor_region_offset target_slot
        kept ← take_bytes base_blob at descriptor_region_size
        blob ← put_slice blob at kept
        seal_crc blob)
      else ok blob

-- The loop of `drop_macros` from descriptor `index` on, with `left` to go.
unfoldable pub drop_from : ℕ → ℕ → ℕ → ℕ → List ℕ → Result (List ℕ)
drop_from zero index base dropped out = ok out
drop_from (suc left) index base dropped out = do
  let at = base + index * macro_descriptor_size + macro_key_map_offset
  key_map ← read_u32_le out at
  out ← put_u32_le out at (bit_and key_map (not_u32 dropped))
  drop_from left (index + 1) base dropped out

unfoldable pub drop_macros : List ℕ → Slot → List String → Result (List ℕ)
drop_macros blob slot buttons = do
  check_size blob
  let known = filter (λ b. any (λ t. str_eq t.name b) triggers) buttons
  dropped ← trigger_key_map known
  base ← descriptor_region_offset slot
  out ← drop_from macro_slots_per_profile 0 base dropped blob
  seal_crc out

-- The descriptor of a macro, or zeros.
abbrev descriptor_of : Option MacroDefinition → MacroSlot → Result (List ℕ)
descriptor_of none macro_slot = ok (replicate macro_descriptor_size 0)
descriptor_of (some def) macro_slot = encode_macro_metadata def macro_slot

unfoldable pub set_macro : List ℕ → Slot → MacroSlot → Option MacroDefinition → Result (List ℕ)
set_macro blob slot macro_slot def = do
  check_size blob
  descriptor ← descriptor_of def macro_slot
  base ← descriptor_region_offset slot
  out ← put_slice blob (base + macro_slot.get * macro_descriptor_size) descriptor
  seal_crc out

unfoldable pub deactivate_profile : List ℕ → Slot → Result (List ℕ)
deactivate_profile base_blob slot = do
  check_size base_blob
  index ← slot_index slot
  blob ← put_slice base_blob (index * flag_stride) (replicate flag_size 0)
  seal_crc blob
