-- ===== src/Devices/Pro3/Macros/Fields.antt =====
-- crates/controller-core/src/devices/pro3/macros.rs: the fields of a descriptor, read.
use b.Shared.{
  refl, ◌==◌, ◌&&◌, lt→ltb, Bool, true, false, if◌then◌else◌, some, none, ◌^◌, ◌/◌, ◌%◌, sym, ap,
  ◌∙◌, drop, take, take-length_append, length-append, ℕ, ◌+◌, ◌*◌, ◌≤◌, ◌<◌, ◌≡◌, List, ◌∷◌, ◌++◌,
  length, replicate, ok, arith, false,
}
use b.Model.Macros.{default_step, MacroDefinition}
use b.Protocol.Bytes.{
  take_bytes, read_u8, read_u32_le, read_u16_le, slice, IsU16, IsU32, to_le_bytes_u16,
  to_le_bytes_u32,
}
use b.Protocol.Bytes.Behind.{slice-append}
use b.Protocol.Bytes.Fields.{take_bytes-ok, Fits}
use b.Protocol.Text.{decode_utf16be_name}
use b.Devices.Pro3.Macros.{
  key_map_to_trigger_buttons, read_definition, key_map_to_trigger_buttons, decode_descriptor,
  gamepad_byte_to_mode,
}

-- The twenty bytes behind the name.
abbrev pub tail_bytes : ℕ → ℕ → ℕ → ℕ → ℕ → ℕ → List ℕ
tail_bytes mode steps offset key_map repeat interval =
    mode
    ∷ 0
    ∷ (to_le_bytes_u16 steps
        ++ (to_le_bytes_u16 offset
            ++ (0
                ∷ 0
                ∷ (to_le_bytes_u32 key_map
                    ++ (to_le_bytes_u32 repeat ++ to_le_bytes_u32 interval)))))

word_u16 : (x : ℕ) → IsU16 x → x % 256 + x / 256 % 256 * 256 ≡ x
word_u16 x h = omega arith

word_u32 :
    (x : ℕ)
    → IsU32 x
    → x % 256 + x / 256 % 256 * 256 + x / 65536 % 256 * 65536 + x / 2 ^ 24 % 256 * 2 ^ 24 ≡ x
word_u32 x h = omega arith

-- What the reads of a descriptor's fields give.
pub record Reads (descriptor name : List ℕ) (mode steps key_map repeat interval : ℕ) : Type 0 where
  pub named : take_bytes descriptor 0 32 ≡ ok name
  pub for_mode : read_u8 descriptor 32 ≡ ok mode
  pub stepped : read_u16_le descriptor 34 ≡ ok steps
  pub started : read_u32_le descriptor 40 ≡ ok key_map
  pub repeated : read_u32_le descriptor 44 ≡ ok repeat
  pub paused : read_u32_le descriptor 48 ≡ ok interval

module _ (name : List ℕ) (mode steps offset key_map repeat interval : ℕ)
    (e : length name ≡ 32) where
  abbrev pub bytes : List ℕ
  bytes = name ++ tail_bytes mode steps offset key_map repeat interval

  fits : Fits bytes
  fits = omega (arith, length-append name (tail_bytes mode steps offset key_map repeat interval))

  abbrev field :
      (len k : ℕ)
      → k + len ≤ 20
      → slice len bytes (32 + k)
        ≡ ok (take len (drop k (tail_bytes mode steps offset key_map repeat interval)))
  field len k h =
      slice-append name (tail_bytes mode steps offset key_map repeat interval) 32 e fits len k h

  read_key_map : IsU32 key_map → read_u32_le bytes 40 ≡ ok key_map
  unfolding read_u32_le
  read_key_map h = rw (field 4 8 (omega arith)) (ap ok (word_u32 key_map h))

  read_steps : IsU16 steps → read_u16_le bytes 34 ≡ ok steps
  unfolding read_u16_le
  read_steps h = rw (field 2 2 (omega arith)) (ap ok (word_u16 steps h))

  read_repeat : IsU32 repeat → read_u32_le bytes 44 ≡ ok repeat
  unfolding read_u32_le
  read_repeat h = rw (field 4 12 (omega arith)) (ap ok (word_u32 repeat h))

  read_interval : IsU32 interval → read_u32_le bytes 48 ≡ ok interval
  unfolding read_u32_le
  read_interval h = rw (field 4 16 (omega arith)) (ap ok (word_u32 interval h))

  read_mode : read_u8 bytes 32 ≡ ok mode
  unfolding read_u8
  read_mode = rw (field 1 0 (omega arith))

  read_name : take_bytes bytes 0 32 ≡ ok name
  read_name =
      take_bytes-ok bytes 0 32 fits
        (omega (arith, length-append name (tail_bytes mode steps offset key_map repeat interval)))
      ∙ ap ok (
          take-length_append 32 name (tail_bytes mode steps offset key_map repeat interval) (sym e))

  pub reads :
      IsU16 steps
      → IsU32 key_map
      → IsU32 repeat
      → IsU32 interval
      → Reads bytes name mode steps key_map repeat interval
  reads hs hk hr hi = record {
    named = read_name;
    for_mode = read_mode;
    stepped = read_steps hs;
    started = read_key_map hk;
    repeated = read_repeat hr;
    paused = read_interval hi;
  }

pub read_definition-eq :
    (index : ℕ) (descriptor name : List ℕ) (key_map steps mode repeat interval : ℕ)
    → index < 256
    → Reads descriptor name mode steps key_map repeat interval
    → read_definition index descriptor key_map steps
      ≡ ok (
          some (record {
            name = decode_utf16be_name name;
            mode = gamepad_byte_to_mode mode;
            trigger_buttons = (key_map_to_trigger_buttons key_map).0;
            unknown_trigger_bits = (key_map_to_trigger_buttons key_map).1;
            repeat_count = repeat;
            interval_ms = interval;
            steps = replicate steps default_step;
            macro_slot = some index;
          }))
read_definition-eq index descriptor name key_map steps mode repeat interval h r =
    unfold read_definition in rw (r.named, r.for_mode, r.repeated, r.paused, lt→ltb index 256 h)

pub decode_descriptor-eq :
    (index : ℕ) (descriptor : List ℕ) (key_map steps : ℕ) (def : MacroDefinition)
    → read_u32_le descriptor 40 ≡ ok key_map
    → read_u16_le descriptor 34 ≡ ok steps
    → read_definition index descriptor key_map steps ≡ ok (some def)
    → decode_descriptor index descriptor
      ≡ ok (if key_map == 0 && steps == 0 then none else some def)
decode_descriptor-eq index descriptor key_map steps def k s r =
    unfold decode_descriptor in rw (k, s, r) (branches (key_map == 0 && steps == 0))
  where
    branches :
        (b : Bool) → (if b then ok none else ok (some def)) ≡ ok (if b then none else some def)
    branches true = refl
    branches false = refl
