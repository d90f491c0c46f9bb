-- ===== src/Devices/Pro3/Macros/Descriptor.antt =====
-- crates/controller-core/src/devices/pro3/macros.rs: a descriptor, encoded and decoded.
use b.Devices.Pro3.Macros.Fields.{
  tail_bytes, Reads, reads, read_definition-eq, decode_descriptor-eq,
}
use b.Model.Mode.{Mode}
use b.Shared.{
  ◌==◌, ◌&&◌, ap₂, false, if◌then◌else◌, some, All, none, inl, inr, sym, ◌∙◌, set, leb,
  length-append, set, ℕ, ◌+◌, ◌*◌, ◌≤◌, ◌<◌, ◌≡◌, List, ◌++◌, length, replicate, ok, arith, false,
}
use b.Model.MacroSlot.{MacroSlot}
use b.Model.Macros.{default_step, MacroDefinition}
use b.Protocol.Bytes.{IsU16, IsU32, splice, to_le_bytes_u16, to_le_bytes_u32}
use b.Protocol.Bytes.Behind.{set-append, put_u16_le-append, put_u32_le-append}
use b.Protocol.Bytes.Fields.{Fits, put_slice-ok}
use b.Protocol.Text.{encode_utf16, encode_utf16be_name}
use b.Devices.Pro3.{mode_byte}
use b.Protocol.Text.RoundTrip.{IsNameChar, decode-encode_name}
use b.Devices.Pro3.Macros.Triggers.{trigger_bits-IsU32}
use b.Devices.Pro3.Modes.{mode_byte_cases}
use b.Devices.Pro3.Macros.{
  key_map_to_trigger_buttons, key_map_to_trigger_buttons, decode_descriptor, gamepad_byte_to_mode,
  trigger_key_map, encode_macro_metadata,
}

zeros_behind :
    (name : List ℕ) → length name ≡ 32 → splice (replicate 52 0) 0 name ≡ name ++ replicate 20 0
zeros_behind name e = rw e

encode_metadata-eq :
    (def : MacroDefinition) (slot : MacroSlot) (mode key_map : ℕ)
    → length (encode_utf16be_name def.name 32) ≡ 32
    → mode_byte def.mode ≡ ok mode
    → length def.steps < 65536
    → slot.get < 16
    → trigger_key_map def.trigger_buttons ≡ ok key_map
    → encode_macro_metadata def slot
      ≡ ok (
          encode_utf16be_name def.name 32
          ++ tail_bytes mode
              (length def.steps)
              (slot.get * 4096)
              key_map
              def.repeat_count
              def.interval_ms)
unfolding encode_macro_metadata
encode_metadata-eq def slot mode key_map e m hs h k =
    let name : List ℕ = encode_utf16be_name def.name 32 in
    let y0 : List ℕ = replicate 20 0 in
    let y1 : List ℕ = set y0 0 mode in
    let y2 : List ℕ = splice y1 2 (to_le_bytes_u16 (length def.steps)) in
    let y3 : List ℕ = splice y2 4 (to_le_bytes_u16 (slot.get * 4096)) in
    let y4 : List ℕ = splice y3 8 (to_le_bytes_u32 key_map) in
    let y5 : List ℕ = splice y4 12 (to_le_bytes_u32 def.repeat_count) in
    let fits : (ys : List ℕ) → length ys < 100 → Fits (name ++ ys) =
      λ ys f. omega (arith, length-append name ys) in
    let whole : 0 + length name ≤ 52 = omega arith in
    let long : leb (length (name ++ y0)) 32 ≡ false = rw (length-append name y0, e) in
    let few : leb 65536 (length def.steps) ≡ false = ground arith in
    let near : leb 65536 (slot.get * 4096) ≡ false = ground arith in
    rw (
      put_slice-ok (replicate 52 0) 0 name (omega arith) whole,
      zeros_behind name e,
      m,
      long,
      set-append name y0 32 0 mode e,
      few,
      put_u16_le-append name y1 32 e (fits y1 (omega arith)) 2 (length def.steps) (omega arith),
      near,
      put_u16_le-append name y2 32 e (fits y2 (omega arith)) 4 (slot.get * 4096) (omega arith),
      k,
      put_u32_le-append name y3 32 e (fits y3 (omega arith)) 8 key_map (omega arith),
      put_u32_le-append name y4 32 e (fits y4 (omega arith)) 12 def.repeat_count (omega arith),
      put_u32_le-append name y5 32 e (fits y5 (omega arith)) 16 def.interval_ms (omega arith),
    )

-- The byte of a mode reads back as the mode.
gamepad-mode_byte :
    (mode : Mode) (byte : ℕ) → mode_byte mode ≡ ok byte → gamepad_byte_to_mode byte ≡ mode
unfolding gamepad_byte_to_mode
gamepad-mode_byte mode byte e = elim (mode_byte_cases mode byte e) [
  | inl (m, b) ↦ rw b (sym m)
  | inr (inl (m, b)) ↦ rw b (sym m)
  | inr (inr (m, b)) ↦ rw b (sym m)
]

-- A macro that the encoder takes, with its mode's byte and its trigger buttons' bits.
pub record IsEncodable (def : MacroDefinition) (slot : MacroSlot) (mode key_map : ℕ) : Type 0 where
  pub plain_name : All IsNameChar def.name
  pub short_name : 2 * length (encode_utf16 def.name) ≤ 32
  pub mode_known : mode_byte def.mode ≡ ok mode
  pub buttons_known : trigger_key_map def.trigger_buttons ≡ ok key_map
  pub few_steps : IsU16 (length def.steps)
  pub repeats : IsU32 def.repeat_count
  pub pauses : IsU32 def.interval_ms
  pub slot_known : slot.get ≤ 3

-- The macro that the decoder makes of the bits `key_map`.
abbrev pub from_bits : MacroDefinition → ℕ → ℕ → MacroDefinition
from_bits def slot key_map = record def {
  trigger_buttons = (key_map_to_trigger_buttons key_map).0;
  unknown_trigger_bits = (key_map_to_trigger_buttons key_map).1;
  steps = replicate (length def.steps) default_step;
  macro_slot = some slot;
}

-- The descriptor of a macro, and what the decoder makes of it.
pub encoded_descriptor :
    (def : MacroDefinition) (slot : MacroSlot) (mode key_map : ℕ)
    → IsEncodable def slot mode key_map
    → (descriptor : List ℕ) × (encode_macro_metadata def slot ≡ ok descriptor)
      × (length descriptor ≡ 52)
      × (decode_descriptor slot.get descriptor
          ≡ ok (
              if key_map == 0 && length def.steps == 0
              then none
              else some (from_bits def slot.get key_map)))
encoded_descriptor def slot mode key_map h =
    let (back, size) = decode-encode_name def.name 32 h.plain_name h.short_name in
    let name : List ℕ = encode_utf16be_name def.name 32 in
    let tail : List ℕ =
      tail_bytes mode (length def.steps) (slot.get * 4096) key_map def.repeat_count
        def.interval_ms in
    let small : IsU32 key_map =
      trigger_bits-IsU32 0 def.trigger_buttons key_map (omega arith)
        (unfold trigger_key_map in h.buttons_known) in
    let read : Reads (name ++ tail) name mode (length def.steps) key_map def.repeat_count
        def.interval_ms =
      reads name mode (length def.steps) (slot.get * 4096) key_map def.repeat_count def.interval_ms
        size h.few_steps small h.repeats h.pauses in
    (
      name ++ tail,
      encode_metadata-eq def slot mode key_map size h.mode_known h.few_steps (omega arith)
          h.buttons_known,
      omega (arith, length-append name tail, size),
      decode_descriptor-eq slot.get (name ++ tail) key_map (length def.steps)
          (from_bits def slot.get key_map) read.started read.stepped
          (read_definition-eq slot.get (name ++ tail) name key_map (length def.steps) mode
              def.repeat_count def.interval_ms (omega arith) read
            ∙ ap₂
                (λ n m. ok (some (record (from_bits def slot.get key_map) { name = n; mode = m })))
                back (gamepad-mode_byte def.mode mode h.mode_known)),
    )
