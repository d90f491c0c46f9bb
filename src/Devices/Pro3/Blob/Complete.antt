-- ===== src/Devices/Pro3/Blob/Complete.antt =====
-- crates/controller-core/src/devices/pro3/profile.rs: when the sections of `compile_profile` can
-- be written.
use b.Devices.Pro3.Profile.{encodings_for_mode}
use b.Model.Mode.{same_mode}
use b.Model.Slot.{Slot}
use b.Model.Macros.{MacroDefinition}
use b.Devices.Pro3.Blob.Compiled.{sections}
use b.Devices.Pro3.Blob.Readers.{slot_index-inverse}
use b.Devices.Pro3.Macros.Descriptor.{IsEncodable, encoded_descriptor}
use b.Devices.Pro3.Macros.Buttons.{contains}
use b.Devices.Pro3.Compile.ReadBack.{outputs}
use b.Model.MacroSlot as macro_slots
use b.Devices.Pro3.Blob.Codes.{entry_code-IsCode, overrides_from-Gives}
use b.Devices.Pro3.Blob.Coded.{encodings-AreCodes, no_overrides}
use b.Devices.Pro3.Blob.Overrides.{overrides_from-ok}
use b.Shared.{
  if◌then◌else◌, length-replicate, zero, ◌==◌, inl, inr, Bool-cases, Bool-cases, replicate, none,
  some, suc, true, false, All, ℕ, ◌+◌, ◌*◌, ◌≤◌, ◌<◌, ◌≡◌, refl, ◌∙◌, List, [], ◌∷◌, length, Result,
  ok, ◌>>=◌, if-elim, leb, arith,
}
use b.Protocol.Bytes.{put_slice, put_u16_le, put_u32_le, splice, to_le_bytes_u16, to_le_bytes_u32}
use b.Protocol.Bytes.Fields.{put_slice-ok}
use b.Protocol.Bytes.Windows.{length-splice}
use b.Protocol.Text.{encode_utf16be_name}
use b.Protocol.Text.RoundTrip.{length-encode_utf16be_name}
use b.Devices.Pro3.{switch, slot_index, mode_byte}
use b.Devices.Pro3.Blob.{
  entry_code, write_descriptor, seal_crc, compile_profile, write_macros, write_macro_descriptors,
  write_buttons, write_entries, Profile, mode_enc, write_head, write_vibration, write_sticks,
  write_triggers, write_flags, write_motor_range,
}
use b.Devices.Pro3.Blob.Sections.{length-trig_bytes}
use b.Devices.Pro3.Settings.{Settings, Sticks, Triggers, Vibration}
use b.Devices.Pro3.Tables.{slot_marker}

-- The computation gives a blob of the right size.
abbrev pub Works : Result (List ℕ) → Type 0
Works m = (out : List ℕ) × (m ≡ ok out) × (length out ≡ 2348)

-- A step of a compilation works on every blob of the right size.
abbrev pub Step : (List ℕ → Result (List ℕ)) → Type 0
Step f = (buf : List ℕ) → length buf ≡ 2348 → Works (f buf)

pub Works->>= :
    (m : Result (List ℕ)) (f : List ℕ → Result (List ℕ)) → Works m → Step f → Works (m >>= f)
Works->>= m f (mid, e, size) h = rw e (h mid size)

pub Works-value {ℓ} :
    {A : Type ℓ} (m : Result A) (a : A) (f : A → Result (List ℕ))
    → m ≡ ok a
    → Works (f a)
    → Works (m >>= f)
Works-value m a f e h = rw e h

pub put_slice-Works :
    (off : ℕ) (src : List ℕ) → off + length src ≤ 2348 → Step (λ buf. put_slice buf off src)
put_slice-Works off src h buf size = (
  splice buf off src,
  put_slice-ok buf off src (omega arith) (omega arith),
  length-splice buf off src (omega arith) ∙ size,
)

abbrev slot_of : MacroDefinition → ℕ
slot_of m = elim m.macro_slot [ none ↦ 0 | some j ↦ j ]

-- A macro that the encoder takes, for one of the four macro slots.
abbrev IsWritable : MacroDefinition → Type 0
IsWritable m = (mode : ℕ) × (key_map : ℕ) × IsEncodable m (record { get = slot_of m }) mode key_map

module _ (i : ℕ) (slot : i < 3) where
  write_head-Works :
      (profile : Profile) (byte : ℕ)
      → mode_byte profile.mode ≡ ok byte
      → Step (write_head profile i)
  unfolding write_head put_u16_le mode_enc
  write_head-Works profile byte known buf size =
      let name : List ℕ = encode_utf16be_name profile.name 0x20 in
      let mode : mode_enc profile.mode ≡ ok byte = unfold mode_byte in known in
      Works->>= _ _ (put_slice-Works (0 + i * 4) slot_marker (omega arith) buf size) (λ b sb.
        rw mode (
          Works->>= _ _ (put_slice-Works 0x10 (to_le_bytes_u16 byte) (omega arith) b sb) (
            put_slice-Works (0x14 + i * 0x20) name
              (omega (arith, length-encode_utf16be_name profile.name 0x20)))))

  write_vibration-Works : (vibration : Vibration) → Step (write_vibration vibration i)
  unfolding write_vibration put_u32_le
  write_vibration-Works vibration buf size =
      let off : ℕ = 0x74 + i * 12 in
      Works->>= _ _ (put_slice-Works off slot_marker (omega arith) buf size) (λ b sb.
        Works->>= _ _ (put_slice-Works (off + 4) (to_le_bytes_u32 _) (omega arith) b sb)
          (put_slice-Works (off + 8) (to_le_bytes_u32 _) (omega arith)))

  write_sticks-Works : (sticks : Sticks) → Step (write_sticks sticks i)
  unfolding write_sticks
  write_sticks-Works sticks buf size =
      Works->>= _ _ (put_slice-Works (0x98 + i * 8) slot_marker (omega arith) buf size)
        (λ b sb. put_slice-Works (0x9C + i * 8) _ (omega arith) b sb)

  write_triggers-Works : (triggers : Triggers) → Step (write_triggers triggers i)
  unfolding write_triggers
  write_triggers-Works triggers buf size =
      Works->>= _ _ (put_slice-Works (0xB0 + i * 8) slot_marker (omega arith) buf size) (λ b sb.
        put_slice-Works (0xB4 + i * 8) _ (omega (arith, length-trig_bytes triggers _)) b sb)

  write_flags-Works : (sticks : Sticks) (triggers : Triggers) → Step (write_flags sticks triggers i)
  unfolding write_flags
  write_flags-Works sticks triggers buf size =
      Works->>= _ _ (put_slice-Works (0xC8 + i * 8) slot_marker (omega arith) buf size)
        (put_slice-Works (0xCC + i * 8) _ (omega arith))

  write_motor_range-Works : Step (write_motor_range i)
  unfolding write_motor_range
  write_motor_range-Works buf size =
      let off : ℕ = 0x914 + i * 8 in
      Works->>= _ _ (put_slice-Works off slot_marker (omega arith) buf size) (λ b sb.
        Works->>= _ _ (put_slice-Works (off + 4) (1 ∷ 100 ∷ []) (omega arith) b sb) (λ c sc.
          if-elim Works (leb (off + 4 + 4) 0x92C)
            (put_slice-Works (off + 4 + 2) (1 ∷ 100 ∷ []) (omega arith) c sc) (c, refl, sc)))

  write_entries-Works :
      (left j : ℕ) (code : ℕ → List ℕ)
      → ((k : ℕ) → length (code k) ≡ 4)
      → j + left ≡ 22
      → Step (write_entries left j code (0xE4 + i * 0x5C))
  unfolding write_entries
  write_entries-Works zero j code four e buf size = (buf, refl, size)
  write_entries-Works (suc left) j code four e buf size =
      Works->>= _ _
        (put_slice-Works (0xE4 + i * 0x5C + j * 4) (code j) (omega (arith, four j)) buf size)
        (λ b sb. write_entries-Works left (j + 1) code four (omega arith) b sb)

  write_buttons-Works :
      (profile : Profile) (byte : ℕ)
      → mode_byte profile.mode ≡ ok byte
      → All (λ m. contains (outputs profile.mode) m.target ≡ true) profile.button_mappings
      → Step (write_buttons profile i)
  unfolding write_buttons
  write_buttons-Works profile byte known targets buf size =
      let is_switch = same_mode profile.mode switch in
      let entries = encodings_for_mode profile.mode in
      let codes = encodings-AreCodes profile.mode in
      let base : ℕ = 0xE4 + i * 0x5C in
      Works->>= _ _ (put_slice-Works (0xE0 + i * 0x5C) slot_marker (omega arith) buf size) (λ b sb.
        let (overrides, e) =
          overrides_from-ok profile.mode byte known profile.button_mappings b base
            (replicate 22 none) targets in
        rw e (
          write_entries-Works 22 0 (entry_code is_switch entries overrides)
            (λ j. entry_code-IsCode entries codes is_switch overrides j (
              overrides_from-Gives entries codes is_switch profile.button_mappings b base
                (replicate 22 none) (no_overrides 22) overrides e))
            refl b sb))

  write_descriptor-Works :
      (m : MacroDefinition) (j mode key_map : ℕ)
      → IsEncodable m (record { get = j }) mode key_map
      → Step (λ buf. if leb 4 j then ok buf else write_descriptor m j (0x68C + i * 216) buf)
  unfolding write_descriptor macro_slots.new
  write_descriptor-Works m j mode key_map h buf size =
      let below : leb 4 j ≡ false = ground (arith, h.slot_known) in
      let placed : leb j 3 ≡ true = ground (arith, h.slot_known) in
      let (d, e, sized, _) = encoded_descriptor m (record { get = j }) mode key_map h in
      rw (below, placed, e)
        (put_slice-Works (0x68C + i * 216 + 8 + j * 52) d (omega (arith, h.slot_known, sized)) buf
          size)

  write_macro_descriptors-Works :
      (ms : List MacroDefinition)
      → All IsWritable ms
      → Step (write_macro_descriptors ms (0x68C + i * 216))
  unfolding write_macro_descriptors
  write_macro_descriptors-Works [] h buf size = (buf, refl, size)
  write_macro_descriptors-Works (m ∷ ms) h buf size =
      Works->>= _ _ (write_descriptor-Works m (slot_of m) h.0.0 h.0.1 h.0.2 buf size)
        (write_macro_descriptors-Works ms h.1)

  write_macros-Works : (ms : List MacroDefinition) → All IsWritable ms → Step (write_macros ms i)
  unfolding write_macros put_u32_le
  write_macros-Works ms h buf size =
      let base : ℕ = 0x68C + i * 216 in
      Works->>= _ _ (put_slice-Works base slot_marker (omega arith) buf size) (λ b sb.
        Works->>= _ _ (put_slice-Works (base + 4) (to_le_bytes_u32 4) (omega arith) b sb) (λ c sc.
          Works->>= _ _ (put_slice-Works (base + 8) (replicate 208 0) (omega arith) c sc)
            (write_macro_descriptors-Works ms h)))

pub seal_crc-Works : Step seal_crc
unfolding seal_crc put_u32_le put_u16_le
seal_crc-Works buf size =
    Works->>= _ _ (put_slice-Works 0xC (to_le_bytes_u32 0) (omega arith) buf size)
      (λ b sb. put_slice-Works 0xC (to_le_bytes_u16 _) (omega arith) b sb)

-- A profile of a mode of the Pro 3, with settings that read, button targets that the mode has and
-- macros that the encoder takes.
pub record IsCompilable (profile : Profile) (macros : List MacroDefinition) : Type 0 where
  pub mode : ℕ
  pub mode_known : mode_byte profile.mode ≡ ok mode
  pub settings : Settings
  pub settings_known : profile.settings ≡ ok settings
  pub targets : All (λ m. contains (outputs profile.mode) m.target ≡ true) profile.button_mappings
  pub writable : All IsWritable macros

sections-Works :
    (profile : Profile) (macros : List MacroDefinition) (i : ℕ) (c : IsCompilable profile macros)
    → i < 3
    → Step (sections profile c.settings i macros)
sections-Works profile macros i c h buf size =
    Works->>= _ _ (write_head-Works i h profile c.mode c.mode_known buf size) (λ b sb.
      Works->>= _ _ (write_vibration-Works i h c.settings.vibration b sb) (λ b sb.
        Works->>= _ _ (write_sticks-Works i h c.settings.sticks b sb) (λ b sb.
          Works->>= _ _ (write_triggers-Works i h c.settings.triggers b sb) (λ b sb.
            Works->>= _ _ (write_flags-Works i h c.settings.sticks c.settings.triggers b sb)
              (λ b sb.
                Works->>= _ _ (write_buttons-Works i h profile c.mode c.mode_known c.targets b sb)
                  (λ b sb.
                    Works->>= _ _ (write_macros-Works i h macros c.writable b sb) (λ b sb.
                      Works->>= _ _ (write_motor_range-Works i h b sb) seal_crc-Works)))))))

from_start-Works :
    (profile : Profile) (slot : Slot) (start : List ℕ) (macros : List MacroDefinition) (i : ℕ)
    → IsCompilable profile macros
    → slot_index slot ≡ ok i
    → length start ≡ 2348
    → Works (do
      idx ← slot_index slot
      settings ← profile.settings
      sections profile settings idx macros start)
from_start-Works profile slot start macros i c at size =
    let (below, _) = slot_index-inverse slot i at in
    let write = λ (idx : ℕ) (settings : Settings). sections profile settings idx macros start in
    Works-value (slot_index slot) i (λ idx. profile.settings >>= write idx) at
      (Works-value profile.settings c.settings (write i) c.settings_known
        (sections-Works profile macros i c below start size))

pub compile_profile-Works :
    (profile : Profile) (slot : Slot) (base : List ℕ) (macros : List MacroDefinition) (i : ℕ)
    → IsCompilable profile macros
    → slot_index slot ≡ ok i
    → Works (compile_profile profile slot base macros)
unfolding compile_profile
compile_profile-Works profile slot base macros i c at = elim (Bool-cases (length base == 2348)) [
  | inl right ↦ rw right (from_start-Works profile slot base macros i c at (ground arith))
  | inr wrong ↦ rw wrong (
      from_start-Works profile slot (replicate 2348 0) macros i c at
        (length-replicate {A = ℕ} 2348 0))
]
