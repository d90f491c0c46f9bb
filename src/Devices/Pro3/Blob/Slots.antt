-- ===== src/Devices/Pro3/Blob/Slots.antt =====
-- crates/controller-core/src/devices/pro3/profile.rs: the regions of the button map and of the
-- macros.
use b.Devices.Pro3.Compile.{overrides_from}
use b.Devices.Pro3.Profile.{encodings_for_mode}
use b.Devices.Pro3.Tables.{slot_marker}
use b.Model.Mode.{same_mode}
use b.Devices.Pro3.Blob.Codes.{entry_code-IsCode, overrides_from-Gives}
use b.Devices.Pro3.Blob.Coded.{encodings-AreCodes, no_overrides}
use b.Devices.Pro3.{switch}
use b.Devices.Pro3.{validation, mode_byte}
use b.Devices.Pro3.Blob.Sections.{button_regions, write_entries-Framed}
use b.Protocol.Text.{encode_utf16be_name}
use b.Protocol.Bytes.{to_le_bytes_u32, put_slice, put_u32_le, put_u16_le}
use b.Shared.{
  Bool-cases, if◌then◌else◌, arith, ◌<◌, decode, refuse_if, ◌∙◌, Gives->>=, length-set, set, ℕ, ◌+◌,
  ◌*◌, ◌≡◌, refl, List, [], ◌∷◌, ok, length, leb, replicate, inl, inr, none, some, Gives,
}
use b.Protocol.Bytes.Frames.{
  Framed-given, Region, region, Framed, Framed->>=, Framed-value, Framed-twice, Framed-nothing,
  Framed-widen, put_slice-Framed, put_slice-within, put_slice-Gives,
}
use b.Model.MacroSlot.{MacroSlot}
use b.Model.MacroSlot as macro_slots
use b.Model.Macros.{MacroDefinition}
use b.Devices.Pro3.Macros.{encode_macro_metadata, trigger_key_map}
use b.Devices.Pro3.Blob.{
  entry_code, Profile, write_buttons, write_descriptor, write_macro_descriptors, write_macros,
}

length_after_set : (xs : List ℕ) (i v : ℕ) → length xs ≡ 52 → length (set xs i v) ≡ 52
length_after_set xs i v h = length-set xs i v ∙ h

-- A macro descriptor has 52 bytes.
encode_macro_metadata-Gives :
    (def : MacroDefinition) (slot : MacroSlot)
    → Gives (λ d. length d ≡ 52) (encode_macro_metadata def slot)
unfolding encode_macro_metadata put_u16_le put_u32_le
encode_macro_metadata-Gives def slot =
    Gives->>= sized (put_slice (replicate 52 0) 0 (encode_utf16be_name def.name 32)) _ (λ a ha.
      Gives->>= sized (mode_byte def.mode) _ (λ m _.
        Gives->>= sized (refuse_if (leb (length a) 32) decode) _ (λ _ _.
          Gives->>= sized (refuse_if (leb 65536 (length def.steps)) validation) _ (λ _ _.
            Gives->>= sized (put_slice (set a 32 m) 34 _) _ (λ b hb.
              Gives->>= sized (refuse_if (leb 65536 (slot.get * 4096)) validation) _ (λ _ _.
                Gives->>= sized (put_slice b 36 _) _ (λ c hc.
                  Gives->>= sized (trigger_key_map def.trigger_buttons) _ (λ key_map _.
                    Gives->>= sized (put_slice c 40 _) _ (λ d hd.
                      Gives->>= sized (put_slice d 44 _) _ (λ e he. put_slice-Gives e 48 _ 52 (
                        put_slice-Gives d 44 _ 52
                          (put_slice-Gives c 40 _ 52
                            (put_slice-Gives b 36 _ 52
                              (put_slice-Gives (set a 32 m) 34 _ 52
                                (length_after_set a 32 m
                                  (put_slice-Gives (replicate 52 0) 0 _ 52 refl a ha))
                                b hb)
                              c hc)
                            d hd)
                          e he)))))))))))
  where
    sized : List ℕ → Type 0
    sized d = length d ≡ 52

pub write_buttons-Framed :
    (profile : Profile) (idx : ℕ) (buf : List ℕ)
    → Framed (button_regions idx) buf (write_buttons profile idx buf)
write_buttons-Framed profile idx buf =
    let codes = encodings-AreCodes profile.mode in
    let is_switch = same_mode profile.mode switch in
    let base : ℕ = 0xE4 + idx * 0x5C in
    let entries = encodings_for_mode profile.mode in
    unfold write_buttons in
    Framed->>= (region (0xE0 + idx * 0x5C) 4 ∷ []) (region base 88 ∷ []) buf
      (put_slice buf (0xE0 + idx * 0x5C) slot_marker) _
      (put_slice-Framed buf (0xE0 + idx * 0x5C) slot_marker)
      (λ b.
        Framed-given (region base 88 ∷ []) b
          (overrides_from is_switch entries profile.button_mappings b base (replicate 22 none)) _
          (λ overrides e.
            write_entries-Framed 22 0 (entry_code is_switch entries overrides) base b
              (λ j. entry_code-IsCode entries codes is_switch overrides j (
                overrides_from-Gives entries codes is_switch profile.button_mappings b base
                  (replicate 22 none) (no_overrides 22) overrides e))
              refl))

abbrev pub macro_region : ℕ → Region
macro_region idx = region (0x68C + idx * 216) 216

-- A descriptor of the slot lies in its macro region.
write_descriptor-Framed :
    (m : MacroDefinition) (j idx : ℕ) (buf : List ℕ)
    → j < 4
    → Framed (macro_region idx ∷ []) buf (write_descriptor m j (0x68C + idx * 216) buf)
write_descriptor-Framed m j idx buf h =
    let base : ℕ = 0x68C + idx * 216 in
    unfold write_descriptor in
    Framed-value (macro_region idx ∷ []) buf (macro_slots.new j) _ (λ slot.
      Framed-given (macro_region idx ∷ []) buf (encode_macro_metadata m slot) _ (λ d e.
        put_slice-within buf (base + 8 + j * 52) d base 216 (omega arith)
          (omega (arith, encode_macro_metadata-Gives m slot d e))))

write_macro_descriptors-Framed :
    (ms : List MacroDefinition) (idx : ℕ) (buf : List ℕ)
    → Framed (macro_region idx ∷ []) buf (write_macro_descriptors ms (0x68C + idx * 216) buf)
unfolding write_macro_descriptors
write_macro_descriptors-Framed [] idx buf =
    Framed-widen [] (macro_region idx ∷ []) buf (ok buf) (λ at n o. tt) (Framed-nothing buf)
write_macro_descriptors-Framed (m ∷ ms) idx buf =
    Framed-twice (macro_region idx ∷ []) buf _ _ (one (elim m.macro_slot [ none ↦ 0 | some i ↦ i ]))
      (λ b. write_macro_descriptors-Framed ms idx b)
  where
    one :
        (j : ℕ)
        → Framed
            (macro_region idx ∷ [])
            buf
            (if leb 4 j then ok buf else write_descriptor m j (0x68C + idx * 216) buf)
    one j = elim (Bool-cases (leb 4 j)) [
      | inl beyond ↦
          rw beyond (
            Framed-widen [] (macro_region idx ∷ []) buf (ok buf) (λ at n o. tt)
              (Framed-nothing buf))
      | inr within ↦ rw within (write_descriptor-Framed m j idx buf (ground arith))
    ]

pub write_macros-Framed :
    (ms : List MacroDefinition) (idx : ℕ) (buf : List ℕ)
    → Framed (macro_region idx ∷ []) buf (write_macros ms idx buf)
write_macros-Framed ms idx buf =
    let base : ℕ = 0x68C + idx * 216 in
    let rs : List Region = macro_region idx ∷ [] in
    unfold write_macros in
    Framed-twice rs buf (put_slice buf base slot_marker) _
      (put_slice-within buf base slot_marker base 216 (omega arith) (omega arith))
      (λ b.
        Framed-twice rs b (put_u32_le b (base + 4) 4) _
          (unfold put_u32_le in
            put_slice-within b (base + 4) (to_le_bytes_u32 4) base 216 (omega arith) (omega arith))
          (λ c.
            Framed-twice rs c (put_slice c (base + 8) (replicate 208 0)) _
              (put_slice-within c (base + 8) (replicate 208 0) base 216 (omega arith) (omega arith))
              (λ d. write_macro_descriptors-Framed ms idx d)))
