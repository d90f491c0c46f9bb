-- ===== src/Devices/Pro3/Blob/Compiled.antt =====
-- crates/controller-core/src/devices/pro3/profile.rs: `compile_profile` and the slots that it does
-- not compile.
use b.Devices.Pro3.Blob.Readers.{
  slot_regions, spares, other_slot, slot_index-inverse, Frame-Kept, decode_name-Kept,
  decode_button_mappings-Kept, decode_macro_metadata-Kept,
}
use b.Devices.Pro3.Profile.{decode_name, decode_button_mappings}
use b.Devices.Pro3.Macros.{decode_macro_metadata}
use b.Devices.Pro3.{slot_index}
use b.Shared.{
  ◌∙◌, ◌-◌, ℕ, ◌+◌, ◌*◌, ◌≡◌, ◌>>=◌, List, [], ◌∷◌, Result, ok, length, ◌==◌, true, arith,
}
use b.Model.Slot.{Slot}
use b.Model.Mode.{Mode}
use b.Model.Macros.{MacroDefinition}
use b.Protocol.Bytes.Frames.{Framed, Framed->>=, Framed-value, apart}
use b.Devices.Pro3.Blob.Sections.{
  head_regions, vibration_regions, pair_regions, flag_regions, button_regions, motor_regions,
  crc_regions, write_head-Framed, write_vibration-Framed, write_sticks-Framed,
  write_triggers-Framed, write_flags-Framed, write_motor_range-Framed, seal_crc-Framed,
}
use b.Devices.Pro3.Blob.Slots.{macro_region, write_buttons-Framed, write_macros-Framed}
use b.Devices.Pro3.Blob.{
  Profile, compile_profile, write_head, write_vibration, write_sticks, write_triggers, write_flags,
  write_buttons, write_macros, write_motor_range, seal_crc,
}
use b.Devices.Pro3.Settings.{Settings}

-- A slot's sections in a blob of the right size.
abbrev pub sections : Profile → Settings → ℕ → List MacroDefinition → List ℕ → Result (List ℕ)
sections profile settings idx macros buf = do
  buf ← write_head profile idx buf
  buf ← write_vibration settings.vibration idx buf
  buf ← write_sticks settings.sticks idx buf
  buf ← write_triggers settings.triggers idx buf
  buf ← write_flags settings.sticks settings.triggers idx buf
  buf ← write_buttons profile idx buf
  buf ← write_macros macros idx buf
  buf ← write_motor_range idx buf
  seal_crc buf

pub sections-Framed :
    (profile : Profile) (settings : Settings) (i : ℕ) (macros : List MacroDefinition) (buf : List ℕ)
    → Framed (slot_regions i) buf (sections profile settings i macros buf)
sections-Framed profile settings i macros buf =
    Framed->>= (head_regions i) _ buf _ _ (write_head-Framed profile i buf) (λ b.
      Framed->>= (vibration_regions i) _ b _ _ (write_vibration-Framed settings.vibration i b) (λ c.
        Framed->>= (pair_regions 0x98 0x9C i) _ c _ _ (write_sticks-Framed settings.sticks i c)
          (λ d.
            Framed->>= (pair_regions 0xB0 0xB4 i) _ d _ _
              (write_triggers-Framed settings.triggers i d)
              (λ e.
                Framed->>= (flag_regions i) _ e _ _
                  (write_flags-Framed settings.sticks settings.triggers i e)
                  (λ f.
                    Framed->>= (button_regions i) _ f _ _ (write_buttons-Framed profile i f) (λ g.
                      Framed->>= (macro_region i ∷ []) _ g _ _ (write_macros-Framed macros i g)
                        (λ h.
                          Framed->>= (motor_regions i) crc_regions h _ _
                            (write_motor_range-Framed i h) (λ k. seal_crc-Framed k))))))))

compile_profile-Framed :
    (profile : Profile) (slot : Slot) (base : List ℕ) (macros : List MacroDefinition) (i : ℕ)
    → length base ≡ 2348
    → slot_index slot ≡ ok i
    → Framed (slot_regions i) base (compile_profile profile slot base macros)
compile_profile-Framed profile slot base macros i size at =
    let sized : (length base == 2348) ≡ true = ground arith in
    unfold compile_profile in
    rw (sized, at)
      (Framed-value (slot_regions i) base profile.settings _
        (λ settings. sections-Framed profile settings i macros base))

pub compile_profile-others :
    (profile : Profile) (slot other : Slot) (base out : List ℕ) (macros : List MacroDefinition)
    (i j : ℕ) (mode : Mode)
    → length base ≡ 2348
    → slot_index slot ≡ ok i
    → slot_index other ≡ ok j
    → ¬ (slot.get ≡ other.get)
    → compile_profile profile slot base macros ≡ ok out
    → (length out ≡ 2348)
      × (decode_name out other.get true ≡ decode_name base other.get true)
      × (decode_button_mappings out mode other.get ≡ decode_button_mappings base mode other.get)
      × (decode_macro_metadata out other ≡ decode_macro_metadata base other)
unfolding spares
compile_profile-others profile slot other base out macros i j mode size at bt ne run =
    let f = compile_profile-Framed profile slot base macros i size at (omega arith) out run in
    let (below, sum) = slot_index-inverse slot i at in
    let (below', sum') = slot_index-inverse other j bt in
    let spared : spares i j ≡ true = other_slot i j below below' (λ e. ne (omega arith)) in
    let kept = λ (lo hi : ℕ) (e : apart (slot_regions i) lo hi ≡ true).
      Frame-Kept (slot_regions i) base out lo hi f e in
    let place : other.get - 1 ≡ j = omega arith in
    (
      f.same_length ∙ size,
      decode_name-Kept base out other.get (rw place (kept (0x14 + j * 0x20) _ (ground arith))),
      decode_button_mappings-Kept base out mode other.get
          (rw place (kept (0xE4 + j * 0x5C) _ (ground arith))),
      decode_macro_metadata-Kept base out other j bt (kept (0x68C + j * 216 + 8) _ (ground arith)),
    )
