-- ===== src/Devices/Pro3/Edit/Checksums.antt =====
-- crates/controller-core/src/devices/pro3/edit.rs: the checksum after each edit.
use b.Devices.Pro3.Edit.Regions.{drop_from-Framed}
use b.Protocol.Bytes.{put_slice, take_bytes}
use b.Devices.Pro3.Macros.{trigger_key_map}
use b.Devices.Pro3.{slot_index}
use b.Shared.{
  length-replicate, if◌then◌else◌, [], ◌∷◌, inl, inr, Bool-cases, replicate, ◌==◌, ◌∷◌, ℕ, ◌+◌, ◌*◌,
  ◌≡◌, refl, List, length, ok, Option, Gives, Gives-ok, Gives->>=, arith,
}
use Prim.Native.String.{[], String}
use b.Model.Slot.{Slot}
use b.Model.MacroSlot.{MacroSlot}
use b.Model.Macros.{MacroDefinition}
use b.Protocol.Bytes.Frames.{region, put_slice-Framed}
use b.Devices.Pro3.Blob.{Profile, compile_profile}
use b.Devices.Pro3.Blob.Sealed.{IsSealed, seal_crc-IsSealed, IsSealed->>=}
use b.Devices.Pro3.Blob.Compiled.{sections}
use b.Devices.Pro3.Blob.Sections.{
  head_regions, vibration_regions, pair_regions, flag_regions, button_regions, motor_regions,
  write_head-Framed, write_vibration-Framed, write_sticks-Framed, write_triggers-Framed,
  write_flags-Framed, write_motor_range-Framed,
}
use b.Devices.Pro3.Blob.Slots.{macro_region, write_buttons-Framed, write_macros-Framed}
use b.Devices.Pro3.Edit.{
  descriptor_of, check_size, descriptor_region_offset, compile_profile_keep_macros, drop_macros,
  set_macro, deactivate_profile,
}
use b.Devices.Pro3.Settings.{Settings}

sections-IsSealed :
    (profile : Profile) (settings : Settings) (i : ℕ) (macros : List MacroDefinition) (buf : List ℕ)
    → length buf ≡ 2348
    → Gives IsSealed (sections profile settings i macros buf)
sections-IsSealed profile settings i macros buf fits =
    IsSealed->>= (head_regions i) buf _ _ (write_head-Framed profile i buf) fits (λ b fb.
      IsSealed->>= (vibration_regions i) b _ _ (write_vibration-Framed settings.vibration i b) fb
        (λ c fc.
          IsSealed->>= (pair_regions 0x98 0x9C i) c _ _ (write_sticks-Framed settings.sticks i c) fc
            (λ d fd.
              IsSealed->>= (pair_regions 0xB0 0xB4 i) d _ _
                (write_triggers-Framed settings.triggers i d) fd
                (λ e fe.
                  IsSealed->>= (flag_regions i) e _ _
                    (write_flags-Framed settings.sticks settings.triggers i e) fe
                    (λ f ff.
                      IsSealed->>= (button_regions i) f _ _ (write_buttons-Framed profile i f) ff
                        (λ g fg.
                          IsSealed->>= (macro_region i ∷ []) g _ _ (write_macros-Framed macros i g)
                            fg
                            (λ h fh.
                              IsSealed->>= (motor_regions i) h _ _ (write_motor_range-Framed i h) fh
                                (λ k fk. seal_crc-IsSealed k fk))))))))

pub compile_profile-IsSealed :
    (profile : Profile) (slot : Slot) (base : List ℕ) (macros : List MacroDefinition)
    → Gives IsSealed (compile_profile profile slot base macros)
unfolding compile_profile
compile_profile-IsSealed profile slot base macros = Gives->>= IsSealed (slot_index slot) _ (λ i at.
    Gives->>= IsSealed profile.settings _ (λ settings e.
      sections-IsSealed profile settings i macros
        (if length base == 2348 then base else replicate 2348 0) start_size))
  where
    start_size : length (if length base == 2348 then base else replicate 2348 0) ≡ 2348
    start_size = elim (Bool-cases (length base == 2348)) [
      | inl right ↦ rw right (ground arith)
      | inr wrong ↦ rw wrong (length-replicate {A = ℕ} 2348 0)
    ]

checked_size : (blob : List ℕ) (u : Unit) → check_size blob ≡ ok u → length blob ≡ 2348
checked_size blob u e = ground arith

pub compile_keep-IsSealed :
    (profile : Profile) (slot : Slot) (base : List ℕ)
    → Gives IsSealed (compile_profile_keep_macros profile slot base)
unfolding compile_profile_keep_macros
compile_keep-IsSealed profile slot base =
    Gives->>= IsSealed (compile_profile profile slot base []) _ (λ blob compiled.
      elim (Bool-cases (length base == 2348)) [
        | inl right ↦ rw right (
            Gives->>= IsSealed (descriptor_region_offset slot) _ (λ at e.
              Gives->>= IsSealed (take_bytes base at 208) _ (λ kept k.
                IsSealed->>= (region at (length kept) ∷ []) blob (put_slice blob at kept) _
                  (put_slice-Framed blob at kept)
                  ((compile_profile-IsSealed profile slot base [] blob compiled).0)
                  (λ out fits. seal_crc-IsSealed out fits))))
        | inr wrong ↦
            rw wrong
              (Gives-ok IsSealed blob (compile_profile-IsSealed profile slot base [] blob compiled))
      ])

pub set_macro-IsSealed :
    (blob : List ℕ) (slot : Slot) (macro_slot : MacroSlot) (def : Option MacroDefinition)
    → Gives IsSealed (set_macro blob slot macro_slot def)
unfolding set_macro
set_macro-IsSealed blob slot macro_slot def = Gives->>= IsSealed (check_size blob) _ (λ u e.
    Gives->>= IsSealed (descriptor_of def macro_slot) _ (λ d _.
      Gives->>= IsSealed (descriptor_region_offset slot) _ (λ base _.
        IsSealed->>= (region (base + macro_slot.get * 52) (length d) ∷ []) blob _ _
          (put_slice-Framed blob (base + macro_slot.get * 52) d) (checked_size blob u e)
          (λ out fits. seal_crc-IsSealed out fits))))

pub deactivate_profile-IsSealed :
    (blob : List ℕ) (slot : Slot) → Gives IsSealed (deactivate_profile blob slot)
unfolding deactivate_profile
deactivate_profile-IsSealed blob slot = Gives->>= IsSealed (check_size blob) _ (λ u e.
    Gives->>= IsSealed (slot_index slot) _ (λ i _.
      IsSealed->>= (region (i * 4) 4 ∷ []) blob _ _ (put_slice-Framed blob (i * 4) (replicate 4 0))
        (checked_size blob u e) (λ out fits. seal_crc-IsSealed out fits)))

pub drop_macros-IsSealed :
    (blob : List ℕ) (slot : Slot) (buttons : List String)
    → Gives IsSealed (drop_macros blob slot buttons)
unfolding drop_macros
drop_macros-IsSealed blob slot buttons = Gives->>= IsSealed (check_size blob) _ (λ u e.
    Gives->>= IsSealed (trigger_key_map _) _ (λ dropped _.
      Gives->>= IsSealed (descriptor_region_offset slot) _ (λ base _.
        IsSealed->>= (region base 208 ∷ []) blob _ _ (drop_from-Framed 4 0 base dropped blob refl)
          (checked_size blob u e) (λ out fits. seal_crc-IsSealed out fits))))
