-- ===== src/Devices/Pro3/Blob/Own.antt =====
-- crates/controller-core/src/devices/pro3/profile.rs: the stick bytes and the flags of a compiled
-- slot.
use b.Devices.Pro3.Blob.Compiled.{sections}
use b.Devices.Pro3.Blob.Kept.{
  Holds, put_slice-Holds, Holds-Framed, from_triggers, from_buttons, trigger_tail, button_tail,
  from_triggers-Framed, from_buttons-Framed,
}
use b.Devices.Pro3.Blob.Sections.{
  head_regions, vibration_regions, pair_regions, flag_regions, write_head-Framed,
  write_vibration-Framed, write_sticks-Framed, write_triggers-Framed, write_flags-Framed,
}
use b.Devices.Pro3.Blob.{
  Profile, write_head, write_vibration, write_sticks, write_triggers, write_flags, flags0_of,
  flags1_of,
}
use b.Devices.Pro3.Compile.{keep_or_encode, percent_to_stick_byte}
use b.Devices.Pro3.Profile.{byte_at}
use b.Devices.Pro3.Settings.{Settings, Sticks, Triggers}
use b.Devices.Pro3.Tables.{slot_marker}
use b.Model.Macros.{MacroDefinition}
use b.Protocol.Bytes.{put_slice}
use b.Protocol.Bytes.Frames.{Region, Framed, apart, apart-Outside, put_slice-Gives}
use b.Shared.Int.{ℤ}
use b.Shared.{
  true, ℕ, zero, suc, ◌+◌, ◌*◌, ◌<◌, ◌≡◌, refl, ◌∙◌, List, [], ◌∷◌, length, true, Result, ok, Gives,
  Gives->>=, arith,
}

abbrev pub stick_bytes : Sticks → ℕ → List ℕ → List ℕ
stick_bytes sticks i buf =
    let stick = λ (k : ℕ) (pct : ℤ).
      keep_or_encode (byte_at buf (0x9C + i * 8 + k)) pct 128 percent_to_stick_byte in
    stick 0 sticks.left_min_pct
    ∷ stick 1 sticks.left_max_pct
    ∷ stick 2 sticks.right_min_pct
    ∷ stick 3 sticks.right_max_pct
    ∷ []

-- The same size after writes.
sized :
    (rs : List Region) (buf out : List ℕ) (r : Result (List ℕ))
    → Framed rs buf r
    → length buf ≡ 2348
    → r ≡ ok out
    → length out ≡ 2348
sized rs buf out r framed size e = (framed (omega arith) out e).same_length ∙ size

write_sticks-Holds :
    (sticks : Sticks) (i : ℕ) (buf : List ℕ)
    → length buf ≡ 2348
    → Gives
        (λ out. (b : List ℕ) × Holds (0x9C + i * 8) (stick_bytes sticks i b) out)
        (write_sticks sticks i buf)
unfolding write_sticks
write_sticks-Holds sticks i buf size =
    Gives->>= _ (put_slice buf (0x98 + i * 8) slot_marker) _ (λ b e out run.
      let sb : length b ≡ 2348 = put_slice-Gives buf (0x98 + i * 8) slot_marker 2348 size b e in
      (b, put_slice-Holds b (0x9C + i * 8) (stick_bytes sticks i b) (omega arith) out run))

write_flags-Holds :
    (sticks : Sticks) (triggers : Triggers) (i : ℕ) (buf : List ℕ)
    → length buf ≡ 2348
    → Gives
        (Holds (0xCC + i * 8) (flags0_of sticks triggers ∷ flags1_of sticks ∷ []))
        (write_flags sticks triggers i buf)
unfolding write_flags
write_flags-Holds sticks triggers i buf size =
    Gives->>= _ (put_slice buf (0xC8 + i * 8) slot_marker) _ (λ b e.
      let sb : length b ≡ 2348 = put_slice-Gives buf (0xC8 + i * 8) slot_marker 2348 size b e in
      put_slice-Holds b (0xCC + i * 8) (flags0_of sticks triggers ∷ flags1_of sticks ∷ [])
        (omega arith))

-- The sections behind them write elsewhere.
own_apart :
    (i : ℕ)
    → i < 3
    → (apart (trigger_tail i) (0x9C + i * 8) (0x9C + i * 8 + 4) ≡ true)
      × (apart (button_tail i) (0xCC + i * 8) (0xCC + i * 8 + 2) ≡ true)
unfolding apart
own_apart zero h = (refl, refl)
own_apart (suc zero) h = (refl, refl)
own_apart (suc (suc zero)) h = (refl, refl)
own_apart (suc (suc (suc i))) h = absurd (omega arith)

module _ (profile : Profile) (settings : Settings) (i : ℕ) (slot : i < 3)
    (macros : List MacroDefinition) (buf : List ℕ) (size : length buf ≡ 2348) where
  pub sticks_kept :
      Gives
        (λ out. (b : List ℕ) × Holds (0x9C + i * 8) (stick_bytes settings.sticks i b) out)
        (sections profile settings i macros buf)
  sticks_kept = Gives->>= _ (write_head profile i buf) _ (λ b eb.
      let sb = sized (head_regions i) buf b _ (write_head-Framed profile i buf) size eb in
      Gives->>= _ (write_vibration settings.vibration i b) _ (λ c ec.
        let sc =
          sized (vibration_regions i) b c _ (write_vibration-Framed settings.vibration i b) sb ec in
        Gives->>= _ (write_sticks settings.sticks i c) (from_triggers profile settings i macros)
          (λ d ed out run.
            let sd =
              sized (pair_regions 0x98 0x9C i) c d _ (write_sticks-Framed settings.sticks i c) sc
                ed in
            let (x, held) = write_sticks-Holds settings.sticks i c sc d ed in
            (
              x,
              Holds-Framed (trigger_tail i) d (from_triggers profile settings i macros d)
                  (0x9C + i * 8) (stick_bytes settings.sticks i x)
                  (from_triggers-Framed profile settings i macros d) (omega arith)
                  (apart-Outside (trigger_tail i) (0x9C + i * 8) (0x9C + i * 8 + 4) (0x9C + i * 8) 4
                    (own_apart i slot).0 (omega arith) (omega arith))
                  held out run,
            ))))

  pub flags_kept :
      Gives
        (Holds
          (0xCC + i * 8)
          (flags0_of settings.sticks settings.triggers ∷ flags1_of settings.sticks ∷ []))
        (sections profile settings i macros buf)
  flags_kept = Gives->>= _ (write_head profile i buf) _ (λ b eb.
      let sb = sized (head_regions i) buf b _ (write_head-Framed profile i buf) size eb in
      Gives->>= _ (write_vibration settings.vibration i b) _ (λ c ec.
        let sc =
          sized (vibration_regions i) b c _ (write_vibration-Framed settings.vibration i b) sb ec in
        Gives->>= _ (write_sticks settings.sticks i c) _ (λ d ed.
          let sd =
            sized (pair_regions 0x98 0x9C i) c d _ (write_sticks-Framed settings.sticks i c) sc
              ed in
          Gives->>= _ (write_triggers settings.triggers i d) _ (λ e ee.
            let se =
              sized (pair_regions 0xB0 0xB4 i) d e _ (write_triggers-Framed settings.triggers i d)
                sd ee in
            Gives->>= _ (write_flags settings.sticks settings.triggers i e)
              (from_buttons profile settings i macros)
              (λ f ef.
                let sf =
                  sized (flag_regions i) e f _
                    (write_flags-Framed settings.sticks settings.triggers i e) se ef in
                Holds-Framed (button_tail i) f (from_buttons profile settings i macros f)
                  (0xCC + i * 8)
                  (flags0_of settings.sticks settings.triggers ∷ flags1_of settings.sticks ∷ [])
                  (from_buttons-Framed profile settings i macros f) (omega arith)
                  (apart-Outside (button_tail i) (0xCC + i * 8) (0xCC + i * 8 + 2) (0xCC + i * 8) 2
                    (own_apart i slot).1 (omega arith) (omega arith))
                  (write_flags-Holds settings.sticks settings.triggers i e se f ef))))))
