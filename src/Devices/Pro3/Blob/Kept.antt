-- ===== src/Devices/Pro3/Blob/Kept.antt =====
-- crates/controller-core/src/devices/pro3/profile.rs: the sections of `compile_profile` behind
-- each section.
use b.Shared.{
  ℕ, ◌+◌, ◌≤◌, ◌<◌, ◌≡◌, sym, ap, ◌∙◌, List, [], ◌∷◌, ◌++◌, length, take, drop, get_or, Result, ok,
  ◌>>=◌, Gives, arith,
}
use b.Model.Macros.{MacroDefinition}
use b.Protocol.Bytes.{slice, put_slice, splice, read_u8}
use b.Protocol.Bytes.Fields.{Fits, slice-ok, window_or}
use b.Protocol.Bytes.Frames.{Region, Framed, Framed->>=, Outside, put_inversion}
use b.Protocol.Bytes.Windows.{length-splice, window-splice_self}
use b.Devices.Pro3.Blob.{
  Profile, write_vibration, write_sticks, write_triggers, write_flags, write_buttons, write_macros,
  write_motor_range, seal_crc,
}
use b.Devices.Pro3.Blob.Sections.{
  vibration_regions, pair_regions, flag_regions, button_regions, motor_regions, crc_regions,
  write_vibration-Framed, write_sticks-Framed, write_triggers-Framed, write_flags-Framed,
  write_motor_range-Framed, seal_crc-Framed,
}
use b.Devices.Pro3.Blob.Slots.{macro_region, write_buttons-Framed, write_macros-Framed}
use b.Devices.Pro3.Profile.{byte_at}
use b.Devices.Pro3.Settings.{Settings}

-- The bytes from `at` on.
abbrev pub Holds : ℕ → List ℕ → List ℕ → Type 0
Holds at src buf = slice (length src) buf at ≡ ok src

pub put_slice-Holds :
    (buf : List ℕ) (off : ℕ) (src : List ℕ)
    → Fits buf
    → Gives (Holds off src) (put_slice buf off src)
put_slice-Holds buf off src fits out run =
    let (within, same) = put_inversion buf off src out run in
    let sized = length-splice buf off src within in
    rw (← same) (
      slice-ok (length src) (splice buf off src) off (omega (arith, sized)) (omega (arith, sized))
      ∙ ap ok (window-splice_self buf off src within))

-- Writes elsewhere keep it.
pub Holds-Framed :
    (rs : List Region) (buf : List ℕ) (r : Result (List ℕ)) (at : ℕ) (src : List ℕ)
    → Framed rs buf r
    → Fits buf
    → Outside rs at (length src)
    → Holds at src buf
    → Gives (Holds at src) r
Holds-Framed rs buf r at src framed fits outside h out run =
    (framed fits out run).same at (length src) outside ∙ h

-- A byte of it.
pub byte_at-Holds :
    (buf : List ℕ) (at : ℕ) (src : List ℕ) (k : ℕ)
    → Fits buf
    → at + length src ≤ length buf
    → Holds at src buf
    → k < length src
    → byte_at buf (at + k) ≡ get_or src k 0
unfolding byte_at read_u8
byte_at-Holds buf at src k fits within h below =
    let all : take (length src) (drop at buf) ≡ src =
      ok-injective (sym (slice-ok (length src) buf at fits within) ∙ h) in
    rw (slice-ok 1 buf (at + k) fits (omega arith), window_or buf (at + k) 1 0 (omega arith))
      (let e : at + k + 0 ≡ at + k = omega arith in
        rw e (sym (window_or buf at (length src) k below) ∙ ap (λ l. get_or l k 0) all))
  where
    ok-injective : {a c : List ℕ} → ok a ≡ ok c → a ≡ c
    ok-injective e = cc

-- The sections behind each, and the regions they write to.
module _ (profile : Profile) (settings : Settings) (i : ℕ) (macros : List MacroDefinition) where
  abbrev from_macros : List ℕ → Result (List ℕ)
  from_macros buf = write_macros macros i buf >>= λ b. write_motor_range i b >>= seal_crc

  abbrev pub from_buttons : List ℕ → Result (List ℕ)
  from_buttons buf = write_buttons profile i buf >>= from_macros

  abbrev from_flags : List ℕ → Result (List ℕ)
  from_flags buf = write_flags settings.sticks settings.triggers i buf >>= from_buttons

  abbrev pub from_triggers : List ℕ → Result (List ℕ)
  from_triggers buf = write_triggers settings.triggers i buf >>= from_flags

  abbrev from_sticks : List ℕ → Result (List ℕ)
  from_sticks buf = write_sticks settings.sticks i buf >>= from_triggers

  abbrev from_vibration : List ℕ → Result (List ℕ)
  from_vibration buf = write_vibration settings.vibration i buf >>= from_sticks

abbrev pub button_tail : ℕ → List Region
button_tail i = button_regions i ++ ((macro_region i ∷ []) ++ (motor_regions i ++ crc_regions))

abbrev flag_tail : ℕ → List Region
flag_tail i = flag_regions i ++ button_tail i

abbrev pub trigger_tail : ℕ → List Region
trigger_tail i = pair_regions 0xB0 0xB4 i ++ flag_tail i

abbrev stick_tail : ℕ → List Region
stick_tail i = pair_regions 0x98 0x9C i ++ trigger_tail i

abbrev vibration_tail : ℕ → List Region
vibration_tail i = vibration_regions i ++ stick_tail i

module _ (profile : Profile) (settings : Settings) (i : ℕ) (macros : List MacroDefinition) where
  pub from_buttons-Framed :
      (b : List ℕ) → Framed (button_tail i) b (from_buttons profile settings i macros b)
  from_buttons-Framed b =
      Framed->>= (button_regions i) _ b _ _ (write_buttons-Framed profile i b) (λ c.
        Framed->>= (macro_region i ∷ []) _ c _ _ (write_macros-Framed macros i c) (λ d.
          Framed->>= (motor_regions i) crc_regions d _ _ (write_motor_range-Framed i d)
            seal_crc-Framed))

  from_flags-Framed : (b : List ℕ) → Framed (flag_tail i) b (from_flags profile settings i macros b)
  from_flags-Framed b =
      Framed->>= (flag_regions i) (button_tail i) b _ _
        (write_flags-Framed settings.sticks settings.triggers i b) from_buttons-Framed

  pub from_triggers-Framed :
      (b : List ℕ) → Framed (trigger_tail i) b (from_triggers profile settings i macros b)
  from_triggers-Framed b =
      Framed->>= (pair_regions 0xB0 0xB4 i) (flag_tail i) b _ _
        (write_triggers-Framed settings.triggers i b) from_flags-Framed

  from_sticks-Framed :
      (b : List ℕ) → Framed (stick_tail i) b (from_sticks profile settings i macros b)
  from_sticks-Framed b =
      Framed->>= (pair_regions 0x98 0x9C i) (trigger_tail i) b _ _
        (write_sticks-Framed settings.sticks i b) from_triggers-Framed

  from_vibration-Framed :
      (b : List ℕ) → Framed (vibration_tail i) b (from_vibration profile settings i macros b)
  from_vibration-Framed b =
      Framed->>= (vibration_regions i) (stick_tail i) b _ _
        (write_vibration-Framed settings.vibration i b) from_sticks-Framed
