-- ===== src/Devices/Pro3/Blob/Preserved.antt =====
-- crates/controller-core/src/devices/pro3/profile.rs: `compile_profile` and what is read from its
-- result.
use b.Devices.Pro3.Blob.Own.{sticks_kept, flags_kept}
use b.Devices.Pro3.Blob.StickValues.{IsSticks, decode_sticks-Holds}
use b.Devices.Pro3.Blob.Compiled.{sections, sections-Framed}
use b.Devices.Pro3.Blob.Readers.{slot_index-inverse}
use b.Devices.Pro3.Reading.{decode_sticks}
use b.Devices.Pro3.Settings.{Settings}
use b.Shared.{
  length-replicate, replicate, ◌>>=◌, ◌==◌, sym, inl, inr, Bool-cases, subst, ◌∙◌, arith, ◌+◌,
  Gives, ◌<◌, true, ℕ, ◌≡◌, List, length, ok,
}
use b.Model.Mode.{Mode}
use b.Model.Slot.{Slot}
use b.Model.Macros.{MacroDefinition}
use b.Devices.Pro3.{Result, slot_index}
use b.Devices.Pro3.Macros.{decode_macro_metadata}
use b.Devices.Pro3.Profile.{decode_name, decode_button_mappings}
use b.Devices.Pro3.Blob.{Profile, compile_profile}
use b.Devices.Pro3.Blob.Compiled.{compile_profile-others}
use b.Devices.Pro3.Blob.Complete.{IsCompilable, compile_profile-Works}

-- A profile of a mode of the Pro 3, with settings that read, targets that the mode has and macros
-- that the encoder takes, compiles into any slot of a blob of 2348 bytes. The result has that size
-- too, and every other slot reads its name, its button mappings in any mode and its macros from it
-- as from the blob before.
pub compile_profile-other_slot :
    (profile : Profile) (macros : List MacroDefinition) (slot other : Slot) (i j : ℕ)
    (base : List ℕ) (mode : Mode)
    → IsCompilable profile macros
    → slot_index slot ≡ ok i
    → slot_index other ≡ ok j
    → ¬ (slot.get ≡ other.get)
    → length base ≡ 2348
    → (out : List ℕ) × (compile_profile profile slot base macros ≡ ok out)
      × (length out ≡ 2348)
      × (decode_name out other.get true ≡ decode_name base other.get true)
      × (decode_button_mappings out mode other.get ≡ decode_button_mappings base mode other.get)
      × (decode_macro_metadata out other ≡ decode_macro_metadata base other)
compile_profile-other_slot profile macros slot other i j base mode c at bt ne size =
    let (out, run, sized) = compile_profile-Works profile slot base macros i c at in
    let (_, name, buttons, listed) =
      compile_profile-others profile slot other base out macros i j mode size at bt ne run in
    (out, run, sized, name, buttons, listed)

sections-Sticks :
    (profile : Profile) (settings : Settings) (i : ℕ) (macros : List MacroDefinition) (buf : List ℕ)
    → i < 3
    → length buf ≡ 2348
    → IsSticks settings.sticks
    → Gives
        (λ out. decode_sticks out (i + 1) true ≡ settings.sticks)
        (sections profile settings i macros buf)
sections-Sticks profile settings i macros buf below size ranged out run =
    let frame = sections-Framed profile settings i macros buf (omega arith) out run in
    let (b, sticks) = sticks_kept profile settings i below macros buf size out run in
    decode_sticks-Holds settings.sticks settings.triggers i out b below (frame.same_length ∙ size)
      ranged sticks (flags_kept profile settings i below macros buf size out run)

Gives-value {ℓ} :
    {A : Type ℓ} (P : List ℕ → Type 0) (m : Result A) (a : A) (f : A → Result (List ℕ))
    → m ≡ ok a
    → Gives P (f a)
    → Gives P (m >>= f)
Gives-value P m a f e h = rw e h

from_start-Sticks :
    (profile : Profile) (settings : Settings) (macros : List MacroDefinition) (slot : Slot) (i : ℕ)
    (start : List ℕ)
    → profile.settings ≡ ok settings
    → slot_index slot ≡ ok i
    → IsSticks settings.sticks
    → length start ≡ 2348
    → Gives
        (λ out. decode_sticks out (i + 1) true ≡ settings.sticks)
        (do
          idx ← slot_index slot
          settings ← profile.settings
          sections profile settings idx macros start)
from_start-Sticks profile settings macros slot i start known at ranged size =
    let P = λ (out : List ℕ). decode_sticks out (i + 1) true ≡ settings.sticks in
    let write = λ (idx : ℕ) (found : Settings). sections profile found idx macros start in
    let (below, _) = slot_index-inverse slot i at in
    Gives-value P (slot_index slot) i (λ idx. profile.settings >>= write idx) at
      (Gives-value P profile.settings settings (write i) known
        (sections-Sticks profile settings i macros start below size ranged))

compile_profile-Sticks :
    (profile : Profile) (settings : Settings) (macros : List MacroDefinition) (slot : Slot) (i : ℕ)
    (base : List ℕ)
    → profile.settings ≡ ok settings
    → slot_index slot ≡ ok i
    → IsSticks settings.sticks
    → Gives
        (λ out. decode_sticks out (i + 1) true ≡ settings.sticks)
        (compile_profile profile slot base macros)
unfolding compile_profile
compile_profile-Sticks profile settings macros slot i base known at ranged =
    elim (Bool-cases (length base == 2348)) [
      | inl right ↦
          rw right
            (from_start-Sticks profile settings macros slot i base known at ranged (ground arith))
      | inr wrong ↦ rw wrong (
          from_start-Sticks profile settings macros slot i (replicate 2348 0) known at ranged
            (length-replicate {A = ℕ} 2348 0))
    ]

-- A profile of a mode of the Pro 3, with settings that read, targets that the mode has, macros that
-- the encoder takes and stick percentages in the pad's ranges, compiles into any slot, over a blob
-- of any size, and the slot's sticks read back as they were: the four percentages, the inversions
-- and both swaps.
pub compile_profile-decode_sticks :
    (profile : Profile) (macros : List MacroDefinition) (slot : Slot) (i : ℕ) (base : List ℕ)
    (settings : Settings)
    → IsCompilable profile macros
    → profile.settings ≡ ok settings
    → slot_index slot ≡ ok i
    → IsSticks settings.sticks
    → (out : List ℕ) × (compile_profile profile slot base macros ≡ ok out)
      × (decode_sticks out slot.get true ≡ settings.sticks)
compile_profile-decode_sticks profile macros slot i base settings c known at ranged =
    let (out, run, _) = compile_profile-Works profile slot base macros i c at in
    let place : i + 1 ≡ slot.get = sym (slot_index-inverse slot i at).1 in
    (
      out,
      run,
      subst (λ (k : ℕ). decode_sticks out k true ≡ settings.sticks) place
          (compile_profile-Sticks profile settings macros slot i base known at ranged out run),
    )
