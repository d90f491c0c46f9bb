-- ===== src/Devices/Pro3/Edit/Sequence.antt =====
-- crates/controller-core/src/devices/pro3/edit.rs: the edits as commands, and sequences of them.
use Prim.Native.String.{String}
use text.Mathlib.Text.{◌==◌ as str_eq}
use b.Devices.Pro3.{slot_index}
use b.Devices.Pro3.Blob.{Profile, compile_profile}
use b.Devices.Pro3.Blob.Complete.{
  Works, Step, Works->>=, Works-value, put_slice-Works, seal_crc-Works, IsCompilable,
  compile_profile-Works,
}
use b.Devices.Pro3.Blob.Readers.{slot_index-inverse}
use b.Devices.Pro3.Blob.Sealed.{IsSealed}
use b.Devices.Pro3.Edit.{
  compile_profile_keep_macros, drop_macros, drop_from, set_macro, deactivate_profile, descriptor_of,
  descriptor_region_offset,
}
use b.Devices.Pro3.Edit.Checksums.{
  compile_profile-IsSealed, compile_keep-IsSealed, set_macro-IsSealed, drop_macros-IsSealed,
  deactivate_profile-IsSealed,
}
use b.Devices.Pro3.Macros.{trigger_bits_from, trigger_key_map}
use b.Devices.Pro3.Macros.Descriptor.{IsEncodable, encoded_descriptor}
use b.Devices.Pro3.Profile.{any}
use b.Devices.Pro3.Tables.Buttons.{triggers}
use b.Model.MacroSlot.{MacroSlot}
use b.Model.Macros.{MacroDefinition}
use b.Model.Slot.{Slot}
use b.Protocol.Bytes.{read_u32_le, put_u32_le, to_le_bytes_u32}
use b.Protocol.Bytes.Fields.{slice-ok, take_bytes-ok}
use b.Devices.Pro3.Edit.{check_size}
use b.Devices.Pro3.Blob.{seal_crc}
use b.Protocol.Bytes.{put_slice}
use b.Shared.{
  Gives, bit_or, ℕ, zero, suc, ◌+◌, ◌*◌, ◌≤◌, ◌<◌, ◌≡◌, ◌==◌, refl, inl, inr, List, [], ◌∷◌, length,
  replicate, length-take, length-drop, take, drop, filter, find, Option, none, some, Result, ok,
  ◌>>=◌, Bool, true, Bool-cases, All, arith,
}

-- The writes of a blob that the orchestrators make, into one slot.
pub data Edit : Type 0 where
  compiled : Profile → List MacroDefinition → Edit
  compiled_keeping : Profile → Edit
  macro_set : MacroSlot → MacroDefinition → Edit
  macro_deleted : MacroSlot → Edit
  macros_dropped : List String → Edit
  deactivated : Edit

unfoldable pub apply : Edit → Slot → List ℕ → Result (List ℕ)
apply (compiled profile macros) slot blob = compile_profile profile slot blob macros
apply (compiled_keeping profile) slot blob = compile_profile_keep_macros profile slot blob
apply (macro_set at def) slot blob = set_macro blob slot at (some def)
apply (macro_deleted at) slot blob = set_macro blob slot at none
apply (macros_dropped buttons) slot blob = drop_macros blob slot buttons
apply deactivated slot blob = deactivate_profile blob slot

-- What an edit needs of its arguments.
abbrev InRange : Edit → Type 0
InRange (compiled profile macros) = IsCompilable profile macros
InRange (compiled_keeping profile) = IsCompilable profile []
InRange (macro_set at def) = (mode : ℕ) × (key_map : ℕ) × IsEncodable def at mode key_map
InRange (macro_deleted at) = at.get ≤ 3
InRange (macros_dropped buttons) = Unit
InRange deactivated = Unit

any→find {ℓ} :
    {A : Type ℓ} (p : A → Bool) (xs : List A) → any p xs ≡ true → (x : A) × (find p xs ≡ some x)
unfolding any
any→find p [] h = absurd (ground arith)
any→find p (x ∷ xs) h = elim (Bool-cases (p x)) [
  | inl here ↦ (x, rw here refl)
  | inr there ↦ rw there (any→find p xs (ground arith))
]

-- The names that are kept all have bits.
known_names :
    (bits : ℕ) (names : List String)
    → (more : ℕ) × (trigger_bits_from bits (filter (λ b. any (λ t. str_eq t.name b) triggers) names)
        ≡ ok more)
unfolding trigger_bits_from
known_names bits [] = (bits, refl)
known_names bits (name ∷ names) = elim (Bool-cases (any (λ t. str_eq t.name name) triggers)) [
  | inl known ↦
      let (t, found) = any→find (λ t. str_eq t.name name) triggers known in
      rw (known, found) (known_names (bit_or bits t.key_map) names)
  | inr unknown ↦ rw unknown (known_names bits names)
]

drop_from-Works :
    (left index base dropped : ℕ)
    → index + left ≡ 4
    → base + 208 ≤ 2348
    → Step (drop_from left index base dropped)
unfolding drop_from put_u32_le read_u32_le
drop_from-Works zero index base dropped e h buf size = (buf, refl, size)
drop_from-Works (suc left) index base dropped e h buf size =
    rw (slice-ok 4 buf (base + index * 52 + 40) (omega arith) (omega arith)) (
      Works->>= _ _
        (put_slice-Works (base + index * 52 + 40) (to_le_bytes_u32 _) (omega arith) buf size)
        (drop_from-Works left (index + 1) base dropped (omega arith) h))

region_at :
    (slot : Slot) (i : ℕ)
    → slot_index slot ≡ ok i
    → descriptor_region_offset slot ≡ ok (0x68C + i * 216 + 8)
unfolding descriptor_region_offset
region_at slot i at = rw at refl

-- An edit that checks the size, then takes values, works when the rest does.
sized-Works :
    (blob : List ℕ) (f : Unit {0} → Result (List ℕ))
    → length blob ≡ 2348
    → Works (f tt)
    → Works (check_size blob >>= f)
sized-Works blob f size h = Works-value (check_size blob) tt f (ground arith) h

module _ (slot : Slot) (i : ℕ) (at : slot_index slot ≡ ok i) (blob : List ℕ)
    (size : length blob ≡ 2348) where
  below : i < 3
  below = (slot_index-inverse slot i at).0

  deactivate_profile-Works : Works (deactivate_profile blob slot)
  unfolding deactivate_profile
  deactivate_profile-Works =
      let sealing = λ (index : ℕ). put_slice blob (index * 4) (replicate 4 0) >>= seal_crc in
      sized-Works blob (λ _. slot_index slot >>= sealing) size
        (Works-value (slot_index slot) i sealing at (
          Works->>= _ _ (put_slice-Works (i * 4) (replicate 4 0) (omega (arith, below)) blob size)
            seal_crc-Works))

  drop_macros-Works : (buttons : List String) → Works (drop_macros blob slot buttons)
  unfolding drop_macros trigger_key_map
  drop_macros-Works buttons =
      let (dropped, named) = known_names 0 buttons in
      let checked : check_size blob ≡ ok tt = ground arith in
      rw (checked, named, region_at slot i at)
        (Works->>= _ _
          (drop_from-Works 4 0 (0x68C + i * 216 + 8) dropped refl (omega (arith, below)) blob size)
          seal_crc-Works)

  set_macro-Works :
      (macro_slot : MacroSlot) (def : Option MacroDefinition) (d : List ℕ)
      → macro_slot.get ≤ 3
      → descriptor_of def macro_slot ≡ ok d
      → length d ≡ 52
      → Works (set_macro blob slot macro_slot def)
  unfolding set_macro
  set_macro-Works macro_slot def d h made sized =
      let checked : check_size blob ≡ ok tt = ground arith in
      rw (checked, made, region_at slot i at)
        (Works->>= _ _
          (put_slice-Works (0x68C + i * 216 + 8 + macro_slot.get * 52) d
            (omega (arith, below, sized)) blob size)
          seal_crc-Works)

  keep_macros-Works :
      (profile : Profile)
      → IsCompilable profile []
      → Works (compile_profile_keep_macros profile slot blob)
  unfolding compile_profile_keep_macros
  keep_macros-Works profile c =
      let right : (length blob == 2348) ≡ true = ground arith in
      let region : ℕ = 0x68C + i * 216 + 8 in
      Works->>= _ _ (compile_profile-Works profile slot blob [] i c at) (λ out sized.
        rw
          (
            right,
            region_at slot i at,
            take_bytes-ok blob region 208 (omega arith) (omega (arith, below)),
          )
          (Works->>= _ _
            (put_slice-Works region (take 208 (drop region blob))
              (omega (arith, below, length-take 208 (drop region blob), length-drop region blob))
              out sized)
            seal_crc-Works))

  apply-Works : (edit : Edit) → InRange edit → Works (apply edit slot blob)
  unfolding apply
  apply-Works (compiled profile macros) c = compile_profile-Works profile slot blob macros i c at
  apply-Works (compiled_keeping profile) c = keep_macros-Works profile c
  apply-Works (macro_set m def) (mode, key_map, h) =
      let (d, made, sized, _) = encoded_descriptor def m mode key_map h in
      set_macro-Works m (some def) d h.slot_known made sized
  apply-Works (macro_deleted m) h = set_macro-Works m none (replicate 52 0) h refl refl
  apply-Works (macros_dropped buttons) h = drop_macros-Works buttons
  apply-Works deactivated h = deactivate_profile-Works

apply-Gives : (edit : Edit) (slot : Slot) (blob : List ℕ) → Gives IsSealed (apply edit slot blob)
unfolding apply
apply-Gives (compiled profile macros) slot blob = compile_profile-IsSealed profile slot blob macros
apply-Gives (compiled_keeping profile) slot blob = compile_keep-IsSealed profile slot blob
apply-Gives (macro_set m def) slot blob = set_macro-IsSealed blob slot m (some def)
apply-Gives (macro_deleted m) slot blob = set_macro-IsSealed blob slot m none
apply-Gives (macros_dropped buttons) slot blob = drop_macros-IsSealed blob slot buttons
apply-Gives deactivated slot blob = deactivate_profile-IsSealed blob slot

-- Edits one after the other, each of its own slot.
unfoldable pub apply_all : List (Edit × Slot) → List ℕ → Result (List ℕ)
apply_all [] blob = ok blob
apply_all ((edit, slot) ∷ edits) blob = do blob ← apply edit slot blob; apply_all edits blob

-- The edit is in range, and its slot is one of the three.
abbrev IsEdit : Edit × Slot → Type 0
IsEdit (edit, slot) = InRange edit × ((i : ℕ) × (slot_index slot ≡ ok i))

-- A sequence of edits in range succeeds on a blob of 2348 bytes whose checksum is right, and gives
-- such a blob again: compiling a profile with or without its macros, setting and deleting a macro,
-- taking buttons off macros, and deactivating a slot.
pub apply_all-IsSealed :
    (edits : List (Edit × Slot)) (blob : List ℕ)
    → All IsEdit edits
    → IsSealed blob
    → (out : List ℕ) × (apply_all edits blob ≡ ok out) × IsSealed out
unfolding apply_all
apply_all-IsSealed [] blob h sealed = (blob, refl, sealed)
apply_all-IsSealed ((edit, slot) ∷ edits) blob h sealed =
    let (inside, (i, at)) = h.0 in
    let (mid, run, size) = apply-Works slot i at blob sealed.0 edit inside in
    rw run (apply_all-IsSealed edits mid h.1 (apply-Gives edit slot blob mid run))
