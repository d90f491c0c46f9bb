-- ===== src/Service/Readback.antt =====
-- crates/controller-core/src/service/readback.rs: the read before a write, and whether the write may
-- go on.
use b.Shared.{
  ℕ, ◌==◌, List, [], ◌∷◌, length, get_elem?, Bool, true, false, not, if◌then◌else◌, Option, none,
  some, usb, Result, ok, err, suc,
}
use b.Model.Mode.{Mode}
use b.Model.Slot.{Slot}
use b.Model.Mode.{same_mode}
use b.Transport.Commands.{Call, ◌>>=◌, lift}
use b.Service.Device.{Codec, Device}
use b.Service.Outcome.{Sentence, slot_empty, overwriting, use_force, confirmed, aborted}

pub data ConfirmPolicy : Type 0 where
  force abort : ConfirmPolicy
  ask : Bool → ConfirmPolicy

pub record ReadbackResult : Type 0 where
  pub proceed : Bool
  pub backup_blob : List ℕ
  pub slot_active : Bool
  pub message : List Sentence

-- `iter().position(|m| m.id == mode)`
abbrev pub position : List Mode → Mode → Option ℕ
position [] mode = none
position (m ∷ modes) mode =
    if same_mode m mode
    then some 0
    else elim (position modes mode) [ none ↦ none | some i ↦ some (suc i) ]

abbrev pub nth_blob : List (List ℕ) → Option ℕ → Option (List ℕ)
nth_blob blobs none = none
nth_blob blobs (some i) = get_elem? blobs i

-- `read.rs`
unfoldable pub blob_for_mode : {P M : Type 0} → Codec P M → List (List ℕ) → Mode → Option (List ℕ)
blob_for_mode model blobs mode = elim model.description [
  | err e ↦ none
  | ok description ↦ nth_blob blobs (position description.modes mode)
]

abbrev pub sized : ℕ → Option (List ℕ) → Result (List ℕ)
sized size none = err usb
sized size (some blob) = if length blob == size then ok blob else err usb

unfoldable pub bank_of : {P M : Type 0} → Codec P M → List (List ℕ) → Mode → Result (List ℕ)
unfolding blob_for_mode
bank_of model [] mode = err usb
bank_of model (b ∷ blobs) mode = sized model.blob_size (blob_for_mode model (b ∷ blobs) mode)

-- What `policy` says of an occupied slot.
abbrev pub overwrite : ConfirmPolicy → Bool × List Sentence
overwrite force = (true, overwriting ∷ [])
overwrite abort = (false, use_force ∷ [])
overwrite (ask true) = (true, confirmed ∷ [])
overwrite (ask false) = (false, aborted ∷ [])

-- The answer of a policy that asks stands in the policy.
unfoldable pub confirm_slot_losing :
    {P M : Type 0} → Codec P M → List ℕ → Slot → ConfirmPolicy → Result ReadbackResult
confirm_slot_losing model blob slot policy = elim (model.slot_active blob slot) [
  | err e ↦ err e
  | ok active ↦
      let (proceed, message) = if not active then (true, slot_empty ∷ []) else overwrite policy in
      ok (record { proceed = proceed; backup_blob = blob; slot_active = active; message = message })
]

unfoldable pub readback_and_confirm :
    {D P M : Type 0} → Device D → Codec P M → Mode → Slot → ConfirmPolicy → Call D ReadbackResult
unfolding bank_of confirm_slot_losing
readback_and_confirm dev model mode slot policy = do
  blobs ← dev.read_all_profiles
  bank ← lift (bank_of model blobs mode)
  lift (confirm_slot_losing model bank slot policy)
