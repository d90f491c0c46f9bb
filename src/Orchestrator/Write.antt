-- ===== src/Orchestrator/Write.antt =====
-- crates/controller-core/src/orchestrator/write.rs: read back, build, then slot select, write and
-- apply, with a rollback if the write fails or the controller then holds something else.
pub mod Banks
pub mod Jobs
pub mod Success
use b.Shared.{
  ◌>>◌, ℕ, zero, suc, ◌+◌, ◌-◌, ◌==◌, ◌&&◌, ◌||◌, List, [], ◌∷◌, ◌++◌, length, Bool, true, false,
  not, if◌then◌else◌, Option, none, some, Error, write, validation, Result, ok, err, ◌>>=◌,
}
use b.Model.Mode.{Mode}
use b.Model.Slot
use b.Model.Slot.{Slot}
use b.Transport.Commands.{Call}
use b.Service.Device.{Device, Codec, Description, before_write}
use b.Service.Outcome.{
  WriteResult, success_of, failure_of, ErrorCategory, no_error, connection_failure, write_failure,
  category, Sentence, error_text, done, no_backup, select_failed, no_write, apply_failed,
  read_back_differs, read_back_failed, not_returned, already_empty,
}
use b.Service.Readback.{ConfirmPolicy, ReadbackResult, readback_and_confirm, bank_of, position}
use b.Service.Rollback.{FailedWrite, from_error, attempt_rollback, save_backup}

-- A blob to write, or nothing to write, or an operation declined.
pub data Plan : Type 0 where
  to_write : List ℕ → Plan
  nothing declined : List Sentence → Plan

abbrev pub failure_from : Mode → Slot → Error → WriteResult
failure_from mode slot e = failure_of mode slot (category e) (error_text e ∷ [])

unfoldable pub check_slot : {P M : Type 0} → Codec P M → Slot → Result (Unit {0})
check_slot model slot = do
  description ← model.description
  checked ← Slot.check slot description.slot_count
  ok tt

unfoldable pub check_mode : {P M : Type 0} → Codec P M → Mode → Result (Unit {0})
check_mode model mode = do
  description ← model.description
  elim (position description.modes mode) [ none ↦ err validation | some i ↦ ok tt ]

-- `ptr::eq` of the two descriptions
abbrev pub compare_description :
    {D : Type 0} → Result Description → Description × D → Result (Unit {0}) × D
compare_description (err e) (attached, d) = (err e, d)
compare_description (ok own) (attached, d) =
    (if attached.identity == own.identity then ok tt else err validation, d)

abbrev pub with_attached :
    {D : Type 0} → Result Description → Result Description × D → Result (Unit {0}) × D
with_attached own (err e, d) = (err e, d)
with_attached own (ok attached, d) = compare_description own (attached, d)

unfoldable pub check_model : {D P M : Type 0} → Device D → Codec P M → Call D (Unit {0})
check_model dev model d = with_attached model.description (dev.attached d)

-- The closure `decode` of `read_back_slot`: a slot's profile, if it is active, and its macros.
unfoldable pub decode_slot :
    {P M : Type 0} → Codec P M → Mode → List ℕ → Slot → Option (Option P × M)
decode_slot model mode blob slot = elim (model.slot_active blob slot) [
  | err e ↦ none
  | ok false ↦ elim (model.decode_macro_metadata blob slot) [
    | err e ↦ none
    | ok macros ↦ some (none, macros)
  ]
  | ok true ↦ elim (model.map_profile blob slot mode) [
    | err e ↦ none
    | ok profile ↦ elim (model.decode_macro_metadata blob slot) [
      | err e ↦ none
      | ok macros ↦ some (some profile, macros)
    ]
  ]
]

abbrev pub same_decoded : {P M : Type 0} → Codec P M → Option P × M → Option P × M → Bool
same_decoded model (none, ms) (none, ns) = model.same_macros ms ns
same_decoded model (none, ms) (some q, ns) = false
same_decoded model (some p, ms) (none, ns) = false
same_decoded model (some p, ms) (some q, ns) = model.same_profile p q && model.same_macros ms ns

-- `want.is_none() || want != held`
abbrev pub differs :
    {P M : Type 0} → Codec P M → Option (Option P × M) → Option (Option P × M) → Bool
differs model none held = true
differs model (some want) none = true
differs model (some want) (some held) = not (same_decoded model want held)

-- The slots from `n` on, `left` of them; the first that differs.
unfoldable pub first_difference :
    {P M : Type 0} → Codec P M → Mode → List ℕ → List ℕ → ℕ → ℕ → Result (Option Slot)
unfolding decode_slot
first_difference model mode sent held n zero = ok none
first_difference model mode sent held n (suc left) = do
  slot ← Slot.new n
  let rest = first_difference model mode sent held (suc n) left
  if differs model (decode_slot model mode sent slot) (decode_slot model mode held slot)
      then ok (some slot)
      else rest

abbrev pub compare_bank :
    {P M : Type 0} → Codec P M → Mode → List ℕ → List (List ℕ) → Result (Option Slot)
compare_bank model mode sent blobs = do
  held ← bank_of model blobs mode
  description ← model.description
  first_difference model mode sent held 1 description.slot_count

abbrev pub on_read_back :
    {D P M : Type 0}
    → Codec P M
    → Mode
    → List ℕ
    → Result (List (List ℕ)) × D
    → Result (Option Slot) × D
on_read_back model mode sent (err e, d) = (err e, d)
on_read_back model mode sent (ok blobs, d) = (compare_bank model mode sent blobs, d)

unfoldable pub read_back_slot :
    {D P M : Type 0} → Device D → Codec P M → Mode → List ℕ → Call D (Option Slot)
unfolding first_difference
read_back_slot dev model mode sent d = on_read_back model mode sent (dev.read_all_profiles d)

-- `write`, stage by stage: each takes the result of the call before it.
module _ {D P M : Type 0} (dev : Device D) (model : Codec P M) (mode : Mode) (slot : Slot)
    (backup : List ℕ) (was_active : Bool) where
  abbrev pub on_difference : WriteResult × D → WriteResult × D
  on_difference (result, d) = (record result { message = read_back_differs ∷ result.message }, d)

  abbrev pub checked_back : Result (Option Slot) × D → WriteResult × D
  checked_back (ok none, d) = (success_of mode slot (done ∷ []), d)
  checked_back (ok (some differs), d) = on_difference (
      attempt_rollback dev mode slot backup was_active (record { chunk = none; total_chunks = 0 })
        d)
  checked_back (err e, d) =
      (failure_of mode slot write_failure (read_back_failed ∷ error_text e ∷ []), d)

  abbrev pub applied : List ℕ → Result (Unit {0}) × D → WriteResult × D
  applied blob (err e, d) =
      (failure_of mode slot write_failure (apply_failed ∷ error_text e ∷ []), d)
  applied blob (ok u, d) =
      if model.read_back_writes
      then checked_back (read_back_slot dev model mode blob d)
      else (success_of mode slot (done ∷ []), d)

  abbrev pub written : List ℕ → Result (Unit {0}) × D → WriteResult × D
  written blob (ok u, d) = applied blob (dev.send_apply mode d)
  written blob (err (write chunk total), d) =
      attempt_rollback dev mode slot backup was_active (from_error (write chunk total)) d
  written blob (err e, d) = (failure_of mode slot (category e) (no_write ∷ error_text e ∷ []), d)

  abbrev pub selected : List ℕ → Result (Unit {0}) × D → WriteResult × D
  selected blob (err e, d) =
      (failure_of mode slot connection_failure (select_failed ∷ error_text e ∷ []), d)
  selected blob (ok u, d) = written blob (dev.write_full_profile mode blob d)

  abbrev pub backed_up : List ℕ → Result (List ℕ) × D → WriteResult × D
  backed_up blob (err e, d) =
      (failure_of mode slot write_failure (no_backup ∷ error_text e ∷ []), d)
  backed_up blob (ok path, d) = selected blob (dev.send_slot_select mode d)

-- `description().is_ok_and(|d| !d.validated)`
abbrev pub is_unvalidated : Result Description → Bool
is_unvalidated (ok description) = not description.validated
is_unvalidated (err e) = false

unfoldable pub write_bank :
    {D P M : Type 0}
    → Device D
    → Codec P M
    → Mode
    → Slot
    → List ℕ
    → Bool
    → List ℕ
    → D
    → WriteResult × D
write_bank dev model mode slot backup was_active blob d =
    if is_unvalidated model.description && not (length backup == 0)
    then backed_up dev model mode slot backup was_active blob
        (save_backup dev before_write mode slot backup d)
    else selected dev model mode slot backup was_active blob (dev.send_slot_select mode d)

-- The end of `run`, once the job began.
abbrev pub ended :
    {D : Type 0} → Option Mode → WriteResult → Result (Unit {0}) × D → WriteResult × D
ended back_to result (ok u, d) = (result, d)
ended none result (err e, d) = (result, d)
ended (some back_to) result (err e, d) =
    (record result { message = result.message ++ (not_returned ∷ error_text e ∷ []) }, d)

module _ {D P M : Type 0} (dev : Device D) (model : Codec P M) (mode : Mode) (slot : Slot) where
  abbrev pub finish : Option Mode → WriteResult × D → WriteResult × D
  finish back_to (result, d) = ended back_to result (dev.end_write back_to d)

  abbrev pub began : ReadbackResult → List ℕ → Result (Option Mode) × D → WriteResult × D
  began rb blob (err e, d) = (failure_from mode slot e, d)
  began rb blob (ok back_to, d) =
      finish back_to (write_bank dev model mode slot rb.backup_blob rb.slot_active blob d)

  abbrev pub planned : ReadbackResult → Result Plan → D → WriteResult × D
  planned rb (ok (to_write blob)) d = began rb blob (dev.begin_write d)
  planned rb (ok (nothing message)) d = (success_of mode slot message, d)
  planned rb (ok (declined message)) d = (failure_of mode slot no_error message, d)
  planned rb (err e) d = (failure_from mode slot e, d)

  abbrev pub confirmed_read :
      (ReadbackResult → Result Plan) → Result ReadbackResult × D → WriteResult × D
  confirmed_read build (err e, d) = (failure_from mode slot e, d)
  confirmed_read build (ok rb, d) =
      if not rb.proceed
      then (failure_of mode slot no_error rb.message, d)
      else planned rb (build rb) d

abbrev pub keep_readback :
    {D : Type 0} → ReadbackResult → Result (Unit {0}) × D → Result ReadbackResult × D
keep_readback rb (ok u, d) = (ok rb, d)
keep_readback rb (err e, d) = (err e, d)

-- `readback_and_confirm(…).and_then(|rb| self.check_model().map(|()| rb))`
abbrev pub read_back_checked :
    {D P M : Type 0} → Device D → Codec P M → Result ReadbackResult × D → Result ReadbackResult × D
read_back_checked dev model (err e, d) = (err e, d)
read_back_checked dev model (ok rb, d) = keep_readback rb (check_model dev model d)

abbrev pub checked_input :
    {D P M : Type 0}
    → Device D
    → Codec P M
    → Mode
    → Slot
    → ConfirmPolicy
    → (ReadbackResult → Result Plan)
    → Result (Unit {0})
    → D
    → WriteResult × D
checked_input dev model mode slot policy build (err e) d = (failure_from mode slot e, d)
checked_input dev model mode slot policy build (ok u) d =
    confirmed_read dev model mode slot build
      (read_back_checked dev model (readback_and_confirm dev model mode slot policy d))

unfoldable pub run :
    {D P M : Type 0}
    → Device D
    → Codec P M
    → Mode
    → Slot
    → ConfirmPolicy
    → (ReadbackResult → Result Plan)
    → D
    → WriteResult × D
run dev model mode slot policy build =
    checked_input dev model mode slot policy build (check_slot model slot >> check_mode model mode)

abbrev pub deactivation : {P M : Type 0} → Codec P M → Slot → ReadbackResult → Result Plan
deactivation model slot rb =
    if not rb.slot_active
    then ok (nothing (already_empty ∷ []))
    else (model.deactivate_profile rb.backup_blob slot >>= λ blob. ok (to_write blob))

unfoldable pub deactivate_slot :
    {D P M : Type 0} → Device D → Codec P M → Mode → Slot → ConfirmPolicy → D → WriteResult × D
deactivate_slot dev model mode slot policy =
    run dev model mode slot policy (deactivation model slot)
