-- ===== src/Orchestrator/Tests.antt =====
-- A write job and a rollback on a device with one bank: crates/controller-core/src/orchestrator and
-- crates/controller-core/src/service.
use b.Shared.{
  none, Option, ◌∙◌, ℕ, List, [], ◌∷◌, Bool, true, false, some, Error, Result, ok, err, ◌≡◌, refl,
  ap, sym, ◌>>◌,
}
use b.Model.Mode.{Mode}
use b.Model.Slot
use b.Model.Slot.{Slot}
use b.Protocol.WireWrite.{same_bytes}
use b.Transport.Commands.Inversion.{failed_apart}
use b.Service.Device.{Device, Codec, Description}
use b.Service.Readback.{readback_and_confirm, force, ReadbackResult}
use b.Service.Rollback.{save_backup, attempt_rollback}
use b.Service.Rollback.Laws.{Reported, attempt_rollback-Reported}
use b.Orchestrator.Write.{
  decode_slot, first_difference, check_model, read_back_slot, write_bank, run, Plan, to_write,
  check_slot, check_mode, failure_from,
}
use b.Orchestrator.Write.Banks.{Banks, Holds, write_bank-Holds}
use b.Orchestrator.Write.Success.{JobBanks, Achieved, run-Achieved}
use b.Orchestrator.Write.Jobs.{TracksJobs, run-held}

abbrev a_mode : Mode
a_mode = record { id = 0 ∷ []; len = 1 }

abbrev a_slot : Slot
a_slot = record { get = 1 }

abbrev description : Description
description = record { identity = 0; modes = a_mode ∷ []; slot_count = 3; validated = false }

-- The bank, whether a write job is in progress, and the mode that is selected in it.
abbrev State : Type 0
State = List ℕ × Bool × Option Mode

abbrev if_selected : Option Mode → List ℕ → List ℕ → List ℕ
if_selected none blob old = old
if_selected (some mode) blob old = blob

abbrev device : Device State
device = record {
  attached = λ d. (ok description, d);
  read_all_profiles = λ d. (ok (d.0 ∷ []), d);
  begin_write = λ d. (ok (some a_mode), (d.0, true, none));
  end_write = λ back_to d. (ok tt, (d.0, false, none));
  send_slot_select = λ mode d. (ok tt, (d.0, d.1, some mode));
  write_full_profile = λ mode blob d. (ok tt, (if_selected d.2 blob d.0, d.1, d.2));
  send_apply = λ mode d. (ok tt, d);
  save_new = λ kind mode slot blob d. (ok [], d);
}

abbrev codec : Codec (List ℕ) (List ℕ)
codec = record {
  description = ok description;
  blob_size = 2;
  read_back_writes = true;
  slot_active = λ blob slot. ok true;
  map_profile = λ blob slot mode. ok blob;
  decode_macro_metadata = λ blob slot. ok [];
  deactivate_profile = λ blob slot. ok (0 ∷ 0 ∷ []);
  same_profile = λ p q. true;
  same_macros = λ p q. true;
}

abbrev bank : State → Mode → List ℕ
bank d mode = d.0

abbrev held : State → Bool
held d = d.1

abbrev selection : State → Option Mode
selection d = d.2

device-Banks : Banks device bank held selection
device-Banks = record {
  selects = λ mode d d' h e. ap (λ t. t.1.2) (sym e);
  write_puts = λ mode blob d d' q e. ap (λ t. t.1.0) (sym e) ∙ ap (λ o. if_selected o blob d.0) q;
  apply_keeps = λ to mode d. refl;
  read_keeps = λ mode d. refl;
  save_holds = λ kind mode slot blob d. refl;
}

device-TracksJobs : TracksJobs device held
device-TracksJobs = record {
  begin_fails = λ d d' e q. failed_apart _ q refl;
  end_frees = λ back_to d. refl;
  read_keeps = λ d. refl;
  attached_keeps = λ d. refl;
}

attempt_rollback-Reported_example :
    Reported device a_mode
      (1 ∷ 2 ∷ [])
      true
      (9 ∷ 9 ∷ [], true, none)
      (attempt_rollback device a_mode a_slot
        (1 ∷ 2 ∷ [])
        true
        (record { chunk = some 3; total_chunks = 53 })
        (9 ∷ 9 ∷ [], true, none))
attempt_rollback-Reported_example =
    attempt_rollback-Reported device a_mode a_slot (1 ∷ 2 ∷ []) true
      (record { chunk = some 3; total_chunks = 53 }) (9 ∷ 9 ∷ [], true, none)

write_bank-Holds_example :
    Holds device bank a_mode (1 ∷ 2 ∷ []) (3 ∷ 4 ∷ []) (
      write_bank device codec a_mode a_slot (1 ∷ 2 ∷ []) true (3 ∷ 4 ∷ []) (1 ∷ 2 ∷ [], true, none))
write_bank-Holds_example =
    write_bank-Holds device bank held selection device-Banks codec a_mode a_slot (1 ∷ 2 ∷ []) true
      (3 ∷ 4 ∷ []) (1 ∷ 2 ∷ [], true, none) refl

abbrev build : ReadbackResult → Result Plan
build rb = ok (to_write (3 ∷ 4 ∷ []))

run-held_example :
    (held (run device codec a_mode a_slot force build (1 ∷ 2 ∷ [], false, none)).1 ≡ false)
    × ((e : Error)
        → (check_slot codec a_slot >> check_mode codec a_mode) ≡ err e
        → run device codec a_mode a_slot force build (1 ∷ 2 ∷ [], false, none)
          ≡ (failure_from a_mode a_slot e, (1 ∷ 2 ∷ [], false, none)))
run-held_example =
    run-held device held device-TracksJobs codec a_mode a_slot force build (1 ∷ 2 ∷ [], false, none)
      refl

device-JobBanks : JobBanks device bank held selection
device-JobBanks = record {
  banks = device-Banks;
  begins = λ back_to d d' e. ap (λ t. t.1.1) (sym e);
  end_keeps = λ back_to mode d. refl;
}

run_succeeds :
    (run device codec a_mode a_slot force build (1 ∷ 2 ∷ [], false, none)).0.success ≡ true
unfolding run write_bank read_back_slot readback_and_confirm check_slot check_mode check_model
    save_backup first_difference decode_slot Slot.check Slot.new same_bytes
run_succeeds = refl

run-Achieved_example :
    Achieved device bank codec a_mode a_slot force build
      (1 ∷ 2 ∷ [], false, none)
      (run device codec a_mode a_slot force build (1 ∷ 2 ∷ [], false, none)).1
run-Achieved_example =
    run-Achieved device bank held selection device-JobBanks codec a_mode a_slot force build
      (1 ∷ 2 ∷ [], false, none) run_succeeds
