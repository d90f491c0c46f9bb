-- ===== src/Service/Outcome.antt =====
-- crates/controller-core/src/error.rs and model/outcome.rs: error categories and the outcome of a
-- write. A message is the list of its sentences.
use b.Shared.{
  ℕ, List, Bool, true, false, Option, none, Error, no_device, unsupported_model, permission_denied,
  usb, timeout, disconnected, decode, validation, invalid, io, write,
}
use b.Model.Mode.{Mode}
use b.Model.Slot.{Slot}

pub data ErrorCategory : Type 0 where
  no_error connection_failure timed_out export_failure validation_failure write_failure :
      ErrorCategory

unfoldable pub exit_code : ErrorCategory → ℕ
exit_code no_error = 0
exit_code connection_failure = 1
exit_code timed_out = 3
exit_code export_failure = 5
exit_code validation_failure = 4
exit_code write_failure = 6

unfoldable pub category : Error → ErrorCategory
category no_device = connection_failure
category (unsupported_model id) = connection_failure
category permission_denied = connection_failure
category usb = connection_failure
category timeout = timed_out
category disconnected = timed_out
category decode = validation_failure
category validation = validation_failure
category invalid = validation_failure
category io = export_failure
category (write chunk total) = write_failure

-- The sentences that the messages are put together from.
pub data Sentence : Type 0 where
  error_text : Error → Sentence
  stopped_at : Option ℕ → ℕ → Sentence
  done was_empty rollback_done rollback_failed apply_failed saved not_saved : Sentence
  no_backup select_failed no_write read_back_differs read_back_failed not_returned : Sentence
  slot_empty overwriting use_force confirmed aborted already_empty : Sentence

pub record WriteResult : Type 0 where
  pub success : Bool
  pub message : List Sentence
  pub error_category : ErrorCategory
  pub mode : Mode
  pub slot : ℕ
  pub rollback_attempted : Bool
  pub rollback_succeeded : Bool
  pub backup_file_path : Option (List ℕ)

abbrev pub success_of : Mode → Slot → List Sentence → WriteResult
success_of m s message = record {
  success = true;
  message = message;
  error_category = no_error;
  mode = m;
  slot = s.get;
  rollback_attempted = false;
  rollback_succeeded = false;
  backup_file_path = none;
}

abbrev pub failure_of : Mode → Slot → ErrorCategory → List Sentence → WriteResult
failure_of m s error_category message = record {
  success = false;
  message = message;
  error_category = error_category;
  mode = m;
  slot = s.get;
  rollback_attempted = false;
  rollback_succeeded = false;
  backup_file_path = none;
}
