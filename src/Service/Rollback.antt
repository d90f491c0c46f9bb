-- ===== src/Service/Rollback.antt =====
-- crates/controller-core/src/service/rollback.rs: the backup is written back after a failed write,
-- or else saved to a file.
pub mod Laws
use b.Shared.{
  ℕ, ◌==◌, ◌||◌, List, [], ◌∷◌, length, Bool, true, not, if◌then◌else◌, Option, none, some, Error,
  write, validation, Result, ok, err,
}
use b.Model.Mode.{Mode}
use b.Model.Slot.{Slot}
use b.Transport.Commands.{Call}
use b.Service.Device.{Device, BackupKind, after_failure}
use b.Service.Outcome.{
  WriteResult, failure_of, write_failure, Sentence, stopped_at, was_empty, rollback_done,
  rollback_failed, apply_failed, saved, not_saved,
}

pub record FailedWrite : Type 0 where
  pub chunk : Option ℕ
  pub total_chunks : ℕ

unfoldable pub from_error : Error → FailedWrite
from_error (write failed_chunk total_chunks) = record {
  chunk = failed_chunk;
  total_chunks = total_chunks;
}
from_error _ = record { chunk = none; total_chunks = 0 }

abbrev pub prefix : FailedWrite → Sentence
prefix failed = stopped_at failed.chunk failed.total_chunks

unfoldable pub save_backup :
    {D : Type 0} → Device D → BackupKind → Mode → Slot → List ℕ → Call D (List ℕ)
save_backup dev kind mode slot blob d =
    if length blob == 0 then (err validation, d) else dev.save_new kind mode slot blob d

-- The end of `attempt_rollback`: the restore failed in `stage`.
abbrev pub keep_on_disk :
    {D : Type 0} → WriteResult → Sentence → Sentence → Result (List ℕ) × D → WriteResult × D
keep_on_disk result prefix stage (ok path, d) =
    (record result { message = prefix ∷ stage ∷ saved ∷ []; backup_file_path = some path }, d)
keep_on_disk result prefix stage (err e, d) =
    (record result { message = prefix ∷ stage ∷ not_saved ∷ [] }, d)

abbrev pub after_apply :
    {D : Type 0}
    → Device D
    → Mode
    → Slot
    → List ℕ
    → WriteResult
    → Sentence
    → Result (Unit {0}) × D
    → WriteResult × D
after_apply dev mode slot backup result prefix (ok u, d) =
    (record result { rollback_succeeded = true; message = prefix ∷ rollback_done ∷ [] }, d)
after_apply dev mode slot backup result prefix (err e, d) =
    keep_on_disk result prefix apply_failed (save_backup dev after_failure mode slot backup d)

abbrev pub after_restore :
    {D : Type 0}
    → Device D
    → Mode
    → Slot
    → List ℕ
    → WriteResult
    → Sentence
    → Result (Unit {0}) × D
    → WriteResult × D
after_restore dev mode slot backup result prefix (ok u, d) =
    after_apply dev mode slot backup result prefix (dev.send_apply mode d)
after_restore dev mode slot backup result prefix (err e, d) =
    keep_on_disk result prefix rollback_failed (save_backup dev after_failure mode slot backup d)

unfoldable pub attempt_rollback :
    {D : Type 0} → Device D → Mode → Slot → List ℕ → Bool → FailedWrite → D → WriteResult × D
attempt_rollback dev mode slot backup slot_was_active failed d =
    let result = failure_of mode slot write_failure (prefix failed ∷ []) in
    if not slot_was_active || length backup == 0
    then (record result { message = prefix failed ∷ was_empty ∷ [] }, d)
    else after_restore dev mode slot backup (record result { rollback_attempted = true })
        (prefix failed) (dev.write_full_profile mode backup d)
