-- ===== src/Orchestrator/Write/Banks.antt =====
-- What the bank holds after a write: the new blob, or the backup.
use b.Shared.{
  inl, inr, Bool-cases, true, if-elim, ℕ, ◌==◌, ◌&&◌, List, length, Bool, not, Option, none, some,
  Error, write, Result, ok, err, ◌≡◌, refl, ◌∙◌,
}
use b.Model.Mode.{Mode}
use b.Model.Slot.{Slot}
use b.Service.Device.{BackupKind, Device, Codec, before_write}
use b.Service.Outcome.{WriteResult}
use b.Service.Rollback.{FailedWrite, attempt_rollback, save_backup, from_error}
use b.Service.Rollback.Laws.{Restores, attempt_rollback-Reported}
use b.Orchestrator.Write.{
  write_bank, backed_up, selected, written, applied, checked_back, read_back_slot, on_read_back,
  is_unvalidated,
}

-- A device with one bank for each mode. A slot select sent inside a write job selects its mode; a
-- full write to the selected mode that is acknowledged puts its blob into that bank; the apply and
-- a read leave the banks alone, and a file that is saved leaves the job open. Of a write without
-- its select, and of a selection after an error, nothing is asked.
pub record Banks {D : Type 0} (dev : Device D) (bank : D → Mode → List ℕ) (held : D → Bool)
    (selection : D → Option Mode) : Type 0 where
  pub selects :
      (mode : Mode) (d d' : D)
      → held d ≡ true
      → dev.send_slot_select mode d ≡ (ok tt, d')
      → selection d' ≡ some mode
  pub write_puts :
      (mode : Mode) (blob : List ℕ) (d d' : D)
      → selection d ≡ some mode
      → dev.write_full_profile mode blob d ≡ (ok tt, d')
      → bank d' mode ≡ blob
  pub apply_keeps : (to mode : Mode) (d : D) → bank (dev.send_apply to d).1 mode ≡ bank d mode
  pub read_keeps : (mode : Mode) (d : D) → bank (dev.read_all_profiles d).1 mode ≡ bank d mode
  pub save_holds :
      (kind : BackupKind) (mode : Mode) (slot : Slot) (blob : List ℕ) (d : D)
      → held (dev.save_new kind mode slot blob d).1 ≡ held d

-- A write that reports success left `blob` in the bank; one that reports a rollback that succeeded
-- ended with an acknowledged full write of `backup` and an acknowledged apply.
abbrev pub Holds :
    {D : Type 0}
    → Device D
    → (D → Mode → List ℕ)
    → Mode
    → List ℕ
    → List ℕ
    → WriteResult × D
    → Type 0
Holds {D = D} dev bank mode backup blob (r, d) =
    (r.success ≡ true → bank d mode ≡ blob)
    × (r.rollback_succeeded ≡ true → (d0 : D) × Restores dev mode backup d0 d)

read_back_slot-keeps :
    {D P M : Type 0} (dev : Device D) (bank : D → Mode → List ℕ) (held : D → Bool)
    (selection : D → Option Mode)
    → Banks dev bank held selection
    → (model : Codec P M) (mode : Mode) (sent : List ℕ) (d : D)
    → bank (read_back_slot dev model mode sent d).1 mode ≡ bank d mode
unfolding read_back_slot
read_back_slot-keeps dev bank held selection law model mode sent d =
    go (dev.read_all_profiles d) (law.read_keeps mode d)
  where
    go :
        (x : Result (List (List ℕ)) × _)
        → bank x.1 mode ≡ bank d mode
        → bank (on_read_back model mode sent x).1 mode ≡ bank d mode
    go (ok blobs, d1) h = h
    go (err e, d1) h = h

module _ {D P M : Type 0} (dev : Device D) (bank : D → Mode → List ℕ) (held : D → Bool)
    (selection : D → Option Mode) (law : Banks dev bank held selection) (model : Codec P M)
    (mode : Mode) (slot : Slot) (backup : List ℕ) (was_active : Bool) (blob : List ℕ) where
  rollback-Holds :
      (failed : FailedWrite) (d : D)
      → Holds dev bank mode backup blob (attempt_rollback dev mode slot backup was_active failed d)
  rollback-Holds failed d =
      let (bad, kind, attempted, back) =
        attempt_rollback-Reported dev mode slot backup was_active failed d in
      (λ e. absurd cc, λ e. (d, (back.0 e).1))

  checked_back-Holds :
      (x : Result (Option Slot) × D)
      → bank x.1 mode ≡ blob
      → Holds dev bank mode backup blob (checked_back dev model mode slot backup was_active x)
  checked_back-Holds (ok none, d) h = (λ e. h, λ e. absurd cc)
  checked_back-Holds (ok (some s), d) h =
      rollback-Holds (record { chunk = none; total_chunks = 0 }) d
  checked_back-Holds (err e, d) h = (λ e. absurd cc, λ e. absurd cc)

  applied-Holds :
      (x : Result (Unit {0}) × D)
      → bank x.1 mode ≡ blob
      → Holds dev bank mode backup blob (applied dev model mode slot backup was_active blob x)
  applied-Holds (err e, d) h = (λ e. absurd cc, λ e. absurd cc)
  applied-Holds (ok u, d) h =
      if-elim (Holds dev bank mode backup blob) model.read_back_writes
        (checked_back-Holds (read_back_slot dev model mode blob d)
          (read_back_slot-keeps dev bank held selection law model mode blob d ∙ h))
        (λ q. h, λ q. absurd cc)

  failed-Holds :
      (e : Error) (d : D)
      → Holds dev bank mode backup blob
          (written dev model mode slot backup was_active blob (err e, d))
  failed-Holds (write chunk total) d = rollback-Holds (from_error (write chunk total)) d
  failed-Holds e d = (λ q. absurd cc, λ q. absurd cc)

  written-Holds :
      (d : D) (x : Result (Unit {0}) × D)
      → selection d ≡ some mode
      → dev.write_full_profile mode blob d ≡ x
      → Holds dev bank mode backup blob (written dev model mode slot backup was_active blob x)
  written-Holds d (ok u, d1) q e =
      applied-Holds (dev.send_apply mode d1)
        (law.apply_keeps mode mode d1 ∙ law.write_puts mode blob d d1 q e)
  written-Holds d (err c, d1) q e = failed-Holds c d1

  selected-Holds :
      (d : D) (x : Result (Unit {0}) × D)
      → held d ≡ true
      → dev.send_slot_select mode d ≡ x
      → Holds dev bank mode backup blob (selected dev model mode slot backup was_active blob x)
  selected-Holds d (err e, d1) h q = (λ e. absurd cc, λ e. absurd cc)
  selected-Holds d (ok u, d1) h q =
      written-Holds d1 (dev.write_full_profile mode blob d1) (law.selects mode d d1 h q) refl

  save_backup-stays :
      (d : D) → held d ≡ true → held (save_backup dev before_write mode slot backup d).1 ≡ true
  save_backup-stays d h =
      unfold save_backup in
      elim (Bool-cases (length backup == 0)) [
        | inl e ↦ rw e h
        | inr e ↦ rw e (law.save_holds before_write mode slot backup d ∙ h)
      ]

  backed_up-Holds :
      (x : Result (List ℕ) × D)
      → held x.1 ≡ true
      → Holds dev bank mode backup blob (backed_up dev model mode slot backup was_active blob x)
  backed_up-Holds (err e, d) h = (λ e. absurd cc, λ e. absurd cc)
  backed_up-Holds (ok path, d) h = selected-Holds d (dev.send_slot_select mode d) h refl

-- In an open write job, on a device whose slot select makes the full write after it count, whose
-- apply and reads leave the banks alone, and which saving a file leaves in the job: a write that
-- reports success left the new blob in the bank, and one that reports a rollback that succeeded
-- ended with an acknowledged full write of the backup and an acknowledged apply. Nothing is claimed
-- of the bank after a rollback.
pub write_bank-Holds :
    {D P M : Type 0} (dev : Device D) (bank : D → Mode → List ℕ) (held : D → Bool)
    (selection : D → Option Mode)
    → Banks dev bank held selection
    → (model : Codec P M) (mode : Mode) (slot : Slot) (backup : List ℕ) (was_active : Bool)
      (blob : List ℕ) (d : D)
    → held d ≡ true
    → Holds dev bank mode backup blob (write_bank dev model mode slot backup was_active blob d)
unfolding write_bank
write_bank-Holds dev bank held selection law model mode slot backup was_active blob d h =
    if-elim (Holds dev bank mode backup blob)
      (is_unvalidated model.description && not (length backup == 0))
      (backed_up-Holds dev bank held selection law model mode slot backup was_active blob
        (save_backup dev before_write mode slot backup d)
        (save_backup-stays dev bank held selection law model mode slot backup was_active blob d h))
      (selected-Holds dev bank held selection law model mode slot backup was_active blob d
        (dev.send_slot_select mode d) h refl)
