-- ===== src/Orchestrator/Write/Success.antt =====
-- What a write job that reports success left on the controller.
use b.Shared.{
  false, if◌then◌else◌, ℕ, List, Bool, true, not, Option, none, some, Result, ok, err, ◌≡◌, refl,
  ◌∙◌, ◌>>◌, ◌⊎◌, inl, inr,
}
use b.Model.Mode.{Mode}
use b.Model.Slot.{Slot}
use b.Service.Device.{Device, Codec}
use b.Service.Outcome.{WriteResult, Sentence}
use b.Service.Readback.{ConfirmPolicy, ReadbackResult, readback_and_confirm}
use b.Orchestrator.Write.{
  Plan, to_write, nothing, declined, run, check_slot, check_mode, checked_input, confirmed_read,
  planned, began, ended, read_back_checked, write_bank,
}
use b.Orchestrator.Write.Banks.{Banks, write_bank-Holds}

-- A device with banks on which `begin_write` opens the write job and `end_write` leaves the banks
-- alone.
pub record JobBanks {D : Type 0} (dev : Device D) (bank : D → Mode → List ℕ) (held : D → Bool)
    (selection : D → Option Mode) : Type 0 where
  pub banks : Banks dev bank held selection
  pub begins :
      (back_to : Option Mode) (d d' : D) → dev.begin_write d ≡ (ok back_to, d') → held d' ≡ true
  pub end_keeps :
      (back_to : Option Mode) (mode : Mode) (d : D)
      → bank (dev.end_write back_to d).1 mode ≡ bank d mode

-- The bank was read and the write confirmed; then there was nothing to write, or the bank holds what
-- `build` made of the read.
abbrev pub Achieved :
    {D P M : Type 0}
    → Device D
    → (D → Mode → List ℕ)
    → Codec P M
    → Mode
    → Slot
    → ConfirmPolicy
    → (ReadbackResult → Result Plan)
    → D
    → D
    → Type 0
Achieved {D = D} dev bank model mode slot policy build d d' =
    (rb : ReadbackResult) × ((d1 : D) × (read_back_checked dev model
          (readback_and_confirm dev model mode slot policy d)
        ≡ (ok rb, d1)))
    × (rb.proceed ≡ true)
    × (((message : List Sentence) × (build rb ≡ ok (nothing message)))
        ⊎ ((blob : List ℕ) × (build rb ≡ ok (to_write blob)) × (bank d' mode ≡ blob)))

module _ {D P M : Type 0} (dev : Device D) (bank : D → Mode → List ℕ) (held : D → Bool)
    (selection : D → Option Mode) (law : JobBanks dev bank held selection) (model : Codec P M)
    (mode : Mode) (slot : Slot) where
  abbrev Wrote : List ℕ → WriteResult × D → Type 0
  Wrote blob (r, d) = r.success ≡ true → bank d mode ≡ blob

  ended-Wrote :
      (blob : List ℕ) (back_to : Option Mode) (r : WriteResult) (x : Result (Unit {0}) × D)
      → Wrote blob (r, x.1)
      → Wrote blob (ended back_to r x)
  ended-Wrote blob back_to r (ok u, d) h = h
  ended-Wrote blob none r (err e, d) h = h
  ended-Wrote blob (some m) r (err e, d) h = h

  began-Wrote :
      (rb : ReadbackResult) (blob : List ℕ) (d : D) (x : Result (Option Mode) × D)
      → dev.begin_write d ≡ x
      → Wrote blob (began dev model mode slot rb blob x)
  began-Wrote rb blob d (err e, d1) q = λ h. absurd cc
  began-Wrote rb blob d (ok back_to, d1) q =
      let after : WriteResult × D =
        write_bank dev model mode slot rb.backup_blob rb.slot_active blob d1 in
      let wrote =
        (write_bank-Holds dev bank held selection law.banks model mode slot rb.backup_blob
          rb.slot_active blob d1 (law.begins back_to d d1 q)).0 in
      ended-Wrote blob back_to after.0 (dev.end_write back_to after.1)
        (λ h. law.end_keeps back_to mode after.1 ∙ wrote h)

  module _ (policy : ConfirmPolicy) (build : ReadbackResult → Result Plan) (d : D) where
    abbrev Succeeds : WriteResult × D → Type 0
    Succeeds (r, d') = r.success ≡ true → Achieved dev bank model mode slot policy build d d'

    planned-Succeeds :
        (rb : ReadbackResult) (d1 : D) (plan : Result Plan)
        → read_back_checked dev model (readback_and_confirm dev model mode slot policy d)
          ≡ (ok rb, d1)
        → rb.proceed ≡ true
        → build rb ≡ plan
        → Succeeds (planned dev model mode slot rb plan d1)
    planned-Succeeds rb d1 (ok (to_write blob)) read go built = λ h.
        (rb, (d1, read), go, inr (blob, built, began-Wrote rb blob d1 (dev.begin_write d1) refl h))
    planned-Succeeds rb d1 (ok (nothing message)) read go built =
        λ h. (rb, (d1, read), go, inl (message, built))
    planned-Succeeds rb d1 (ok (declined message)) read go built = λ h. absurd cc
    planned-Succeeds rb d1 (err e) read go built = λ h. absurd cc

    when_confirmed :
        (proceed : Bool) (x y : WriteResult × D)
        → Succeeds x
        → (proceed ≡ true → Succeeds y)
        → Succeeds (if not proceed then x else y)
    when_confirmed true x y h k = k refl
    when_confirmed false x y h k = h

    confirmed_read-Succeeds :
        (x : Result ReadbackResult × D)
        → read_back_checked dev model (readback_and_confirm dev model mode slot policy d) ≡ x
        → Succeeds (confirmed_read dev model mode slot build x)
    confirmed_read-Succeeds (err e, d1) read = λ h. absurd cc
    confirmed_read-Succeeds (ok rb, d1) read =
        when_confirmed rb.proceed _ _ (λ h. absurd cc)
          (λ go. planned-Succeeds rb d1 (build rb) read go refl)

    checked_input-Succeeds :
        (x : Result (Unit {0})) → Succeeds (checked_input dev model mode slot policy build x d)
    checked_input-Succeeds (err e) = λ h. absurd cc
    checked_input-Succeeds (ok u) = confirmed_read-Succeeds _ refl

-- On a device that `begin_write` puts into a write job, whose slot select in a job makes the full
-- write after it count, whose apply, reads and `end_write` leave the banks alone, and which saving a
-- file leaves in the job: a write job that reports success read the bank and had the write
-- confirmed; and then either there was nothing to write, or the bank now holds the blob that was
-- built from that read.
pub run-Achieved :
    {D P M : Type 0} (dev : Device D) (bank : D → Mode → List ℕ) (held : D → Bool)
    (selection : D → Option Mode)
    → JobBanks dev bank held selection
    → (model : Codec P M) (mode : Mode) (slot : Slot) (policy : ConfirmPolicy)
      (build : ReadbackResult → Result Plan) (d : D)
    → (run dev model mode slot policy build d).0.success ≡ true
    → Achieved dev bank model mode slot policy build d (run dev model mode slot policy build d).1
unfolding run
run-Achieved dev bank held selection law model mode slot policy build d h =
    checked_input-Succeeds dev bank held selection law model mode slot policy build d
      (check_slot model slot >> check_mode model mode) h
