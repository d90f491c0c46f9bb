-- ===== src/Orchestrator/Write/Jobs.antt =====
-- A write job that began is ended, and input that does not fit never reaches the device.
use b.Shared.{
  if-elim, ℕ, List, Bool, false, not, Option, none, some, Error, Result, ok, err, ◌≡◌, refl, ap,
  ◌∙◌, ◌>>◌,
}
use b.Model.Mode.{Mode}
use b.Model.Slot.{Slot}
use b.Transport.Commands.Inversion.{and_then-preserved}
use b.Service.Device.{Device, Codec}
use b.Service.Outcome.{WriteResult}
use b.Service.Readback.{bank_of, ConfirmPolicy, ReadbackResult, readback_and_confirm}
use b.Orchestrator.Write.{
  Plan, to_write, nothing, declined, run, check_slot, check_mode, check_model, with_attached,
  checked_input, confirmed_read, planned, began, ended, read_back_checked, keep_readback,
  failure_from, write_bank,
}

-- A device that knows whether a write job is in progress: a job begins only with a `begin_write`
-- that succeeds, `end_write` ends it even if it fails, and reading leaves that as it is.
pub record TracksJobs {D : Type 0} (dev : Device D) (held : D → Bool) : Type 0 where
  pub begin_fails : (d d' : D) (e : Error) → dev.begin_write d ≡ (err e, d') → held d' ≡ held d
  pub end_frees : (back_to : Option Mode) (d : D) → held (dev.end_write back_to d).1 ≡ false
  pub read_keeps : (d : D) → held (dev.read_all_profiles d).1 ≡ held d
  pub attached_keeps : (d : D) → held (dev.attached d).1 ≡ held d

module _ {D P M : Type 0} (dev : Device D) (held : D → Bool) (law : TracksJobs dev held)
    (model : Codec P M) (mode : Mode) (slot : Slot) where
  check_model-held : (d : D) → held (check_model dev model d).1 ≡ held d
  unfolding check_model
  check_model-held d = go (dev.attached d) model.description (law.attached_keeps d)
    where
      go :
          (x : Result _ × D) (own : Result _)
          → held x.1 ≡ held d
          → held (with_attached own x).1 ≡ held d
      go (err e, d1) own h = h
      go (ok a, d1) (ok own) h = h
      go (ok a, d1) (err e) h = h

  ended-held :
      (back_to : Option Mode) (r : WriteResult) (x : Result (Unit {0}) × D)
      → held x.1 ≡ false
      → held (ended back_to r x).1 ≡ false
  ended-held back_to r (ok u, d) h = h
  ended-held none r (err e, d) h = h
  ended-held (some m) r (err e, d) h = h

  began-held :
      (rb : ReadbackResult) (blob : List ℕ) (d : D) (x : Result (Option Mode) × D)
      → dev.begin_write d ≡ x
      → held d ≡ false
      → held (began dev model mode slot rb blob x).1 ≡ false
  began-held rb blob d (err e, d1) q h = law.begin_fails d d1 e q ∙ h
  began-held rb blob d (ok back_to, d1) q h =
      let (r, d2) = write_bank dev model mode slot rb.backup_blob rb.slot_active blob d1 in
      ended-held back_to r (dev.end_write back_to d2) (law.end_frees back_to d2)

  planned-held :
      (rb : ReadbackResult) (plan : Result Plan) (d : D)
      → held d ≡ false
      → held (planned dev model mode slot rb plan d).1 ≡ false
  planned-held rb (ok (to_write blob)) d h = began-held rb blob d (dev.begin_write d) refl h
  planned-held rb (ok (nothing m)) d h = h
  planned-held rb (ok (declined m)) d h = h
  planned-held rb (err e) d h = h

  confirmed_read-held :
      (build : ReadbackResult → Result Plan) (x : Result ReadbackResult × D)
      → held x.1 ≡ false
      → held (confirmed_read dev model mode slot build x).1 ≡ false
  confirmed_read-held build (err e, d) h = h
  confirmed_read-held build (ok rb, d) h =
      if-elim (λ (x : WriteResult × D). held x.1 ≡ false) (not rb.proceed) h
        (planned-held rb (build rb) d h)

  keep_readback-held :
      (rb : ReadbackResult) (x : Result (Unit {0}) × D)
      → held x.1 ≡ false
      → held (keep_readback rb x).1 ≡ false
  keep_readback-held rb (ok u, d) h = h
  keep_readback-held rb (err e, d) h = h

  read_back_checked-held :
      (x : Result ReadbackResult × D)
      → held x.1 ≡ false
      → held (read_back_checked dev model x).1 ≡ false
  read_back_checked-held (err e, d) h = h
  read_back_checked-held (ok rb, d) h =
      keep_readback-held rb (check_model dev model d) (check_model-held d ∙ h)

  readback-held :
      (policy : ConfirmPolicy) (d : D)
      → held d ≡ false
      → held (readback_and_confirm dev model mode slot policy d).1 ≡ false
  unfolding readback_and_confirm
  readback-held policy d h =
      and_then-preserved (λ t. held t ≡ false) (dev.read_all_profiles d) _ (law.read_keeps d ∙ h)
        (λ blobs s g.
          and_then-preserved (λ t. held t ≡ false) (bank_of model blobs mode, s) _ g
            (λ bank s1 k. k))

-- If no job was in progress before, none is afterwards, whatever the device and the build step do;
-- and for a slot or a mode that the model does not have, the device is not called at all.
pub run-held :
    {D P M : Type 0} (dev : Device D) (held : D → Bool)
    → TracksJobs dev held
    → (model : Codec P M) (mode : Mode) (slot : Slot) (policy : ConfirmPolicy)
      (build : ReadbackResult → Result Plan) (d : D)
    → held d ≡ false
    → (held (run dev model mode slot policy build d).1 ≡ false)
      × ((e : Error)
          → (check_slot model slot >> check_mode model mode) ≡ err e
          → run dev model mode slot policy build d ≡ (failure_from mode slot e, d))
unfolding run
run-held dev held law model mode slot policy build d h = (
  go (check_slot model slot >> check_mode model mode),
  λ e q. ap (λ r. checked_input dev model mode slot policy build r d) q,
)
  where
    go :
        (r : Result (Unit {0}))
        → held (checked_input dev model mode slot policy build r d).1 ≡ false
    go (err e) = h
    go (ok u) =
        confirmed_read-held dev held law model mode slot build
          (read_back_checked dev model (readback_and_confirm dev model mode slot policy d))
          (read_back_checked-held dev held law model mode slot
            (readback_and_confirm dev model mode slot policy d)
            (readback-held dev held law model mode slot policy d h))
