-- ===== src/Service/Rollback/Laws.antt =====
-- What a rollback reports, and what it did to the controller.
use b.Shared.{
  ℕ, ◌==◌, ◌&&◌, List, [], ◌∷◌, length, Bool, true, false, not, Result, ok, err, ◌≡◌, refl, ◌∙◌,
  inl, inr, Bool-cases, ◌↔◌, sym, ap,
}
use b.Model.Mode.{Mode}
use b.Model.Slot.{Slot}
use b.Service.Device.{Device, after_failure}
use b.Service.Outcome.{WriteResult, failure_of, write_failure, Sentence}
use b.Service.Rollback.{
  FailedWrite, attempt_rollback, after_restore, after_apply, keep_on_disk, save_backup, prefix,
}
use b.Transport.Commands.Inversion.{failed_apart}

-- The two calls that restore a backup, both acknowledged: a full write of it, then an apply.
abbrev pub Restores : {D : Type 0} → Device D → Mode → List ℕ → D → D → Type 0
Restores {D = D} dev mode backup d d' =
    (d1 : D) × (dev.write_full_profile mode backup d ≡ (ok tt, d1))
    × (dev.send_apply mode d1 ≡ (ok tt, d'))

-- The report of a rollback on `d`: it is a failed write, and it calls the rollback a success
-- exactly when one was attempted and both of its calls were acknowledged.
abbrev pub Reported : {D : Type 0} → Device D → Mode → List ℕ → Bool → D → WriteResult × D → Type 0
Reported dev mode backup attempted d (r, d') =
    (r.success ≡ false)
    × (r.error_category ≡ write_failure)
    × (r.rollback_attempted ≡ attempted)
    × ((r.rollback_succeeded ≡ true) ↔ ((attempted ≡ true) × Restores dev mode backup d d'))

abbrev tried : Mode → Slot → List Sentence → WriteResult
tried mode slot message = record (failure_of mode slot write_failure message) {
  rollback_attempted = true;
}

pair_world : {S A : Type 0} {a b : A} {s s' : S} (r : A × S) → r ≡ (a, s) → r ≡ (b, s') → s ≡ s'
pair_world r e f = ap (λ t. t.1) (sym e ∙ f)

module _ {D : Type 0} (dev : Device D) (mode : Mode) (slot : Slot) (backup : List ℕ)
    (message : List Sentence) (p : Sentence) (d : D) where
  keep_on_disk-Reported :
      (stage : Sentence) (x : Result (List ℕ) × D)
      → ((d' : D) → ¬ Restores dev mode backup d d')
      → Reported dev mode backup true d (keep_on_disk (tried mode slot message) p stage x)
  keep_on_disk-Reported stage (ok path, d') unrestored =
      (refl, refl, refl, (λ e. absurd cc, λ e. absurd (unrestored d' e.1)))
  keep_on_disk-Reported stage (err e, d') unrestored =
      (refl, refl, refl, (λ e. absurd cc, λ e. absurd (unrestored d' e.1)))

  after_apply-Reported :
      (d1 : D) (x : Result (Unit {0}) × D)
      → dev.write_full_profile mode backup d ≡ (ok tt, d1)
      → dev.send_apply mode d1 ≡ x
      → Reported dev mode backup true d
          (after_apply dev mode slot backup (tried mode slot message) p x)
  after_apply-Reported d1 (ok u, d2) e f = (refl, refl, refl, (λ q. (refl, (d1, e, f)), λ q. refl))
  after_apply-Reported d1 (err c, d2) e f =
      keep_on_disk-Reported _ (save_backup dev after_failure mode slot backup d2) (λ d' (d3, w, a).
        let same : d1 ≡ d3 = pair_world _ e w in
        failed_apart _ f (ap (dev.send_apply mode) same ∙ a))

  after_restore-Reported :
      (x : Result (Unit {0}) × D)
      → dev.write_full_profile mode backup d ≡ x
      → Reported dev mode backup true d
          (after_restore dev mode slot backup (tried mode slot message) p x)
  after_restore-Reported (ok u, d1) e = after_apply-Reported d1 (dev.send_apply mode d1) e refl
  after_restore-Reported (err c, d1) e =
      keep_on_disk-Reported _ (save_backup dev after_failure mode slot backup d1)
        (λ d' (d3, w, a). failed_apart _ e w)

-- A rollback reports a failed write in every case; it is attempted exactly when the slot held a
-- profile and there is a backup; and it reports success exactly when it was attempted and the
-- device acknowledged the full write of the backup and, after it, the apply.
pub attempt_rollback-Reported :
    {D : Type 0} (dev : Device D) (mode : Mode) (slot : Slot) (backup : List ℕ) (was_active : Bool)
    (failed : FailedWrite) (d : D)
    → Reported dev mode backup
        (was_active && not (length backup == 0))
        d
        (attempt_rollback dev mode slot backup was_active failed d)
unfolding attempt_rollback
attempt_rollback-Reported dev mode slot backup false failed d =
    (refl, refl, refl, (λ e. absurd cc, λ e. absurd cc))
attempt_rollback-Reported dev mode slot backup true failed d =
    elim (Bool-cases (length backup == 0)) [
      | inl e ↦ rw e (refl, refl, refl, (λ q. absurd cc, λ q. absurd cc))
      | inr e ↦ rw e (
          after_restore-Reported dev mode slot backup (prefix failed ∷ []) (prefix failed) d
            (dev.write_full_profile mode backup d) refl)
    ]
