-- ===== src/Transport/HidrawWrite/Failures.antt =====
-- What a profile write that fails reports.
use b.Shared.{
  ap₂, take, min, inl, inr, ◌⊎◌, ℕ, zero, suc, ◌+◌, ◌-◌, ◌*◌, ◌/◌, ◌<◌, ◌≡◌, refl, ap, ◌∙◌, sym,
  List, [], ◌∷◌, length, ok, err, arith, Result, Error, write, some,
}
use b.Transport.WriteInput.{plan_from, plan_profile_chunks}
use b.Transport.WriteInput.Plans.{plan_from-suc}
use b.Transport.Commands.Inversion.{failed_apart}
use b.Transport.Commands.{PadModel, Session, Call, and_then, map_err_of}
use b.Transport.HidrawWrite.{chunk_failure, send_chunks, send_chunk, write_full_profile}
use b.Transport.HidrawWrite.Profile.{write_full_profile-eq}

length-plan_from :
    (size off left : ℕ)
    → size < 65536
    → off + left * 45 < size + 45
    → length (plan_from size off left) ≡ left
length-plan_from size off zero h k = unfold plan_from in refl
length-plan_from size off (suc left) h k =
    ap length (plan_from-suc size off left (omega arith))
    ∙ ap suc (length-plan_from size (off + 45) left h (omega arith))

pub length-plan_profile_chunks :
    (size : ℕ) → size < 65536 → length (plan_profile_chunks size) ≡ (size + 44) / 45
unfolding plan_profile_chunks
length-plan_profile_chunks size h =
    length-plan_from size 0 ((size + 45 - 1) / 45) h (omega arith) ∙ omega arith

plan_from-zero : (size off : ℕ) → plan_from size off 0 ≡ []
unfolding plan_from
plan_from-zero size off = refl

plan_profile_chunks-eq : (size : ℕ) → plan_profile_chunks size ≡ plan_from size 0 ((size + 44) / 45)
unfolding plan_profile_chunks
plan_profile_chunks-eq size = ap (plan_from size 0) (omega arith)

-- The first error of two calls in a row, when the errors of the first are rewritten.
and_then-eq-err :
    {S A B : Type 0} (f : Error → Error) (r : Result A × S) (k : A → Call S B) {e : Error} {s' : S}
    → and_then (map_err_of f r) k ≡ (err e, s')
    → ((c : Error) × (e ≡ f c) × (r ≡ (err c, s')))
      ⊎ ((a : A) × (s1 : S) × (r ≡ (ok a, s1)) × (k a s1 ≡ (err e, s')))
and_then-eq-err f (ok a, s) k h = inr (a, s, refl, h)
and_then-eq-err f (err c, s) k h = inl (c, cc, ap (λ t. (err c, t)) (ap (λ t. t.1) h))

-- Of the chunks planned from byte `off` on, which count from `i`, those before chunk `k` go through,
-- and the exchange of chunk `k`, up to 45 bytes from `off + k * 45`, fails; the error names `i + k`.
abbrev pub FailsAt : {S : Type 0} → Session S → List ℕ → ℕ → ℕ → ℕ → ℕ → Error → S → S → Type 0
FailsAt {S = S} session blob total i off left e s s' =
    (k : ℕ) × (e ≡ write (some (i + k)) total)
    × (k < left)
    × ((s1 : S) × (send_chunks session blob (length blob) total i
            (take k (plan_from (length blob) off left)) s
          ≡ (ok tt, s1))
        × ((c : Error) × (send_chunk session blob (length blob) (off + k * 45)
                (min 45 (length blob - (off + k * 45))) s1
              ≡ (err c, s'))))

send_chunks-nil :
    {S : Type 0} (session : Session S) (blob : List ℕ) (len total i : ℕ) (s : S)
    → send_chunks session blob len total i [] s ≡ (ok tt, s)
unfolding send_chunks
send_chunks-nil session blob len total i s = refl

send_chunks-cons :
    {S : Type 0} (session : Session S) (blob : List ℕ) (len total i off n : ℕ)
    (chunks : List (ℕ × ℕ)) (s s1 : S)
    → send_chunk session blob len off n s ≡ (ok tt, s1)
    → send_chunks session blob len total i ((off, n) ∷ chunks) s
      ≡ send_chunks session blob len total (suc i) chunks s1
unfolding send_chunks
send_chunks-cons session blob len total i off n chunks s s1 sent =
    ap
      (λ r.
        and_then (map_err_of (chunk_failure i total) r)
          (λ u. send_chunks session blob len total (suc i) chunks))
      sent

first_refused :
    {S : Type 0} (session : Session S) (blob : List ℕ) (total i off n : ℕ) (chunks : List (ℕ × ℕ))
    (s s' : S) (e : Error)
    → send_chunks session blob (length blob) total i ((off, n) ∷ chunks) s ≡ (err e, s')
    → ((c : Error) × (e ≡ write (some i) total)
        × (send_chunk session blob (length blob) off n s ≡ (err c, s')))
      ⊎ ((u : Unit {0}) × (s1 : S) × (send_chunk session blob (length blob) off n s ≡ (ok u, s1))
          × (send_chunks session blob (length blob) total (suc i) chunks s1 ≡ (err e, s')))
unfolding send_chunks
first_refused session blob total i off n chunks s s' e h =
    and_then-eq-err (chunk_failure i total) (send_chunk session blob (length blob) off n s)
      (λ u. send_chunks session blob (length blob) total (suc i) chunks) h

send_chunks-FailsAt :
    {S : Type 0} (session : Session S) (blob : List ℕ) (total i off left : ℕ) (s s' : S) (e : Error)
    → length blob < 65536
    → off + left * 45 < length blob + 45
    → send_chunks session blob (length blob) total i (plan_from (length blob) off left) s
      ≡ (err e, s')
    → FailsAt session blob total i off left e s s'
send_chunks-FailsAt session blob total i off zero s s' e l m h = failed_apart _ h (
    ap (λ t. send_chunks session blob (length blob) total i t s) (plan_from-zero (length blob) off)
    ∙ send_chunks-nil session blob (length blob) total i s)
send_chunks-FailsAt {S = S} session blob total i off (suc left) s s' e l m h =
    let size : ℕ = min 45 (length blob - off) in
    let rest : List (ℕ × ℕ) = plan_from (length blob) (off + 45) left in
    let split : plan_from (length blob) off (suc left) ≡ (off, size) ∷ rest =
      plan_from-suc (length blob) off left (omega arith) in
    elim (first_refused session blob total i off size rest s s' e
      (ap (λ t. send_chunks session blob (length blob) total i t s) (sym split) ∙ h)) [
        | inl (c, q, refused) ↦ (
          zero,
          q ∙ ap (λ (n : ℕ). write (some n) total) (omega arith),
          omega arith,
          (
            s,
            send_chunks-nil session blob (length blob) total i s,
            (
              c,
              ap (λ (n : ℕ). send_chunk session blob (length blob) n (min 45 (length blob - n)) s)
                    (omega arith)
                  ∙ refused,
            ),
          ),
        )
        | inr (u, s1, sent, later) ↦
            let (k, q, low, (s2, done, (c, refused))) =
              send_chunks-FailsAt session blob total (suc i) (off + 45) left s1 s' e l (omega arith)
                later in
            (
              suc k,
              q ∙ ap (λ (n : ℕ). write (some n) total) (omega arith),
              omega arith,
              (
                s2,
                ap (λ t. send_chunks session blob (length blob) total i (take (suc k) t) s) split
                    ∙ send_chunks-cons session blob (length blob) total i off size (take k rest) s
                        s1 sent
                    ∙ done,
                (
                  c,
                  ap
                        (λ (n : ℕ).
                          send_chunk session blob (length blob) n (min 45 (length blob - n)) s2)
                        (omega arith)
                      ∙ refused,
                ),
              ),
            )
      ]

-- A profile write of a blob of the model's size, below 65536 bytes, that fails names the chunk that
-- failed, counted from 0, and the number of chunks, which is the size over 45, rounded up: the
-- chunks before the named one, sent as the write does, all went through, and the exchange of the
-- named one, up to 45 bytes from its index times 45, failed then.
pub write_full_profile-eq-err :
    {S : Type 0} (session : Session S) (model : PadModel)
    → session.model ≡ ok model
    → model.blob_size < 65536
    → (blob : List ℕ) (s s' : S) (e : Error) → length blob ≡ model.blob_size
    → write_full_profile session blob s ≡ (err e, s')
    → FailsAt session blob ((length blob + 44) / 45) 0 0 ((length blob + 44) / 45) e s s'
write_full_profile-eq-err session model m size blob s s' e l h =
    let count : length (plan_profile_chunks (length blob)) ≡ (length blob + 44) / 45 =
      length-plan_profile_chunks (length blob) (omega arith) in
    send_chunks-FailsAt session blob ((length blob + 44) / 45) 0 0 ((length blob + 44) / 45) s s' e
      (omega arith) (omega arith)
      (ap₂ (λ n t. send_chunks session blob (length blob) n 0 t s) (sym count)
          (sym (plan_profile_chunks-eq (length blob)))
        ∙ sym (write_full_profile-eq session model m size blob s l)
        ∙ h)
