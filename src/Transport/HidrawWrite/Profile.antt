-- ===== src/Transport/HidrawWrite/Profile.antt =====
-- A full profile write leaves exactly the blob on the pad.
use native.Mathlib.Decide.{dec_le}
use b.Shared.{
  ◌-◌, ◌*◌, ◌/◌, Bool-cases, ◌==◌, ==_iff, ==_refl, min, ℕ, zero, suc, ◌+◌, ◌≤◌, ◌<◌, ◌≡◌, refl, ap,
  ◌∙◌, sym, List, ◌∷◌, length, take, drop, All, arith, ok, err, inl, inr, false, take-all,
}
use b.Protocol.Bytes.{IsByte, splice}
use b.Protocol.Bytes.Windows.{length-splice}
use b.Transport.WriteInput.{plan_from, plan_profile_chunks, write_error, check_profile_blob}
use b.Transport.WriteInput.Plans.{plan_from-suc}
use b.Transport.Commands.{PadModel, Session}
use b.Transport.Commands.Inversion.{failed_apart, and_then-eq-ok, map_err_of-eq-ok}
use b.Transport.HidrawWrite.{send_chunks, write_full_profile, send_chunk, len_u16}
use b.Transport.HidrawWrite.Flash.{AcceptsWrites, WritesFlash}
use b.Transport.HidrawWrite.Chunks.{
  take-splice, length-chunk, send_chunk-splice, send_chunk-accepted,
}

-- The bytes of the last chunk end the blob; the others are whole.
same_to :
    (xs ys : List ℕ) (off : ℕ)
    → length xs ≡ length ys
    → take (off + min 45 (length ys - off)) xs ≡ take (off + min 45 (length ys - off)) ys
    → take (off + 45) xs ≡ take (off + 45) ys
same_to xs ys off l e = elim (dec_le (off + 45) (length ys)) [
  | yes p ↦
      let n : off + min 45 (length ys - off) ≡ off + 45 = omega arith in
      ap (λ (k : ℕ). take k xs) (sym n) ∙ e ∙ ap (λ (k : ℕ). take k ys) n
  | no p ↦
      take-all (off + 45) xs (omega arith)
      ∙ sym (take-all (off + min 45 (length ys - off)) xs (omega arith))
      ∙ e
      ∙ take-all (off + min 45 (length ys - off)) ys (omega arith)
      ∙ sym (take-all (off + 45) ys (omega arith))
]

send_chunks-first :
    {S : Type 0} (session : Session S) (blob : List ℕ) (total_len total i off n : ℕ)
    (chunks : List (ℕ × ℕ)) (s s' : S)
    → send_chunks session blob total_len total i ((off, n) ∷ chunks) s ≡ (ok tt, s')
    → (s1 : S) × (send_chunk session blob total_len off n s ≡ (ok tt, s1))
      × (send_chunks session blob total_len total (suc i) chunks s1 ≡ (ok tt, s'))
unfolding send_chunks
send_chunks-first session blob total_len total i off n chunks s s' sent =
    let (u, s1, first, rest) = and_then-eq-ok _ _ sent in (s1, map_err_of-eq-ok _ _ first, rest)

send_chunks-next :
    {S : Type 0} (session : Session S) (blob : List ℕ) (total_len total i off n : ℕ)
    (chunks : List (ℕ × ℕ)) (s s1 : S)
    → send_chunk session blob total_len off n s ≡ (ok tt, s1)
    → send_chunks session blob total_len total i ((off, n) ∷ chunks) s
      ≡ send_chunks session blob total_len total (suc i) chunks s1
unfolding send_chunks
send_chunks-next session blob total_len total i off n chunks s s1 first = rw first

pub send_chunks-flash :
    {S : Type 0} (session : Session S) (flash : S → List ℕ)
    → WritesFlash session flash
    → (blob : List ℕ) (total_len total i off left : ℕ) (s s' : S) → length blob < 65536
    → All IsByte blob
    → total_len < 65536
    → off + left * 45 < length blob + 45
    → length blob ≤ off + left * 45
    → length (flash s) ≡ length blob
    → take off (flash s) ≡ take off blob
    → send_chunks session blob total_len total i (plan_from (length blob) off left) s ≡ (ok tt, s')
    → flash s' ≡ blob
send_chunks-flash session flash writes blob total_len total i off zero s s' f b t o p l e sent =
    let done : s ≡ s' = unfold send_chunks plan_from in ap (λ t. t.1) sent in
    sym (ap flash done)
    ∙ sym (take-all off (flash s) (omega arith))
    ∙ e
    ∙ take-all off blob (omega arith)
send_chunks-flash session flash writes blob total_len total i off (suc left) s s' f b t o p l e
      sent =
    let (s1, first, rest) =
      send_chunks-first session blob total_len total i off n
        (plan_from (length blob) (off + 45) left) s s'
        (ap (λ plan. send_chunks session blob total_len total i plan s)
            (sym (plan_from-suc (length blob) off left (omega arith)))
          ∙ sent) in
    let put : flash s1 ≡ splice (flash s) off (take n (drop off blob)) =
      send_chunk-splice session flash writes blob total_len off n s s1 (omega arith) b t
        (omega arith) (omega arith) (omega arith) first in
    let len : length (flash s1) ≡ length blob =
      ap length put
      ∙ length-splice (flash s) off (take n (drop off blob))
          (omega (arith, length-chunk blob off n (omega arith)))
      ∙ l in
    send_chunks-flash session flash writes blob total_len total (suc i) (off + 45) left s1 s' f b t
      (omega arith) (omega arith) len
      (same_to (flash s1) blob off len
        (ap (take (off + n)) put ∙ take-splice (flash s) blob off n l (omega arith) e))
      rest
  where
    n : ℕ
    n = min 45 (length blob - off)

pub write_full_profile-eq :
    {S : Type 0} (session : Session S) (model : PadModel)
    → session.model ≡ ok model
    → model.blob_size < 65536
    → (blob : List ℕ) (s : S) → length blob ≡ model.blob_size
    → write_full_profile session blob s
      ≡ send_chunks session blob
          (length blob)
          (length (plan_profile_chunks (length blob)))
          0
          (plan_profile_chunks (length blob))
          s
unfolding write_full_profile
write_full_profile-eq session model m size blob s l =
    let fits : len_u16 (length blob) ≡ ok (length blob) = unfold len_u16 in ground arith in
    let right : check_profile_blob blob (length blob) ≡ ok tt =
      unfold check_profile_blob in rw (==_refl (length blob)) in
    rw (m, sym l, right, fits)

-- A blob of another size is refused before anything is sent.
refused_size :
    {S : Type 0} (session : Session S) (model : PadModel)
    → session.model ≡ ok model
    → (blob : List ℕ) (s : S) → (length blob == model.blob_size) ≡ false
    → write_full_profile session blob s ≡ (err write_error, s)
unfolding write_full_profile check_profile_blob
refused_size session model m blob s e = rw (m, e)

-- A full profile write that succeeds has left exactly the blob on the pad, whatever was there: for
-- a pad whose flash takes each accepted packet, and a model whose blob has fewer than 65536 bytes.
pub write_full_profile-flash :
    {S : Type 0} (session : Session S) (flash : S → List ℕ) (model : PadModel)
    → WritesFlash session flash
    → session.model ≡ ok model
    → model.blob_size < 65536
    → (blob : List ℕ) (s s' : S) → All IsByte blob
    → length (flash s) ≡ model.blob_size
    → write_full_profile session blob s ≡ (ok tt, s')
    → flash s' ≡ blob
write_full_profile-flash session flash model writes m size blob s s' b l sent =
    elim (Bool-cases (length blob == model.blob_size)) [
      | inl e ↦
          let same : length blob ≡ model.blob_size = (==_iff (length blob) model.blob_size).0 e in
          send_chunks-flash session flash writes blob (length blob)
            (length (plan_profile_chunks (length blob))) 0 0 ((length blob + 45 - 1) / 45) s s'
            (omega arith) b (omega arith) (omega arith) (omega arith) (l ∙ sym same) refl
            (unfold plan_profile_chunks in
              (sym (write_full_profile-eq session model m size blob s same) ∙ sent))
      | inr e ↦ failed_apart _ (refused_size session model m blob s e) sent
    ]

send_chunks-accepted :
    {S : Type 0} (session : Session S)
    → AcceptsWrites session
    → (blob : List ℕ) (total_len total i off left : ℕ) (s : S) → length blob < 65536
    → All IsByte blob
    → total_len < 65536
    → off + left * 45 < length blob + 45
    → (s' : S) × (send_chunks session blob total_len total i (plan_from (length blob) off left) s
        ≡ (ok tt, s'))
send_chunks-accepted session accepts blob total_len total i off zero s f b t o =
    (s, unfold send_chunks plan_from in refl)
send_chunks-accepted session accepts blob total_len total i off (suc left) s f b t o =
    let n : ℕ = min 45 (length blob - off) in
    let (s1, first) =
      send_chunk-accepted session accepts blob total_len off n s (omega arith) b t (omega arith)
        (omega arith) (omega arith) in
    let (s2, rest) =
      send_chunks-accepted session accepts blob total_len total (suc i) (off + 45) left s1 f b t
        (omega arith) in
    (
      s2,
      ap (λ plan. send_chunks session blob total_len total i plan s)
            (plan_from-suc (length blob) off left (omega arith))
          ∙ send_chunks-next session blob total_len total i off n _ s s1 first
          ∙ rest,
    )

-- On a pad that accepts every profile write packet, a full profile write of a blob of the model's
-- size succeeds and leaves exactly the blob, whatever the flash held.
pub write_full_profile-accepted :
    {S : Type 0} (session : Session S) (flash : S → List ℕ) (model : PadModel)
    → WritesFlash session flash
    → AcceptsWrites session
    → session.model ≡ ok model
    → model.blob_size < 65536
    → (blob : List ℕ) (s : S) → All IsByte blob
    → length blob ≡ model.blob_size
    → length (flash s) ≡ model.blob_size
    → (s' : S) × (write_full_profile session blob s ≡ (ok tt, s')) × (flash s' ≡ blob)
write_full_profile-accepted session flash model writes accepts m size blob s b l k =
    let (s', sent) =
      send_chunks-accepted session accepts blob (length blob)
        (length (plan_profile_chunks (length blob))) 0 0 ((length blob + 45 - 1) / 45) s
        (omega arith) b (omega arith) (omega arith) in
    let done : write_full_profile session blob s ≡ (ok tt, s') =
      write_full_profile-eq session model m size blob s l ∙ (unfold plan_profile_chunks in sent) in
    (s', done, write_full_profile-flash session flash model writes m size blob s s' b k done)
