-- ===== src/Transport/HidrawWrite/Chunks.antt =====
-- What one packet and one profile chunk do to the pad's flash.
use b.Shared.{
  ap₂, ℕ, zero, suc, ◌+◌, ◌≤◌, ◌<◌, ◌≡◌, refl, ap, ◌∙◌, sym, List, [], ◌∷◌, ◌++◌, length, take,
  drop, All, arith, ok, Result, length-take, length-drop,
}
use b.Protocol.Bytes.{IsByte, splice}
use b.Protocol.Bytes.Fields.{Fits, take_bytes-ok}
use b.Protocol.Bytes.Windows.{window-splice_self, window-splice_before}
use b.Protocol.WireWrite.{build_write_packet, validate_write_response}
use b.Protocol.WireWrite.Packets.{parse-build_write_packet}
use b.Transport.Commands.{Session}
use b.Transport.Commands.Inversion.{and_then-eq-ok}
use b.Transport.HidrawWrite.{exchange, send_chunk, len_u16}
use b.Transport.HidrawWrite.Flash.{AcceptsWrites, WritesFlash}

pub All-take : (P : ℕ → Type 0) (n : ℕ) (xs : List ℕ) → All P xs → All P (take n xs)
All-take P zero xs h = tt
All-take P (suc n) [] h = tt
All-take P (suc n) (x ∷ xs) h = (h.0, All-take P n xs h.1)

pub All-drop : (P : ℕ → Type 0) (n : ℕ) (xs : List ℕ) → All P xs → All P (drop n xs)
All-drop P zero xs h = h
All-drop P (suc n) [] h = tt
All-drop P (suc n) (x ∷ xs) h = All-drop P n xs h.1

take-nil : (n : ℕ) → take {A = ℕ} n [] ≡ []
take-nil zero = refl
take-nil (suc n) = refl

pub take-add : (m n : ℕ) (xs : List ℕ) → take (m + n) xs ≡ take m xs ++ take n (drop m xs)
take-add zero n xs = ap (λ (k : ℕ). take k xs) (let e : 0 + n ≡ n = omega arith in e)
take-add (suc m) n [] =
    ap (λ (k : ℕ). take k []) (let e : suc m + n ≡ suc (m + n) = omega arith in e)
    ∙ sym (take-nil n)
take-add (suc m) n (x ∷ xs) =
    ap (λ (k : ℕ). take k (x ∷ xs)) (let e : suc m + n ≡ suc (m + n) = omega arith in e)
    ∙ ap (λ t. x ∷ t) (take-add m n xs)

pub length-chunk :
    (blob : List ℕ) (off n : ℕ) → off + n ≤ length blob → length (take n (drop off blob)) ≡ n
length-chunk blob off n h = omega (arith, length-take n (drop off blob), length-drop off blob)

-- The bytes up to the end of a copied chunk, when those before it were right already.
pub take-splice :
    (flash blob : List ℕ) (off n : ℕ)
    → length flash ≡ length blob
    → off + n ≤ length blob
    → take off flash ≡ take off blob
    → take (off + n) (splice flash off (take n (drop off blob))) ≡ take (off + n) blob
take-splice flash blob off n l h e =
    take-add off n (splice flash off chunk)
    ∙ ap₂ ◌++◌ (window-splice_before flash off chunk 0 off (omega arith) (omega (arith, size)) ∙ e)
        (ap (λ (k : ℕ). take k (drop off (splice flash off chunk))) (sym size)
          ∙ window-splice_self flash off chunk (omega (arith, size)))
    ∙ sym (take-add off n blob)
  where
    chunk : List ℕ
    chunk = take n (drop off blob)

    size : length chunk ≡ n
    size = length-chunk blob off n h

pub exchange-eq-ok :
    {S : Type 0} (session : Session S) (packet : List ℕ) (validate : List ℕ → Result (Unit {0}))
    (s s' : S)
    → exchange session packet validate s ≡ (ok tt, s')
    → (resp : List ℕ) × (session.send_recv packet s ≡ (ok resp, s')) × (validate resp ≡ ok tt)
unfolding exchange
exchange-eq-ok session packet validate s s' h =
    let (resp, s1, sent, valid) = and_then-eq-ok (session.send_recv packet s) _ h in
    (resp, sent ∙ ap (λ t. (ok resp, t.1)) valid, ap (λ t. t.0) valid)

send_chunk-eq :
    {S : Type 0} (session : Session S) (blob : List ℕ) (total_len off n : ℕ) (s : S)
    → Fits blob
    → off + n ≤ length blob
    → n ≤ 45
    → send_chunk session blob total_len off n s
      ≡ exchange session
          (build_write_packet off (take n (drop off blob)) total_len)
          (λ r. validate_write_response r off n)
          s
unfolding send_chunk
send_chunk-eq session blob total_len off n s f h k =
    let size : len_u16 n ≡ ok n = unfold len_u16 in ground arith in
    rw (take_bytes-ok blob off n f h, size)

-- A chunk that was sent has put its bytes on the pad.
pub send_chunk-splice :
    {S : Type 0} (session : Session S) (flash : S → List ℕ)
    → WritesFlash session flash
    → (blob : List ℕ) (total_len off n : ℕ) (s s' : S) → Fits blob
    → All IsByte blob
    → total_len < 65536
    → off < 65536
    → off + n ≤ length blob
    → n ≤ 45
    → send_chunk session blob total_len off n s ≡ (ok tt, s')
    → flash s' ≡ splice (flash s) off (take n (drop off blob))
send_chunk-splice session flash writes blob total_len off n s s' f b t o h k sent =
    let (resp, replied, valid) =
      exchange-eq-ok session _ _ s s'
        (sym (send_chunk-eq session blob total_len off n s f h k) ∙ sent) in
    writes s s' _ _ resp
      (parse-build_write_packet off chunk total_len (omega (arith, size))
        (All-take IsByte n (drop off blob) (All-drop IsByte off blob b)) o t)
      refl replied (ap (validate_write_response resp off) size ∙ valid)
  where
    chunk : List ℕ
    chunk = take n (drop off blob)

    size : length chunk ≡ n
    size = length-chunk blob off n h

pub exchange-accepted :
    {S : Type 0} (session : Session S) (packet : List ℕ) (validate : List ℕ → Result (Unit {0}))
    (s s' : S) (resp : List ℕ)
    → session.send_recv packet s ≡ (ok resp, s')
    → validate resp ≡ ok tt
    → exchange session packet validate s ≡ (ok tt, s')
unfolding exchange
exchange-accepted session packet validate s s' resp sent valid = rw (sent, valid)

pub send_chunk-accepted :
    {S : Type 0} (session : Session S)
    → AcceptsWrites session
    → (blob : List ℕ) (total_len off n : ℕ) (s : S) → Fits blob
    → All IsByte blob
    → total_len < 65536
    → off < 65536
    → off + n ≤ length blob
    → n ≤ 45
    → (s' : S) × (send_chunk session blob total_len off n s ≡ (ok tt, s'))
send_chunk-accepted session accepts blob total_len off n s f b t o h k =
    let (resp, s', sent, valid) =
      accepts s _ _
        (parse-build_write_packet off chunk total_len (omega (arith, size))
          (All-take IsByte n (drop off blob) (All-drop IsByte off blob b)) o t)
        refl o (omega (arith, size)) in
    (
      s',
      send_chunk-eq session blob total_len off n s f h k
          ∙ exchange-accepted session _ _ s s' resp sent
              (ap (validate_write_response resp off) (sym size) ∙ valid),
    )
  where
    chunk : List ℕ
    chunk = take n (drop off blob)

    size : length chunk ≡ n
    size = length-chunk blob off n h
