-- ===== src/Transport/HidrawRead/Blob.antt =====
-- Reading a blob gives the pad's flash.
use native.Mathlib.Decide.{dec_lt}
use b.Transport.WriteInput.{try_u16}
use b.Shared.{
  true, ◌==◌, ltb, false, subst, length-drop, length-take, ℕ, zero, suc, ◌+◌, ◌-◌, ◌%◌, ◌≤◌, ◌<◌,
  ◌≡◌, refl, ap, ◌∙◌, sym, List, [], ◌∷◌, ◌++◌, length, take, drop, ok, some, arith, min, replicate,
  length-replicate, lt→ltb, take-all,
}
use b.Protocol.Bytes.{IsU16}
use b.Protocol.Bytes.Fields.{Fits}
use b.Protocol.Layout.{DataPacket, parse_data, word_at}
use b.Protocol.Wire.{build_upload_packet, decode_upload_response}
use b.Protocol.Wire.Requests.{parse-build_upload_packet, fill-IsByte}
use b.Protocol.Wire.Uploads.{decode_upload_response_iff}
use b.Transport.Commands.{PadModel, Session}
use b.Transport.HidrawRead.{read_from, read_blob_chunks}
use b.Transport.HidrawWrite.Chunks.{take-add}

-- A response that carries `bytes` from `offset`, as docs and captures give it.
abbrev pub Carries : List ℕ → ℕ → List ℕ → Type 0
Carries resp offset bytes =
    (18 + length bytes ≤ length resp)
    × (take 3 resp ≡ 0x02 ∷ 0x04 ∷ 0x04 ∷ [])
    × (take 1 (drop 4 resp) ≡ 0x02 ∷ [])
    × (word_at resp 6 ≡ length bytes)
    × (word_at resp 14 ≡ offset)
    × (take (length bytes) (drop 18 resp) ≡ bytes)

-- The pad answers an upload request of at most 46 bytes inside its flash with the bytes there, and keeps its flash.
abbrev pub AnswersUploads : {S : Type 0} → Session S → (S → List ℕ) → Type 0
AnswersUploads {S = S} session flash =
    (s : S) (packet : List ℕ) (d : DataPacket)
    → parse_data packet ≡ some d
    → d.command ≡ 0x02
    → d.sub ≡ 0
    → IsU16 d.offset
    → length d.bytes ≤ 46
    → d.offset + length d.bytes ≤ length (flash s)
    → (resp : List ℕ) × (s' : S) × (session.send_recv packet s ≡ (ok resp, s'))
      × (flash s' ≡ flash s)
      × Fits resp
      × Carries resp d.offset (take (length d.bytes) (drop d.offset (flash s)))

pub length-window :
    (xs : List ℕ) (off n : ℕ) → off + n ≤ length xs → length (take n (drop off xs)) ≡ n
length-window xs off n h = omega (arith, length-take n (drop off xs), length-drop off xs)

-- One request for `n` bytes inside the flash.
read_chunk :
    {S : Type 0} (session : Session S) (flash : S → List ℕ)
    → AnswersUploads session flash
    → (size off n : ℕ) (s : S) → size < 65536
    → off < 65536
    → n ≤ 45
    → off + n ≤ length (flash s)
    → (resp : List ℕ) × (s1 : S) × (session.send_recv
          (build_upload_packet off (replicate n 0xCC) size)
          s
        ≡ (ok resp, s1))
      × (flash s1 ≡ flash s)
      × (decode_upload_response resp off n ≡ ok (take n (drop off (flash s))))
read_chunk session flash answers size off n s h o k l =
    let len : length {A = ℕ} (replicate n 0xCC) ≡ n = length-replicate n 0xCC in
    let (resp, s1, sent, same, fits, carries) =
      answers s _ _
        (parse-build_upload_packet off (replicate n 0xCC) size (omega (arith, len)) (fill-IsByte n)
          o h)
        refl refl o (omega (arith, len)) (omega (arith, len)) in
    let whole : length (take n (drop off (flash s))) ≡ n = length-window (flash s) off n l in
    let window : take (length {A = ℕ} (replicate n 0xCC)) (drop off (flash s))
        ≡ take n (drop off (flash s)) =
      ap (λ (k : ℕ). take k (drop off (flash s))) len in
    let (size_ok, head, echo, size_is, offset_is, bytes_are) =
      subst (λ w. Carries resp off w) window carries in
    (
      resp,
      s1,
      sent,
      same,
      (decode_upload_response_iff resp off n _ fits).1 (
        omega (arith, whole),
        head,
        echo,
        size_is ∙ whole,
        offset_is,
        ap (λ (k : ℕ). take k (drop 18 resp)) (sym whole) ∙ bytes_are,
      ),
    )

read_from-step :
    {S : Type 0} (session : Session S) (size fuel off : ℕ) (s s1 : S) (blob resp payload : List ℕ)
    → off < size
    → size < 65536
    → session.send_recv (build_upload_packet off (replicate (min (size - off) 45) 0xCC) size) s
      ≡ (ok resp, s1)
    → decode_upload_response resp off (min (size - off) 45) ≡ ok payload
    → read_from session size size (suc fuel) off blob s
      ≡ read_from session size size fuel (off + min (size - off) 45) (blob ++ payload) s1
unfolding read_from
read_from-step session size fuel off s s1 blob resp payload o h sent decoded =
    let a : off % 65536 ≡ off = omega arith in
    let b : min (size - off) 45 % 65536 ≡ min (size - off) 45 = omega arith in
    rw (lt→ltb off size o, a, b, sent, decoded)

read_from-end :
    {S : Type 0} (session : Session S) (size fuel off : ℕ) (blob : List ℕ) (s : S)
    → ¬ (off < size)
    → read_from session size size fuel off blob s ≡ (ok blob, s)
unfolding read_from
read_from-end session size zero off blob s h = refl
read_from-end session size (suc fuel) off blob s h =
    let stop : ltb off size ≡ false = ground arith in rw stop

read_from-flash :
    {S : Type 0} (session : Session S) (flash : S → List ℕ)
    → AnswersUploads session flash
    → (whole : List ℕ) → length whole < 65536
    → (fuel off : ℕ) (s : S) → flash s ≡ whole
    → length whole ≤ off + fuel
    → off ≤ length whole
    → (s' : S) × (read_from session (length whole) (length whole) fuel off (take off whole) s
        ≡ (ok whole, s'))
      × (flash s' ≡ whole)
read_from-flash session flash answers whole h zero off s e k o = (
  s,
  read_from-end session (length whole) 0 off (take off whole) s (omega arith)
      ∙ ap (λ b. (ok b, s)) (take-all off whole (omega arith)),
  e,
)
read_from-flash session flash answers whole h (suc fuel) off s e k o =
    elim (dec_lt off (length whole)) [
      | yes p ↦
          let n : ℕ = min (length whole - off) 45 in
          let size : length (flash s) ≡ length whole = ap length e in
          let (resp, s1, sent, same, decoded) =
            read_chunk session flash answers (length whole) off n s h (omega arith) (omega arith)
              (omega (arith, size)) in
          let (s2, rest, kept) =
            read_from-flash session flash answers whole h fuel (off + n) s1 (same ∙ e) (omega arith)
              (omega arith) in
          (
            s2,
            read_from-step session (length whole) fuel off s s1 (take off whole) resp _ p h sent
                  decoded
                ∙ ap (λ b. read_from session (length whole) (length whole) fuel (off + n) b s1)
                    (ap (λ f. take off whole ++ take n (drop off f)) e ∙ sym (take-add off n whole))
                ∙ rest,
            kept,
          )
      | no p ↦ (
        s,
        read_from-end session (length whole) (suc fuel) off (take off whole) s p
            ∙ ap (λ b. (ok b, s)) (take-all off whole (omega arith)),
        e,
      )
    ]

read_blob_chunks-eq :
    {S : Type 0} (session : Session S) (model : PadModel)
    → session.model ≡ ok model
    → (blob : List ℕ) (s s' : S) → try_u16 model.blob_size ≡ some model.blob_size
    → read_from session model.blob_size model.blob_size model.blob_size 0 [] s ≡ (ok blob, s')
    → (length blob == model.blob_size) ≡ true
    → read_blob_chunks session s ≡ (ok blob, s')
unfolding read_blob_chunks
read_blob_chunks-eq session model m blob s s' small done same = simp (m, small, done, same)

-- On a pad that answers every upload request from its flash, reading a blob succeeds, gives the
-- whole flash and leaves it as it was, for a model whose blob has fewer than 65536 bytes.
pub read_blob_chunks-flash :
    {S : Type 0} (session : Session S) (flash : S → List ℕ) (model : PadModel)
    → AnswersUploads session flash
    → session.model ≡ ok model
    → model.blob_size < 65536
    → (s : S) → length (flash s) ≡ model.blob_size
    → (s' : S) × (read_blob_chunks session s ≡ (ok (flash s), s')) × (flash s' ≡ flash s)
read_blob_chunks-flash session flash model answers m h s l =
    let (s', done, kept) =
      read_from-flash session flash answers (flash s) (omega arith) (length (flash s)) 0 s refl
        (omega arith) (omega arith) in
    (
      s',
      read_blob_chunks-eq session model m (flash s) s s' (ground arith)
          (subst (λ (n : ℕ). read_from session n n n 0 [] s ≡ (ok (flash s), s')) l done)
          (ground arith),
      kept,
    )
