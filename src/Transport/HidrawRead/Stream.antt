-- ===== src/Transport/HidrawRead/Stream.antt =====
-- Reading a macro gives the bytes of its flash page.
use b.Shared.{
  append-nil, ℕ, zero, suc, ◌+◌, ◌-◌, ◌*◌, ◌/◌, ◌≤◌, ◌<◌, ◌≡◌, refl, ap, ap₂, ◌∙◌, sym, List, [],
  ◌∷◌, ◌++◌, length, take, drop, ok, some, arith, drop-drop, append-nil, append_assoc,
}
use b.Protocol.Bytes.{IsU16}
use b.Protocol.Bytes.Fields.{Fits}
use b.Protocol.Layout.{DataPacket, parse_data, word_at}
use b.Protocol.Wire.{build_read_macro_packet, decode_read_macro_response}
use b.Protocol.Wire.Requests.{parse-build_read_macro_packet}
use b.Protocol.Wire.Uploads.{decode_read_macro_response_iff}
use b.Transport.Commands.{PadModel, Session}
use b.Transport.WriteInput.{try_u16}
use b.Transport.HidrawRead.{
  MacroStream, read_chunks, read_stream_chunks, stream_from, stream_chunks,
}
use b.Transport.HidrawRead.Blob.{length-window}
use b.Transport.HidrawWrite.Chunks.{take-add}

-- A macro read response that carries `bytes` from `offset`.
abbrev pub CarriesMacro : List ℕ → ℕ → ℕ → List ℕ → Type 0
CarriesMacro resp offset total bytes =
    (64 ≤ length resp)
    × (18 + length bytes ≤ length resp)
    × (take 3 resp ≡ 0x02 ∷ 0x04 ∷ 0x04 ∷ [])
    × (take 2 (drop 4 resp) ≡ 0x02 ∷ 0x01 ∷ [])
    × (word_at resp 6 ≡ length bytes)
    × (word_at resp 10 ≡ total)
    × (word_at resp 14 ≡ offset)
    × (take (length bytes) (drop 18 resp) ≡ bytes)

-- The pad answers a macro read request inside its macro flash with the bytes there, and keeps them.
abbrev pub AnswersMacroReads : {S : Type 0} → Session S → (S → List ℕ) → Type 0
AnswersMacroReads {S = S} session flash =
    (s : S) (packet : List ℕ) (d : DataPacket)
    → parse_data packet ≡ some d
    → d.command ≡ 0x02
    → d.sub ≡ 1
    → IsU16 d.offset
    → IsU16 d.total
    → length d.bytes ≤ 46
    → d.offset + length d.bytes ≤ length (flash s)
    → (resp : List ℕ) × (s' : S) × (session.send_recv packet s ≡ (ok resp, s'))
      × (flash s' ≡ flash s)
      × Fits resp
      × CarriesMacro resp d.offset d.total (take (length d.bytes) (drop d.offset (flash s)))

read_macro_chunk :
    {S : Type 0} (session : Session S) (flash : S → List ℕ)
    → AnswersMacroReads session flash
    → (ps mode total off : ℕ) (s : S) → total < 65536
    → off < 65536
    → off + 32 ≤ length (flash s)
    → (resp : List ℕ) × (s1 : S) × (session.send_recv
          (build_read_macro_packet ps mode off total 32)
          s
        ≡ (ok resp, s1))
      × (flash s1 ≡ flash s)
      × (decode_read_macro_response resp off total ≡ ok (take 32 (drop off (flash s))))
read_macro_chunk session flash answers ps mode total off s h o l =
    let (resp, s1, sent, same, fits, carries) =
      answers s _ _ (parse-build_read_macro_packet ps mode off total 32 (omega arith) o h) refl refl
        o h (omega arith) l in
    let whole : length (take 32 (drop off (flash s))) ≡ 32 = length-window (flash s) off 32 l in
    let (long, size_ok, head, echo, size_is, total_is, offset_is, bytes_are) = carries in
    (
      resp,
      s1,
      sent,
      same,
      (decode_read_macro_response_iff resp off total _ fits).1 (
        long,
        omega (arith, size_is),
        head,
        echo,
        total_is,
        offset_is,
        ap (λ (k : ℕ). take k (drop 18 resp)) size_is ∙ bytes_are,
      ),
    )

stream_from-suc :
    (base i left : ℕ)
    → i * 32 + base < 65536
    → stream_from base i (suc left) ≡ (i * 32 + base, 32) ∷ stream_from base (suc i) left
unfolding stream_from
stream_from-suc base i left h = ground arith

-- One pass of the loop, once its reply is known.
read_chunks-step :
    {S : Type 0} (session : Session S) (ps mode total off : ℕ) (chunks : List (ℕ × ℕ))
    (result resp payload : List ℕ) (s s1 : S)
    → session.send_recv (build_read_macro_packet ps mode off total 32) s ≡ (ok resp, s1)
    → decode_read_macro_response resp off total ≡ ok payload
    → read_chunks session ps mode total ((off, 32) ∷ chunks) result s
      ≡ read_chunks session ps mode total chunks (result ++ payload) s1
unfolding read_chunks
read_chunks-step session ps mode total off chunks result resp payload s s1 sent decoded =
    rw (sent, decoded)

join :
    (whole : List ℕ) (off next left n : ℕ) (flash : List ℕ)
    → flash ≡ whole
    → next ≡ off + 32
    → n ≡ 32 + left * 32
    → take 32 (drop off flash) ++ take (left * 32) (drop next whole) ≡ take n (drop off whole)
join whole off next left n flash e p q =
    ap₂ (λ f (k : ℕ). take 32 (drop off f) ++ take (left * 32) (drop k whole)) e p
    ∙ ap (λ r. take 32 (drop off whole) ++ take (left * 32) r) (sym (drop-drop 32 off whole))
    ∙ sym (take-add 32 (left * 32) (drop off whole))
    ∙ ap (λ (k : ℕ). take k (drop off whole)) (sym q)

read_chunks-flash :
    {S : Type 0} (session : Session S) (flash : S → List ℕ)
    → AnswersMacroReads session flash
    → (whole : List ℕ) (ps mode total base i left : ℕ) (result : List ℕ) (s : S) → total < 65536
    → length whole < 65536
    → flash s ≡ whole
    → (i + left) * 32 + base ≤ length whole
    → (s' : S) × (read_chunks session ps mode total (stream_from base i left) result s
        ≡ (ok (result ++ take (left * 32) (drop (i * 32 + base) whole)), s'))
      × (flash s' ≡ whole)
read_chunks-flash session flash answers whole ps mode total base i zero result s t h e k =
    (s, unfold read_chunks stream_from in ap (λ r. (ok r, s)) (sym (append-nil result)), e)
read_chunks-flash session flash answers whole ps mode total base i (suc left) result s t h e k =
    let off : ℕ = i * 32 + base in
    let (resp, s1, sent, same, decoded) =
      read_macro_chunk session flash answers ps mode total off s t (omega arith)
        (omega (arith, ap length e)) in
    let (s2, rest, kept) =
      read_chunks-flash session flash answers whole ps mode total base (suc i) left
        (result ++ take 32 (drop off (flash s))) s1 t h (same ∙ e) (omega arith) in
    (
      s2,
      ap (λ plan. read_chunks session ps mode total plan result s)
            (stream_from-suc base i left (omega arith))
          ∙ read_chunks-step session ps mode total off (stream_from base (suc i) left) result resp _
              s s1 sent decoded
          ∙ rest
          ∙ ap (λ r. (ok r, s2))
              (append_assoc result (take 32 (drop off (flash s)))
                  (take (left * 32) (drop (suc i * 32 + base) whole))
                ∙ ap (λ r. result ++ r)
                    (join whole off (suc i * 32 + base) left (suc left * 32) (flash s) e
                      (omega arith) (omega arith))),
      kept,
    )

read_stream_chunks-eq :
    {S : Type 0} (session : Session S) (stream : MacroStream) (model : PadModel) (mode : ℕ)
    → session.model ≡ ok model
    → model.macro_gamepad_mode stream.mode ≡ ok mode
    → stream.step_count * 10 < 65536
    → (s s' : S) (result : List ℕ)
    → read_chunks session
        (stream.profile_slot.get - 1)
        mode
        (stream.step_count * 10)
        (stream_chunks (stream.macro_slot.get * 0x1000) (stream.step_count * 10))
        []
        s
      ≡ (ok result, s')
    → read_stream_chunks session stream s ≡ (ok (take (stream.step_count * 10) result), s')
unfolding read_stream_chunks
read_stream_chunks-eq session stream model mode m g h s s' result done =
    let small : try_u16 (stream.step_count * 10) ≡ some (stream.step_count * 10) = ground arith in
    simp (m, g, small, done)

take-take : (n m : ℕ) (xs : List ℕ) → n ≤ m → take n (take m xs) ≡ take n xs
take-take zero m xs h = refl
take-take (suc n) zero xs h = absurd (omega arith)
take-take (suc n) (suc m) [] h = refl
take-take (suc n) (suc m) (x ∷ xs) h = ap (λ t. x ∷ t) (take-take n m xs (omega arith))

-- On a pad that answers every macro read from its macro flash of four pages, reading a macro of up
-- to 409 steps succeeds and gives exactly the bytes of its steps, from the start of the page of its
-- slot, and leaves the flash as it was.
pub read_stream_chunks-flash :
    {S : Type 0} (session : Session S) (flash : S → List ℕ) (model : PadModel)
    → AnswersMacroReads session flash
    → session.model ≡ ok model
    → (stream : MacroStream) (mode : ℕ) → model.macro_gamepad_mode stream.mode ≡ ok mode
    → stream.macro_slot.get ≤ 3
    → stream.step_count * 10 ≤ 4096
    → (s : S) → length (flash s) ≡ 4 * 4096
    → (s' : S) × (read_stream_chunks session stream s
        ≡ (ok (take (stream.step_count * 10) (drop (stream.macro_slot.get * 4096) (flash s))), s'))
      × (flash s' ≡ flash s)
read_stream_chunks-flash session flash model answers m stream mode g slot small s l =
    let n : ℕ = stream.step_count * 10 in
    let base : ℕ = stream.macro_slot.get * 4096 in
    let left : ℕ = (n + 32 - 1) / 32 in
    let (s', done, kept) =
      read_chunks-flash session flash answers (flash s) (stream.profile_slot.get - 1) mode n base 0
        left [] s (omega arith) (omega arith) refl (omega arith) in
    (
      s',
      read_stream_chunks-eq session stream model mode m g (omega arith) s s'
            (take (left * 32) (drop (0 * 32 + base) (flash s))) (unfold stream_chunks in done)
          ∙ ap (λ (k : ℕ). (ok (take n (take (left * 32) (drop k (flash s)))), s'))
              (let e : 0 * 32 + base ≡ base = omega arith in e)
          ∙ ap (λ r. (ok r, s')) (take-take n (left * 32) (drop base (flash s)) (omega arith)),
      kept,
    )
