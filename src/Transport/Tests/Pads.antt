-- ===== src/Transport/Tests/Pads.antt =====
-- Writes and reads on a pad with a flash of 50 bytes: hidraw_write.rs and hidraw_device.rs in
-- crates/controller-core/src/transport.
use b.Shared.{
  length-replicate, ℕ, zero, suc, ◌+◌, ◌*◌, ◌/◌, ◌%◌, ◌==◌, ◌≤◌, ◌<◌, ◌≡◌, ◌↔◌, refl, ap, ◌∙◌, sym,
  if◌then◌else◌, List, [], ◌∷◌, ◌++◌, length, take, drop, replicate, Option, none, some, write,
  timeout, Result, ok, err, All, arith, length-append, take-length_append,
}
use b.Model.Mode.{Mode}
use b.Protocol.Bytes.{take_bytes, IsByte, splice}
use b.Protocol.Layout.{DataPacket, parse_data}
use b.Protocol.WireWrite.Responses.{validate_write_response_iff}
use b.Transport.WriteInput.{
  check_profile_blob, plan_profile_chunks, check_macro_stream, macro_flash_base, macro_total_len,
}
use b.Transport.WriteInput.Plans.{
  gather, InBlob, check_macro_stream_iff, plan_profile_chunks-gather,
}
use b.Transport.Commands.{Session, PadModel}
use b.Transport.HidrawWrite.{send_chunks, send_chunk, write_full_profile}
use b.Transport.HidrawWrite.Flash.{WritesFlash, AcceptsWrites}
use b.Transport.HidrawWrite.Profile.{write_full_profile-flash, write_full_profile-accepted}
use b.Transport.HidrawWrite.Failures.{FailsAt, write_full_profile-eq-err}
use b.Transport.HidrawRead.{read_blob_chunks, read_stream_chunks, MacroStream}
use b.Transport.HidrawRead.Blob.{AnswersUploads, read_blob_chunks-flash, length-window}
use b.Transport.HidrawRead.Stream.{AnswersMacroReads, read_stream_chunks-flash}

-- The head of a response: command, size, total and offset.
abbrev head : ℕ → ℕ → ℕ → ℕ → ℕ → List ℕ
head command sub size total offset =
    0x02
    ∷ 0x04
    ∷ 0x04
    ∷ 0x00
    ∷ command
    ∷ sub
    ∷ size % 256
    ∷ size / 256 % 256
    ∷ 0
    ∷ 0
    ∷ total % 256
    ∷ total / 256 % 256
    ∷ 0
    ∷ 0
    ∷ offset % 256
    ∷ offset / 256 % 256
    ∷ 0
    ∷ 0
    ∷ []

abbrev on_packet : Option DataPacket → List ℕ → Result (List ℕ) × List ℕ
on_packet none flash = (err timeout, flash)
on_packet (some d) flash =
    if d.command == 1
    then (
      ok (head 1 0 (length d.bytes) d.total d.offset ++ replicate 46 0),
      splice flash d.offset d.bytes,
    )
    else (
      ok (
          head 2 d.sub (length d.bytes) d.total d.offset
          ++ (take (length d.bytes) (drop d.offset flash) ++ replicate 46 0)),
      flash,
    )

abbrev a_mode : Mode
a_mode = record { id = []; len = 0 }

abbrev model : PadModel
model = record {
  blob_size = 50;
  slot_select_value = λ m. ok 0;
  apply_argument = 0;
  macro_gamepad_mode = λ m. ok 1;
}

abbrev pad : Session (List ℕ)
pad = record {
  send_recv = λ packet flash. on_packet (parse_data packet) flash;
  model = ok model;
  current_mode = a_mode;
}

abbrev flash : List ℕ → List ℕ
flash s = s

written :
    (s : List ℕ) (d : DataPacket)
    → d.command ≡ 1
    → on_packet (some d) s ≡ (
      ok (head 1 0 (length d.bytes) d.total d.offset ++ replicate 46 0),
      splice s d.offset d.bytes,
    )
written s d c = rw c

pad-WritesFlash : WritesFlash pad flash
pad-WritesFlash s s' packet d resp p c sent valid =
    ap (λ t. t.1) (sym sent) ∙ ap (λ o. (on_packet o s).1) p ∙ ap (λ t. t.1) (written s d c)

pad-AcceptsWrites : AcceptsWrites pad
pad-AcceptsWrites s packet d p c o n = (
  head 1 0 (length d.bytes) d.total d.offset ++ replicate 46 0,
  splice s d.offset d.bytes,
  ap (λ o. on_packet o s) p ∙ written s d c,
  (validate_write_response_iff (head 1 0 (length d.bytes) d.total d.offset ++ replicate 46 0)
        d.offset (length d.bytes) (omega arith)).0.1
      ((omega arith, refl, refl), omega arith, omega arith),
)

abbrev old : List ℕ
old = replicate 50 0xFF

abbrev blob : List ℕ
blob = replicate 50 7

sevens : (n : ℕ) → All IsByte (replicate n 7)
sevens zero = tt
sevens (suc n) = (omega arith, sevens n)

write_full_profile-accepted_example :
    (s' : List ℕ) × (write_full_profile pad blob old ≡ (ok tt, s')) × (flash s' ≡ blob)
write_full_profile-accepted_example =
    write_full_profile-accepted pad flash model pad-WritesFlash pad-AcceptsWrites refl (omega arith)
      blob old (sevens 50) refl refl

accepted : (s' : List ℕ) × (write_full_profile pad blob old ≡ (ok tt, s')) × (flash s' ≡ blob)
accepted =
    write_full_profile-accepted pad flash model pad-WritesFlash pad-AcceptsWrites refl (omega arith)
      blob old (sevens 50) refl refl

write_full_profile-flash_example : flash accepted.0 ≡ blob
write_full_profile-flash_example =
    write_full_profile-flash pad flash model pad-WritesFlash refl (omega arith) blob old accepted.0
      (sevens 50) refl accepted.1

-- A pad that never answers.
abbrev silent : Session (List ℕ)
silent = record {
  send_recv = λ packet flash. (err timeout, flash);
  model = ok model;
  current_mode = a_mode;
}

silent_fails : write_full_profile silent blob old ≡ (err (write (some 0) 2), old)
unfolding write_full_profile check_profile_blob send_chunks plan_profile_chunks send_chunk
    take_bytes
silent_fails = refl

write_full_profile-eq-err_example : FailsAt silent blob 2 0 0 2 (write (some 0) 2) old old
write_full_profile-eq-err_example =
    write_full_profile-eq-err silent model refl (omega arith) blob old old (write (some 0) 2) refl
      silent_fails

abbrev patch : List ℕ
patch = 1 ∷ 2 ∷ 3 ∷ []

check_macro_stream_iff_example :
    ((check_macro_stream (replicate 64 0) (record { get = 1 }) ≡ ok tt) ↔ (
      (0 < length (replicate {A = ℕ} 64 0))
      × (length (replicate {A = ℕ} 64 0) % 32 ≡ 0)
      × (length (replicate {A = ℕ} 64 0) ≤ 4096)))
    × (macro_flash_base (record { get = 1 }) ≡ ok (1 * 4096))
    × (length (replicate {A = ℕ} 64 0) ≤ 4096
        → macro_total_len (length (replicate {A = ℕ} 64 0)) (record { get = 1 })
          ≡ ok (length (replicate {A = ℕ} 64 0) + 1 * 4096))
check_macro_stream_iff_example =
    check_macro_stream_iff (replicate 64 0) (record { get = 1 }) (omega arith)

plan_profile_chunks-gather_example :
    (gather blob (plan_profile_chunks (length blob)) ≡ blob)
    × All (InBlob (length blob)) (plan_profile_chunks (length blob))
plan_profile_chunks-gather_example = plan_profile_chunks-gather blob (omega arith)

-- The window that a read response carries has the size asked for.
asked :
    (s : List ℕ) (d : DataPacket)
    → d.offset + length d.bytes ≤ length s
    → length (take (length d.bytes) (drop d.offset s)) ≡ length d.bytes
asked s d h = length-window s d.offset (length d.bytes) h

read_out :
    (s : List ℕ) (d : DataPacket)
    → d.command ≡ 2
    → on_packet (some d) s ≡ (
      ok (
          head 2 d.sub (length d.bytes) d.total d.offset
          ++ (take (length d.bytes) (drop d.offset s) ++ replicate 46 0)),
      s,
    )
read_out s d c = rw c

pad-AnswersUploads : AnswersUploads pad flash
pad-AnswersUploads s packet d p c z o n inside =
    let size : length (take (length d.bytes) (drop d.offset s)) ≡ length d.bytes =
      asked s d inside in
    let long : length (take (length d.bytes) (drop d.offset s) ++ replicate 46 0)
        ≡ length d.bytes + 46 =
      length-append (take (length d.bytes) (drop d.offset s)) (replicate 46 0)
      ∙ omega (arith, size) in
    (
      head 2 d.sub (length d.bytes) d.total d.offset
          ++ (take (length d.bytes) (drop d.offset s) ++ replicate 46 0),
      s,
      ap (λ o. on_packet o s) p ∙ read_out s d c,
      refl,
      omega (arith, long),
      (
        omega (arith, long, size),
        refl,
        refl,
        omega (arith, size),
        omega arith,
        take-length_append _ (take (length d.bytes) (drop d.offset s)) (replicate 46 0) refl,
      ),
    )

read_blob_chunks-flash_example :
    (s' : List ℕ) × (read_blob_chunks pad old ≡ (ok (flash old), s')) × (flash s' ≡ flash old)
read_blob_chunks-flash_example =
    read_blob_chunks-flash pad flash model pad-AnswersUploads refl (omega arith) old refl

pad-AnswersMacroReads : AnswersMacroReads pad flash
pad-AnswersMacroReads s packet d p c z o t n inside =
    let size : length (take (length d.bytes) (drop d.offset s)) ≡ length d.bytes =
      asked s d inside in
    let long : length (take (length d.bytes) (drop d.offset s) ++ replicate 46 0)
        ≡ length d.bytes + 46 =
      length-append (take (length d.bytes) (drop d.offset s)) (replicate 46 0)
      ∙ omega (arith, size) in
    (
      head 2 d.sub (length d.bytes) d.total d.offset
          ++ (take (length d.bytes) (drop d.offset s) ++ replicate 46 0),
      s,
      ap (λ o. on_packet o s) p ∙ read_out s d c,
      refl,
      omega (arith, long),
      (
        omega (arith, long, size),
        omega (arith, long, size),
        refl,
        ap (λ (k : ℕ). 0x02 ∷ k ∷ []) z,
        omega (arith, size),
        omega arith,
        omega arith,
        take-length_append _ (take (length d.bytes) (drop d.offset s)) (replicate 46 0) refl,
      ),
    )

abbrev stream : MacroStream
stream = record {
  mode = a_mode;
  profile_slot = record { get = 1 };
  macro_slot = record { get = 2 };
  step_count = 7;
}

unfoldable pages : List ℕ
pages = replicate 16384 0

length-pages : length pages ≡ 4 * 4096
unfolding pages
length-pages = length-replicate {A = ℕ} 16384 0

read_stream_chunks-flash_example :
    (s' : List ℕ) × (read_stream_chunks pad stream pages
      ≡ (ok (take 70 (drop (2 * 4096) pages)), s'))
    × (flash s' ≡ flash pages)
read_stream_chunks-flash_example =
    read_stream_chunks-flash pad flash model pad-AnswersMacroReads refl stream 1 refl (omega arith)
      (omega arith) pages length-pages
