-- ===== src/Transport/HidrawRead.antt =====
-- crates/controller-core/src/transport/hidraw_device.rs: the reads on an open session.
pub mod Blob
pub mod Stream
use b.Shared.{
  ℕ, zero, suc, ◌+◌, ◌-◌, ◌*◌, ◌/◌, ◌%◌, min, ltb, leb, ◌==◌, not, if◌then◌else◌, List, [], ◌∷◌,
  ◌++◌, length, take, replicate, Option, none, some, decode, Result, ok, err, ok_or, refuse_if,
}
use b.Model.Mode.{Mode}
use b.Model.Slot.{Slot}
use b.Model.MacroSlot.{MacroSlot}
use b.Protocol.Wire.{
  build_slot_select, build_upload_packet, build_read_macro_packet, decode_upload_response,
  decode_read_macro_response,
}
use b.Transport.WriteInput.{profile_chunk, try_u16}
use b.Transport.Commands.{Session, PadModel, Call, ◌>>=◌, ◌>>◌, lift}

abbrev pub upload_chunk : ℕ
upload_chunk = profile_chunk

abbrev pub macro_chunk : ℕ
macro_chunk = 32

abbrev pub macro_erase_len : ℕ
macro_erase_len = 0x1000

abbrev pub step_len : ℕ
step_len = 10

pub record MacroStream : Type 0 where
  pub mode : Mode
  pub profile_slot : Slot
  pub macro_slot : MacroSlot
  pub step_count : ℕ

-- The loop of `read_blob_chunks`, which ends once `offset` has reached the size; each pass moves
-- it on by at least one, so `blob_size` passes are enough.
unfoldable pub read_from : {S : Type 0} → Session S → ℕ → ℕ → ℕ → ℕ → List ℕ → Call S (List ℕ)
read_from session blob_size size_u16 zero offset blob = lift (ok blob)
read_from session blob_size size_u16 (suc fuel) offset blob =
    if ltb offset blob_size
    then (do
      let chunk_size = min (blob_size - offset) upload_chunk
      let offset_u16 = offset % 65536
      resp ← session.send_recv (build_upload_packet offset_u16 (replicate chunk_size 0xCC) size_u16)
      payload ← lift (decode_upload_response resp offset_u16 (chunk_size % 65536))
      read_from session blob_size size_u16 fuel (offset + chunk_size) (blob ++ payload))
    else lift (ok blob)

unfoldable pub read_blob_chunks : {S : Type 0} → Session S → Call S (List ℕ)
read_blob_chunks session = do
  model ← lift session.model
  size_u16 ← lift (ok_or (try_u16 model.blob_size) decode)
  blob ← read_from session model.blob_size size_u16 model.blob_size 0 []
  lift (refuse_if (not (length blob == model.blob_size)) decode)
  lift (ok blob)

unfoldable pub read_blob : {S : Type 0} → Session S → ℕ → Call S (List ℕ)
unfolding read_blob_chunks
read_blob session slot_select = do
  resp ← session.send_recv (build_slot_select slot_select)
  read_blob_chunks session

-- The closure of `stream_chunks`: none when the offset overflows 16 bits.
abbrev pub chunk_offset : ℕ → ℕ → Option ℕ
chunk_offset flash_base i = elim (try_u16 i) [
  | none ↦ none
  | some i16 ↦ elim (try_u16 (i16 * macro_chunk)) [
    | none ↦ none
    | some start ↦ try_u16 (start + flash_base)
  ]
]

-- `map_while` stops at the first overflow.
unfoldable pub stream_from : ℕ → ℕ → ℕ → List (ℕ × ℕ)
stream_from flash_base i zero = []
stream_from flash_base i (suc left) =
    let rest = stream_from flash_base (suc i) left in
    elim (chunk_offset flash_base i) [ none ↦ [] | some offset ↦ (offset, macro_chunk) ∷ rest ]

unfoldable pub stream_chunks : ℕ → ℕ → List (ℕ × ℕ)
stream_chunks flash_base data_bytes =
    stream_from flash_base 0 ((data_bytes + macro_chunk - 1) / macro_chunk)

-- The loop of `read_stream_chunks`.
unfoldable pub read_chunks :
    {S : Type 0} → Session S → ℕ → ℕ → ℕ → List (ℕ × ℕ) → List ℕ → Call S (List ℕ)
read_chunks session ps gamepad_mode total_len [] result = lift (ok result)
read_chunks session ps gamepad_mode total_len ((chunk_offset, chunk_size) ∷ chunks) result = do
  resp ←
      session.send_recv (build_read_macro_packet ps gamepad_mode chunk_offset total_len chunk_size)
  payload ← lift (decode_read_macro_response resp chunk_offset total_len)
  read_chunks session ps gamepad_mode total_len chunks (result ++ payload)

unfoldable pub read_stream_chunks : {S : Type 0} → Session S → MacroStream → Call S (List ℕ)
read_stream_chunks session stream = do
  let ps = stream.profile_slot.get - 1
  model ← lift session.model
  gamepad_mode ← lift (model.macro_gamepad_mode stream.mode)
  let data_bytes = stream.step_count * step_len
  total_len ← lift (ok_or (try_u16 data_bytes) decode)
  let flash_base = stream.macro_slot.get * macro_erase_len
  result ← read_chunks session ps gamepad_mode total_len (stream_chunks flash_base data_bytes) []
  lift (ok (take data_bytes result))

unfoldable pub select_current_bank : {S : Type 0} → Session S → Call S (Unit {0})
select_current_bank session = do
  model ← lift session.model
  value ← lift (model.slot_select_value session.current_mode)
  resp ← session.send_recv (build_slot_select value)
  lift (ok tt)
