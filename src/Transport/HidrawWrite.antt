-- ===== src/Transport/HidrawWrite.antt =====
-- crates/controller-core/src/transport/hidraw_write.rs: the write operations on an open session.
pub mod Flash
pub mod Chunks
pub mod Profile
pub mod Patch
pub mod Failures
use b.Shared.{
  ℕ, zero, suc, ◌+◌, ◌-◌, ◌*◌, ◌/◌, List, [], ◌∷◌, length, take, drop, some, Error, write, decode,
  Result, ok, ok_or,
}
use b.Model.Mode.{Mode}
use b.Model.Slot.{Slot}
use b.Model.MacroSlot.{MacroSlot}
use b.Protocol.Bytes.{take_bytes}
use b.Protocol.Wire.{build_slot_select, build_query_status}
use b.Protocol.WireWrite.{
  build_write_packet, build_apply, build_erase_macro, build_write_macro, validate_write_response,
  validate_command_response, validate_erase_response, validate_write_macro_response,
  macro_chunk_len,
}
use b.Transport.WriteInput.{
  check_profile_blob, check_patch, check_macro_stream, macro_flash_base, macro_total_len,
  plan_profile_chunks, patch_packets, try_u16, write_error,
}
use b.Transport.Commands.{Session, Call, ◌>>=◌, ◌>>◌, lift, map_err}

abbrev pub macro_cmd_mode : ℕ
macro_cmd_mode = 0x01

abbrev pub chunk_failure : ℕ → ℕ → Error → Error
chunk_failure index total cause = write (some index) total

unfoldable pub len_u16 : ℕ → Result ℕ
len_u16 len = ok_or (try_u16 len) write_error

unfoldable pub exchange :
    {S : Type 0} → Session S → List ℕ → (List ℕ → Result (Unit {0})) → Call S (Unit {0})
exchange session packet validate = do resp ← session.send_recv packet; lift (validate resp)

-- One profile chunk: the closure `send` of `write_full_profile`.
unfoldable pub send_chunk : {S : Type 0} → Session S → List ℕ → ℕ → ℕ → ℕ → Call S (Unit {0})
unfolding exchange len_u16
send_chunk session blob total_len offset size = do
  chunk ← lift (take_bytes blob offset size)
  size16 ← lift (len_u16 size)
  exchange session (build_write_packet offset chunk total_len)
      (λ r. validate_write_response r offset size16)

unfoldable pub send_chunks :
    {S : Type 0} → Session S → List ℕ → ℕ → ℕ → ℕ → List (ℕ × ℕ) → Call S (Unit {0})
send_chunks session blob total_len total i [] = lift (ok tt)
send_chunks session blob total_len total i ((offset, size) ∷ chunks) =
    map_err (chunk_failure i total) (send_chunk session blob total_len offset size)
    >> send_chunks session blob total_len total (suc i) chunks

unfoldable pub write_full_profile : {S : Type 0} → Session S → List ℕ → Call S (Unit {0})
unfolding len_u16
write_full_profile session blob = do
  model ← lift session.model
  lift (check_profile_blob blob model.blob_size)
  total_len ← lift (len_u16 model.blob_size)
  let chunks = plan_profile_chunks model.blob_size
  send_chunks session blob total_len (length chunks) 0 chunks

unfoldable pub send_copies : {S : Type 0} → Session S → List ℕ → ℕ → ℕ → ℕ → ℕ → Call S (Unit {0})
unfolding exchange
send_copies session packet offset size i zero = lift (ok tt)
send_copies session packet offset size i (suc left) =
    map_err (chunk_failure i patch_packets)
      (exchange session packet (λ r. validate_write_response r offset size))
    >> send_copies session packet offset size (suc i) left

unfoldable pub write_patch : {S : Type 0} → Session S → ℕ → List ℕ → Call S (Unit {0})
unfolding send_copies len_u16
write_patch session offset bytes = do
  lift (check_patch bytes)
  size ← lift (len_u16 (length bytes))
  model ← lift session.model
  blob_size ← lift (len_u16 model.blob_size)
  send_copies session (build_write_packet offset bytes blob_size) offset size 0 patch_packets

-- `rejected` on a decode error; any other error as it is
abbrev pub rejected : Error → Error
rejected decode = write_error
rejected e = e

unfoldable pub command : {S : Type 0} → Session S → List ℕ → ℕ → Call S (Unit {0})
unfolding exchange
command session packet echo =
    map_err rejected (exchange session packet (λ r. validate_command_response r echo))

unfoldable pub send_slot_select : {S : Type 0} → Session S → Mode → Call S (Unit {0})
unfolding command
send_slot_select session mode = do
  model ← lift session.model
  value ← lift (model.slot_select_value mode)
  command session (build_slot_select value) 0x14

unfoldable pub send_apply : {S : Type 0} → Session S → Call S (Unit {0})
unfolding command
send_apply session = do
  model ← lift session.model
  command session (build_apply model.apply_argument) 0x06

unfoldable pub query_status : {S : Type 0} → Session S → Call S (Unit {0})
unfolding command
query_status session = command session build_query_status 0x07

-- `saturating_sub`
abbrev pub profile_slot0 : Slot → ℕ
profile_slot0 s = s.get - 1

unfoldable pub erase_macro : {S : Type 0} → Session S → Mode → Slot → MacroSlot → Call S (Unit {0})
unfolding exchange
erase_macro session mode profile_slot macro_slot = do
  model ← lift session.model
  gamepad_mode ← lift (model.macro_gamepad_mode mode)
  let packet =
      build_erase_macro macro_cmd_mode (profile_slot0 profile_slot) gamepad_mode macro_slot.get
  map_err rejected (exchange session packet validate_erase_response)

-- `u16::checked_add`
abbrev pub checked_add_u16 : ℕ → ℕ → Result ℕ
checked_add_u16 a b = ok_or (try_u16 (a + b)) write_error

-- One macro chunk: the closure `send` of `write_macro_stream`.
unfoldable pub send_macro_chunk :
    {S : Type 0} → Session S → ℕ → ℕ → ℕ → ℕ → ℕ → List ℕ → Call S (Unit {0})
unfolding exchange len_u16
send_macro_chunk session slot0 gamepad_mode base total_len i chunk = do
  start ← lift (len_u16 (i * macro_chunk_len))
  offset ← lift (checked_add_u16 start base)
  exchange session (build_write_macro macro_cmd_mode slot0 gamepad_mode chunk offset total_len)
      validate_write_macro_response

-- `stream.chunks(32)`, with one piece for each 32 bytes, rounded up.
unfoldable pub chunks_from : List ℕ → ℕ → List (List ℕ)
chunks_from stream zero = []
chunks_from stream (suc n) =
    take macro_chunk_len stream ∷ chunks_from (drop macro_chunk_len stream) n

unfoldable pub send_macro_chunks :
    {S : Type 0} → Session S → ℕ → ℕ → ℕ → ℕ → ℕ → ℕ → List (List ℕ) → Call S (Unit {0})
send_macro_chunks session slot0 gamepad_mode base total_len total i [] = lift (ok tt)
send_macro_chunks session slot0 gamepad_mode base total_len total i (chunk ∷ chunks) =
    map_err (chunk_failure i total)
      (send_macro_chunk session slot0 gamepad_mode base total_len i chunk)
    >> send_macro_chunks session slot0 gamepad_mode base total_len total (suc i) chunks

unfoldable pub write_macro_stream :
    {S : Type 0} → Session S → Mode → Slot → MacroSlot → List ℕ → Call S (Unit {0})
write_macro_stream session mode profile_slot macro_slot stream = do
  lift (check_macro_stream stream macro_slot)
  total_len ← lift (macro_total_len (length stream) macro_slot)
  base ← lift (macro_flash_base macro_slot)
  model ← lift session.model
  gamepad_mode ← lift (model.macro_gamepad_mode mode)
  erase_macro session mode profile_slot macro_slot
  send_macro_chunks session (profile_slot0 profile_slot) gamepad_mode base total_len
      (length stream / macro_chunk_len) 0
      (chunks_from stream ((length stream + macro_chunk_len - 1) / macro_chunk_len))
