-- ===== src/Protocol/Wire.antt =====
-- crates/controller-core/src/protocol/wire.rs: the packets of the read commands, and the responses
-- that carry data.
pub mod Requests
pub mod Uploads
use b.Shared.{
  ℕ, zero, suc, ◌+◌, ◌-◌, min, ltb, leb, ◌==◌, ◌&&◌, ◌||◌, not, if◌then◌else◌, List, [], ◌∷◌, Bool,
  true, false, Option, none, some, length, take, replicate, set, get_or, Error, decode, Result, ok,
  err, ◌>>=◌, ◌>>◌, refuse_if,
}
use b.Protocol.Bytes.{to_le_bytes_u16, read_u16_le, take_bytes}
use b.Protocol.Framing.{packet_len}
use b.Protocol.WireWrite.{payload_offset, copy_into, window_crc, same_bytes, cmd_apply}

-- `p[at] = bytes[0]; p[at + 1] = bytes[1];` of a word's bytes
abbrev pub set_word : List ℕ → ℕ → ℕ → List ℕ
set_word p at v =
    set (set p at (get_or (to_le_bytes_u16 v) 0 0)) (suc at) (get_or (to_le_bytes_u16 v) 1 0)

abbrev pub request_header : ℕ → ℕ → List ℕ
request_header cmd sub = set (set (set (set (replicate packet_len 0) 0 0x81) 1 0x04) 2 cmd) 3 sub

unfoldable pub build_start_config : List ℕ
build_start_config = request_header 0x00 0x01

unfoldable pub build_slot_select : ℕ → List ℕ
build_slot_select slot_select_value =
    set (set (set (request_header 0x14 0x00) 4 slot_select_value) 8 0xFF) 9 0xFF

unfoldable pub build_upload_packet : ℕ → List ℕ → ℕ → List ℕ
unfolding copy_into window_crc
build_upload_packet offset chunk blob_size =
    let len = min (length chunk) (packet_len - payload_offset) in
    let p1 = set_word (request_header 0x02 0x00) 6 len in
    let p2 = set_word p1 10 blob_size in
    let p3 = set_word p2 14 offset in
    let p4 = copy_into p3 payload_offset len (take len chunk) in set_word p4 8 (window_crc p4 len)

unfoldable pub decode_upload_response : List ℕ → ℕ → ℕ → Result (List ℕ)
decode_upload_response resp expected_offset expected_chunk_size = do
  head ← take_bytes resp 0 3
  refuse_if (not (same_bytes head (0x02 ∷ 0x04 ∷ 0x04 ∷ []))) decode
  echo ← take_bytes resp 4 1
  refuse_if (not (same_bytes echo (0x02 ∷ []))) decode
  echo_size ← read_u16_le resp 6
  echo_offset ← read_u16_le resp 14
  refuse_if (not (echo_offset == expected_offset)) decode
  refuse_if (not (echo_size == expected_chunk_size)) decode
  take_bytes resp 18 echo_size

unfoldable pub build_query_status : List ℕ
build_query_status = request_header 0x07 0x00

unfoldable pub build_input_stream : Bool → List ℕ
unfolding build_query_status
build_input_stream resume = set build_query_status 4 (if resume then 1 else 0)

-- The macro read request; `0xCC` fills the data.
unfoldable pub build_read_macro_packet : ℕ → ℕ → ℕ → ℕ → ℕ → List ℕ
unfolding copy_into window_crc
build_read_macro_packet profile_slot gamepad_mode offset total_len chunk_size =
    let p1 = set (set (request_header 0x02 0x01) 4 profile_slot) 5 gamepad_mode in
    let p2 = set_word p1 6 chunk_size in
    let p3 = set_word p2 10 total_len in
    let p4 = set_word p3 14 offset in
    let p5 = copy_into p4 18 chunk_size (replicate chunk_size 0xCC) in
    set_word p5 8 (window_crc p5 chunk_size)

unfoldable pub decode_read_macro_response : List ℕ → ℕ → ℕ → Result (List ℕ)
decode_read_macro_response resp expected_offset expected_total_len = do
  refuse_if (ltb (length resp) packet_len) decode
  head ← take_bytes resp 0 3
  refuse_if (not (same_bytes head (0x02 ∷ 0x04 ∷ 0x04 ∷ []))) decode
  cmd_echo ← take_bytes resp 4 2
  refuse_if (not (same_bytes cmd_echo (0x02 ∷ 0x01 ∷ []))) decode
  echo_size ← read_u16_le resp 6
  echo_total_len ← read_u16_le resp 10
  echo_offset ← read_u16_le resp 14
  refuse_if (not (echo_total_len == expected_total_len)) decode
  refuse_if (not (echo_offset == expected_offset)) decode
  take_bytes resp 18 echo_size
