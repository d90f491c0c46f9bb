-- ===== src/Protocol/WireWrite.antt =====
-- crates/controller-core/src/protocol/wire_write.rs: the packets of the write commands, and the
-- checks of their responses.
pub mod Padding
pub mod Packets
pub mod Responses
use b.Shared.{
  ℕ, zero, suc, ◌+◌, ◌-◌, ◌*◌, ◌%◌, min, ltb, leb, ◌==◌, ◌&&◌, not, if◌then◌else◌, List, [], ◌∷◌,
  Bool, true, false, Option, none, some, length, take, replicate, set, Error, decode, Result, ok,
  err, ◌>>=◌, ◌>>◌, refuse_if,
}
use b.Protocol.Bytes.{get_range, splice, to_le_bytes_u16, read_u16_le, take_bytes, slice}
use b.Protocol.Crc16.{crc16_modbus}
use b.Protocol.Framing.{packet_len}

abbrev pub payload_offset : ℕ
payload_offset = 18

abbrev pub macro_chunk_len : ℕ
macro_chunk_len = 32

abbrev pub macro_page_len : ℕ
macro_page_len = 0x1000

abbrev pub cmd_profile_write : ℕ
cmd_profile_write = 0x01

abbrev pub cmd_write_macro : ℕ
cmd_write_macro = 0x03

abbrev pub cmd_erase_macro : ℕ
cmd_erase_macro = 0x04

abbrev pub cmd_apply : ℕ
cmd_apply = 0x06

abbrev pub off_chunk_size : ℕ
off_chunk_size = 6

abbrev pub off_crc : ℕ
off_crc = 8

abbrev pub off_sig_or_total : ℕ
off_sig_or_total = 10

abbrev pub off_flash_offset : ℕ
off_flash_offset = 14

unfoldable pub header : ℕ → ℕ → List ℕ
header cmd sub = let p = replicate packet_len 0 in set (set (set (set p 0 0x81) 1 0x04) 2 cmd) 3 sub

-- `if let Some(dst) = p.get_mut(at..at + len) { dst.copy_from_slice(src) }`, with `len` bytes in `src`
unfoldable pub copy_into : List ℕ → ℕ → ℕ → List ℕ → List ℕ
copy_into p at len src =
    if leb at (at + len) && leb (at + len) (length p) then splice p at src else p

unfoldable pub put16 : List ℕ → ℕ → ℕ → List ℕ
unfolding copy_into
put16 p off value = copy_into p off 2 (to_le_bytes_u16 value)

unfoldable pub put_payload : List ℕ → ℕ → List ℕ → ℕ → List ℕ
unfolding copy_into
put_payload p at chunk max_len =
    let len = min (min (length chunk) max_len) (packet_len - at) in
    copy_into p at len (take len chunk)

-- The checksum of `wire[18..18+len]`, or of nothing when that passes the end.
unfoldable pub window_crc : List ℕ → ℕ → ℕ
window_crc p len = elim (get_range p payload_offset (payload_offset + len)) [
  | none ↦ crc16_modbus []
  | some window ↦ crc16_modbus window
]

unfoldable pub stamp_crc : List ℕ → ℕ → List ℕ
unfolding put16 window_crc
stamp_crc p len = put16 p off_crc (window_crc p len)

abbrev pub len_u16 : ℕ → ℕ
len_u16 len = if leb len 65535 then len else 65535

unfoldable pub build_write_packet : ℕ → List ℕ → ℕ → List ℕ
unfolding header put16 put_payload stamp_crc
build_write_packet offset chunk blob_size =
    let p0 = header cmd_profile_write 0x00 in
    let p1 = put16 p0 off_chunk_size (len_u16 (length chunk)) in
    let p2 = put16 p1 off_sig_or_total blob_size in
    let p3 = put16 p2 off_flash_offset offset in
    let p4 = put_payload p3 payload_offset chunk packet_len in stamp_crc p4 (length chunk)

unfoldable pub build_apply : ℕ → List ℕ
unfolding header put16
build_apply argument = put16 (header cmd_apply 0x00) 4 argument

unfoldable pub build_erase_macro : ℕ → ℕ → ℕ → ℕ → List ℕ
unfolding header put16
build_erase_macro cmd_mode profile_slot0 gamepad_mode macro_slot =
    let p0 = header cmd_erase_macro cmd_mode in
    let p1 = set (set p0 4 profile_slot0) 5 gamepad_mode in
    let p2 = put16 p1 off_chunk_size macro_page_len in
    put16 p2 off_flash_offset (macro_slot * macro_page_len % 65536)

unfoldable pub build_write_macro : ℕ → ℕ → ℕ → List ℕ → ℕ → ℕ → List ℕ
unfolding header put16 put_payload stamp_crc
build_write_macro cmd_mode profile_slot0 gamepad_mode chunk offset total_len =
    let p0 = header cmd_write_macro cmd_mode in
    let p1 = set (set p0 4 profile_slot0) 5 gamepad_mode in
    let p2 = put16 p1 off_chunk_size (len_u16 macro_chunk_len) in
    let p3 = put16 p2 off_sig_or_total total_len in
    let p4 = put16 p3 off_flash_offset offset in
    let p5 = put_payload p4 payload_offset chunk macro_chunk_len in stamp_crc p5 macro_chunk_len

-- `==` on byte slices.
unfoldable pub same_bytes : List ℕ → List ℕ → Bool
same_bytes [] [] = true
same_bytes [] (y ∷ ys) = false
same_bytes (x ∷ xs) [] = false
same_bytes (x ∷ xs) (y ∷ ys) = x == y && same_bytes xs ys

unfoldable pub check_len : List ℕ → Result (Unit {0})
check_len resp = refuse_if (ltb (length resp) packet_len) decode

unfoldable pub validate_write_response : List ℕ → ℕ → ℕ → Result (Unit {0})
unfolding check_len
validate_write_response resp offset size = do
  check_len resp
  head ← take_bytes resp 0 3
  refuse_if (not (same_bytes head (0x02 ∷ 0x04 ∷ 0x04 ∷ []))) decode
  echo ← take_bytes resp 4 1
  refuse_if (not (same_bytes echo (cmd_profile_write ∷ []))) decode
  echo_size ← read_u16_le resp off_chunk_size
  echo_offset ← read_u16_le resp off_flash_offset
  refuse_if (not (echo_size == size)) decode
  refuse_if (not (echo_offset == offset)) decode
  ok tt

unfoldable pub validate_command_response : List ℕ → ℕ → Result (Unit {0})
unfolding check_len
validate_command_response resp command = do
  check_len resp
  head ← take_bytes resp 0 3
  refuse_if (not (same_bytes head (0x02 ∷ 0x04 ∷ 0x04 ∷ []))) decode
  echo ← take_bytes resp 4 1
  refuse_if (not (same_bytes echo (command ∷ []))) decode
  ok tt

unfoldable pub check_macro_header : List ℕ → ℕ → Result (Unit {0})
unfolding check_len
check_macro_header resp command = do
  check_len resp
  head ← take_bytes resp 0 3
  refuse_if
      (not (same_bytes head (0x02 ∷ 0x04 ∷ 0x04 ∷ []))
        && not (same_bytes head (0x02 ∷ 0x04 ∷ 0x05 ∷ [])))
      decode
  echo ← take_bytes resp 4 1
  refuse_if (not (same_bytes echo (command ∷ []))) decode
  ok tt

unfoldable pub validate_erase_response : List ℕ → Result (Unit {0})
unfolding check_macro_header
validate_erase_response resp = do
  check_macro_header resp cmd_erase_macro
  echo_len ← read_u16_le resp off_chunk_size
  refuse_if (not (echo_len == macro_page_len)) decode
  ok tt

unfoldable pub validate_write_macro_response : List ℕ → Result (Unit {0})
unfolding check_macro_header
validate_write_macro_response resp = check_macro_header resp cmd_write_macro
