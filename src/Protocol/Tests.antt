-- ===== src/Protocol/Tests.antt =====
-- The wire protocol on concrete bytes: crates/controller-core/src/protocol.
use b.Shared.{
  err, decode, inl, inr, ℕ, ◌+◌, ◌*◌, ◌≤◌, ◌<◌, ◌≡◌, ◌≢◌, ◌↔◌, refl, List, [], ◌∷◌, ◌++◌, length,
  take, drop, replicate, get_elem?, some, ok, arith,
}
use b.Protocol.Crc16.{crc16_modbus}
use b.Protocol.Crc16.Detects.{crc16_one_byte}
use b.Protocol.Framing.{plain, wrapped, request, reply, wrapped_in, reply_head}
use b.Protocol.Framing.Layout.{request-wrapped, reply_iff, IsReply, reply-wrapped}
use b.Protocol.Text.{decode_utf16be_name, encode_utf16be_name, encode_utf16}
use b.Protocol.Text.RoundTrip.{IsNameChar, decode-encode_name}
use b.Protocol.Layout.{parse_data, word_at}
use b.Protocol.Wire.{
  build_upload_packet, build_read_macro_packet, decode_upload_response, decode_read_macro_response,
}
use b.Protocol.Wire.Requests.{fill-IsByte, parse-build_upload_packet, parse-build_read_macro_packet}
use b.Protocol.Wire.Uploads.{decode_upload_response_iff, decode_read_macro_response_iff}
use b.Protocol.WireWrite.{
  build_write_packet, build_write_macro, validate_write_response, validate_erase_response,
  validate_write_macro_response,
}
use b.Protocol.WireWrite.Packets.{parse-build_write_packet, parse-build_write_macro}
use b.Protocol.WireWrite.Responses.{
  Echoes, AnswersMacro, validate_write_response_iff, macro_responses_iff,
}

-- `82 82 82`: a chunk
abbrev chunk : List ℕ
chunk = 0x82 ∷ 0x82 ∷ 0x82 ∷ []

abbrev macro_chunk : List ℕ
macro_chunk = replicate 32 0xCC

-- a packet, and a reply to command 7
abbrev packet : List ℕ
packet = 0x81 ∷ 0x04 ∷ 0x07 ∷ replicate 61 0

abbrev answer : List ℕ
answer = 0x02 ∷ 0x04 ∷ 0x04 ∷ 0x00 ∷ 0x07 ∷ replicate 59 1

crc16_one_byte_example : crc16_modbus (1 ∷ 2 ∷ 9 ∷ []) ≢ crc16_modbus (1 ∷ 3 ∷ 9 ∷ [])
crc16_one_byte_example =
    crc16_one_byte (1 ∷ []) (9 ∷ []) 2 3 (omega arith, tt) (omega arith, tt) (omega arith)
      (omega arith) (omega arith)

request-wrapped_example :
    (take 3 (request wrapped packet) ≡ 0x01 ∷ 0x66 ∷ 0xAA ∷ [])
    × (get_elem? (request wrapped packet) (3 + 1) ≡ get_elem? packet (1 + 1))
request-wrapped_example = request-wrapped packet 1 refl (omega arith)

answered : reply plain answer packet ≡ some answer
unfolding reply
answered = refl

reply_iff_example :
    (reply wrapped (0x81 ∷ 0x66 ∷ 0xA5 ∷ drop 2 answer) packet ≡ some answer)
    ↔ IsReply wrapped (0x81 ∷ 0x66 ∷ 0xA5 ∷ drop 2 answer) packet answer
reply_iff_example = reply_iff wrapped (0x81 ∷ 0x66 ∷ 0xA5 ∷ drop 2 answer) packet answer

reply-wrapped_example :
    reply wrapped (wrapped_in ++ take 61 (drop 2 answer)) packet
    ≡ some (reply_head ++ (take 61 (drop 2 answer) ++ (0 ∷ [])))
reply-wrapped_example = reply-wrapped (drop 2 answer) packet refl refl

letter : (c : ℕ) → 0 < c → c < 0xD800 → IsNameChar c
letter c h k = (h, omega arith, inl k)

name_fits : 2 * length (encode_utf16 (65 ∷ 0x1F3AE ∷ [])) ≤ 8
unfolding encode_utf16
name_fits = omega arith

decode-encode_name_example :
    (decode_utf16be_name (encode_utf16be_name (65 ∷ 0x1F3AE ∷ []) 8) ≡ 65 ∷ 0x1F3AE ∷ [])
    × (length (encode_utf16be_name (65 ∷ 0x1F3AE ∷ []) 8) ≡ 8)
decode-encode_name_example =
    decode-encode_name (65 ∷ 0x1F3AE ∷ []) 8
      (letter 65 (omega arith) (omega arith), ((omega arith, omega arith, inr (omega arith)), tt))
      name_fits

parse-build_write_packet_example :
    parse_data (build_write_packet 90 chunk 2348)
    ≡ some (record {
      command = 0x01;
      sub = 0;
      slot = 0;
      mode = 0;
      total = 2348;
      offset = 90;
      bytes = chunk;
    })
parse-build_write_packet_example =
    parse-build_write_packet 90 chunk 2348 (omega arith)
      (omega arith, (omega arith, (omega arith, tt))) (omega arith) (omega arith)

parse-build_write_macro_example :
    parse_data (build_write_macro 1 0 2 macro_chunk 0x1000 0x1020)
    ≡ some (record {
      command = 0x03;
      sub = 1;
      slot = 0;
      mode = 2;
      total = 0x1020;
      offset = 0x1000;
      bytes = macro_chunk;
    })
parse-build_write_macro_example =
    parse-build_write_macro 1 0 2 macro_chunk 0x1000 0x1020 refl (fill-IsByte 32) (omega arith)
      (omega arith)

parse-build_upload_packet_example :
    parse_data (build_upload_packet 45 chunk 2348)
    ≡ some (record {
      command = 0x02;
      sub = 0;
      slot = 0;
      mode = 0;
      total = 2348;
      offset = 45;
      bytes = chunk;
    })
parse-build_upload_packet_example =
    parse-build_upload_packet 45 chunk 2348 (omega arith)
      (omega arith, (omega arith, (omega arith, tt))) (omega arith) (omega arith)

parse-build_read_macro_packet_example :
    parse_data (build_read_macro_packet 0 2 0x1000 320 32)
    ≡ some (record {
      command = 0x02;
      sub = 1;
      slot = 0;
      mode = 2;
      total = 320;
      offset = 0x1000;
      bytes = replicate 32 0xCC;
    })
parse-build_read_macro_packet_example =
    parse-build_read_macro_packet 0 2 0x1000 320 32 (omega arith) (omega arith) (omega arith)

validate_write_response_iff_example :
    ((validate_write_response answer 0 45 ≡ ok tt) ↔ Echoes answer 0 45)
    × ((validate_write_response answer 0 45 ≡ err decode) ↔ (¬ Echoes answer 0 45))
validate_write_response_iff_example = validate_write_response_iff answer 0 45 (omega arith)

macro_responses_iff_example :
    ((validate_erase_response answer ≡ ok tt)
      ↔ (AnswersMacro answer 0x04 × (word_at answer 6 ≡ 0x1000)))
    × ((validate_write_macro_response answer ≡ ok tt) ↔ AnswersMacro answer 0x03)
macro_responses_iff_example = macro_responses_iff answer (omega arith)

-- 20 bytes, shorter than a packet, that carry the bytes 8 and 9 from offset 0
abbrev short_answer : List ℕ
short_answer = 2 ∷ 4 ∷ 4 ∷ 0 ∷ 2 ∷ 0 ∷ 2 ∷ 0 ∷ replicate 10 0 ++ (8 ∷ 9 ∷ [])

decode_upload_response_iff_example : (decode_upload_response short_answer 0 2 ≡ ok (8 ∷ 9 ∷ [])) ↔ (
    (18 + 2 ≤ length short_answer)
    × (take 3 short_answer ≡ 0x02 ∷ 0x04 ∷ 0x04 ∷ [])
    × (take 1 (drop 4 short_answer) ≡ 0x02 ∷ [])
    × (word_at short_answer 6 ≡ 2)
    × (word_at short_answer 14 ≡ 0)
    × (take 2 (drop 18 short_answer) ≡ 8 ∷ 9 ∷ []))
decode_upload_response_iff_example =
    decode_upload_response_iff short_answer 0 2 (8 ∷ 9 ∷ []) (omega arith)

decode_read_macro_response_iff_example :
    (decode_read_macro_response short_answer 0 2 ≡ ok (8 ∷ 9 ∷ [])) ↔ (
      (64 ≤ length short_answer)
      × (18 + word_at short_answer 6 ≤ length short_answer)
      × (take 3 short_answer ≡ 0x02 ∷ 0x04 ∷ 0x04 ∷ [])
      × (take 2 (drop 4 short_answer) ≡ 0x02 ∷ 0x01 ∷ [])
      × (word_at short_answer 10 ≡ 2)
      × (word_at short_answer 14 ≡ 0)
      × (take (word_at short_answer 6) (drop 18 short_answer) ≡ 8 ∷ 9 ∷ []))
decode_read_macro_response_iff_example =
    decode_read_macro_response_iff short_answer 0 2 (8 ∷ 9 ∷ []) (omega arith)
