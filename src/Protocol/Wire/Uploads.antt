-- ===== src/Protocol/Wire/Uploads.antt =====
-- Exactly which responses carry data, and which data.
use b.Shared.{ℕ, ◌+◌, ◌≤◌, ◌≡◌, ◌↔◌, List, [], ◌∷◌, length, take, drop, arith, ok}
use b.Protocol.Bytes.{take_bytes, read_u16_le}
use b.Protocol.Bytes.Fields.{read_u16_le-err, Fits, take_bytes-ok, take_bytes-err, read_u16_le-ok}
use b.Protocol.Layout.{word_at}
use b.Protocol.WireWrite.Responses.{same_bytes_iff}
use b.Protocol.Wire.{decode_upload_response, decode_read_macro_response}

record Readable (resp : List ℕ) : Type 0 where
  head : take_bytes resp 0 3 ≡ ok (take 3 resp)
  echo : take_bytes resp 4 1 ≡ ok (take 1 (drop 4 resp))
  echo2 : take_bytes resp 4 2 ≡ ok (take 2 (drop 4 resp))
  size : read_u16_le resp 6 ≡ ok (word_at resp 6)
  total : read_u16_le resp 10 ≡ ok (word_at resp 10)
  offset : read_u16_le resp 14 ≡ ok (word_at resp 14)

readable : (resp : List ℕ) → Fits resp → 16 ≤ length resp → Readable resp
readable resp f h = record {
  head = take_bytes-ok resp 0 3 f (omega arith);
  echo = take_bytes-ok resp 4 1 f (omega arith);
  echo2 = take_bytes-ok resp 4 2 f (omega arith);
  size = read_u16_le-ok resp 6 f (omega arith);
  total = read_u16_le-ok resp 10 f (omega arith);
  offset = read_u16_le-ok resp 14 f (omega arith);
}

-- An upload response gives `bytes` exactly when it begins `02 04 04`, echoes the command, the
-- offset and the size, and `bytes` are its `size` bytes from 18 on. A response shorter than a packet
-- is accepted too, as long as it holds those bytes.
pub decode_upload_response_iff :
    (resp : List ℕ) (offset size : ℕ) (bytes : List ℕ)
    → Fits resp
    → (decode_upload_response resp offset size ≡ ok bytes) ↔ (
        (18 + size ≤ length resp)
        × (take 3 resp ≡ 0x02 ∷ 0x04 ∷ 0x04 ∷ [])
        × (take 1 (drop 4 resp) ≡ 0x02 ∷ [])
        × (word_at resp 6 ≡ size)
        × (word_at resp 14 ≡ offset)
        × (take size (drop 18 resp) ≡ bytes))
unfolding decode_upload_response
decode_upload_response_iff resp offset size bytes f = ground (
  arith,
  readable resp f,
  read_u16_le-err resp 14,
  same_bytes_iff (take 3 resp) (0x02 ∷ 0x04 ∷ 0x04 ∷ []),
  same_bytes_iff (take 1 (drop 4 resp)) (0x02 ∷ []),
  take_bytes-ok resp 18 size f,
  take_bytes-err resp 18 size,
)

-- A macro read response gives `bytes` exactly when it has at least 64 bytes, begins `02 04 04`,
-- echoes `02 01`, the total and the offset, and holds `bytes` from 18 on, as many as it says.
pub decode_read_macro_response_iff :
    (resp : List ℕ) (offset total : ℕ) (bytes : List ℕ)
    → Fits resp
    → (decode_read_macro_response resp offset total ≡ ok bytes) ↔ (
        (64 ≤ length resp)
        × (18 + word_at resp 6 ≤ length resp)
        × (take 3 resp ≡ 0x02 ∷ 0x04 ∷ 0x04 ∷ [])
        × (take 2 (drop 4 resp) ≡ 0x02 ∷ 0x01 ∷ [])
        × (word_at resp 10 ≡ total)
        × (word_at resp 14 ≡ offset)
        × (take (word_at resp 6) (drop 18 resp) ≡ bytes))
unfolding decode_read_macro_response
decode_read_macro_response_iff resp offset total bytes f = ground (
  arith,
  readable resp f,
  same_bytes_iff (take 3 resp) (0x02 ∷ 0x04 ∷ 0x04 ∷ []),
  same_bytes_iff (take 2 (drop 4 resp)) (0x02 ∷ 0x01 ∷ []),
  take_bytes-ok resp 18 (word_at resp 6) f,
  take_bytes-err resp 18 (word_at resp 6),
)
