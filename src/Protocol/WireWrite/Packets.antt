-- ===== src/Protocol/WireWrite/Packets.antt =====
-- The pad reads back from each packet what the builder was given.
use b.Protocol.WireWrite.Padding.{padded, length-padded, put_payload-padded, stamp_crc-padded}
use b.Shared.{
  ◌*◌, All, ◌/◌, ==_refl, ap, ◌∙◌, ℕ, ◌+◌, ◌/◌, ◌%◌, ◌≤◌, ◌≡◌, refl, List, [], ◌∷◌, ◌++◌, length,
  drop, replicate, some, arith, take-length_append,
}
use b.Protocol.Layout.{parse_data}
use b.Protocol.Bytes.{IsByte, IsU16}
use b.Protocol.Crc16.Detects.{crc16_modbus-IsU16}
use b.Protocol.Crc16.{crc16_modbus}
use b.Protocol.WireWrite.{build_write_macro, stamp_crc, build_write_packet, len_u16}

-- A packet with sixteen-bit words in place, the data and its checksum.
abbrev pub data_packet : ℕ → ℕ → ℕ → ℕ → ℕ → ℕ → ℕ → List ℕ → List ℕ
data_packet command sub slot mode total offset size chunk =
    0x81
    ∷ 0x04
    ∷ command
    ∷ sub
    ∷ slot
    ∷ mode
    ∷ size % 256
    ∷ size / 256 % 256
    ∷ crc16_modbus chunk % 256
    ∷ crc16_modbus chunk / 256 % 256
    ∷ total % 256
    ∷ total / 256 % 256
    ∷ 0
    ∷ 0
    ∷ offset % 256
    ∷ offset / 256 % 256
    ∷ 0
    ∷ 0
    ∷ padded chunk

build_write_packet-eq :
    (offset blob_size : ℕ) (chunk : List ℕ)
    → length chunk ≤ 46
    → build_write_packet offset chunk blob_size
      ≡ data_packet 1 0 0 0 blob_size offset (length chunk) chunk
unfolding build_write_packet
build_write_packet-eq offset blob_size chunk h =
    let len : len_u16 (length chunk) ≡ length chunk = ground arith in
    rw len (
      rw (put_payload-padded (head) chunk 64 refl h (omega arith))
        (stamp_crc-padded head chunk refl h))
  where
    head : List ℕ
    head =
        0x81
        ∷ 0x04
        ∷ 1
        ∷ 0
        ∷ 0
        ∷ 0
        ∷ length chunk % 256
        ∷ length chunk / 256 % 256
        ∷ 0
        ∷ 0
        ∷ blob_size % 256
        ∷ blob_size / 256 % 256
        ∷ 0
        ∷ 0
        ∷ offset % 256
        ∷ offset / 256 % 256
        ∷ 0
        ∷ 0
        ∷ []

-- Two bytes of a word, low first, are the word.
word_back : (v : ℕ) → IsU16 v → v % 256 + v / 256 % 256 * 256 ≡ v
word_back v h = omega arith

pub parse_data-data_packet :
    (command sub slot mode total offset : ℕ) (chunk : List ℕ)
    → length chunk ≤ 46
    → All IsByte chunk
    → IsU16 total
    → IsU16 offset
    → parse_data (data_packet command sub slot mode total offset (length chunk) chunk)
      ≡ some (record {
        command = command;
        sub = sub;
        slot = slot;
        mode = mode;
        total = total;
        offset = offset;
        bytes = chunk;
      })
parse_data-data_packet command sub slot mode total offset chunk h b t o =
    let crc : IsU16 (crc16_modbus chunk) = crc16_modbus-IsU16 chunk b in
    rw (
      word_back (length chunk) (omega arith),
      take-length_append (length chunk) chunk (drop (length chunk) (replicate 46 0)) refl,
      length-padded chunk h,
      word_back (crc16_modbus chunk) crc,
      ==_refl (crc16_modbus chunk),
      word_back total t,
      word_back offset o,
    )

-- A `PROFILE_WRITE` packet reads back as the chunk, its offset and the blob size, with a checksum
-- that matches, for a chunk of at most 46 bytes.
pub parse-build_write_packet :
    (offset : ℕ) (chunk : List ℕ) (blob_size : ℕ)
    → length chunk ≤ 46
    → All IsByte chunk
    → IsU16 offset
    → IsU16 blob_size
    → parse_data (build_write_packet offset chunk blob_size)
      ≡ some (record {
        command = 0x01;
        sub = 0;
        slot = 0;
        mode = 0;
        total = blob_size;
        offset = offset;
        bytes = chunk;
      })
parse-build_write_packet offset chunk blob_size h b o s =
    ap parse_data (build_write_packet-eq offset blob_size chunk h)
    ∙ parse_data-data_packet 1 0 0 0 blob_size offset chunk h b s o

build_write_macro-eq :
    (cmd_mode slot mode : ℕ) (chunk : List ℕ) (offset total : ℕ)
    → length chunk ≡ 32
    → build_write_macro cmd_mode slot mode chunk offset total
      ≡ data_packet 3 cmd_mode slot mode total offset (length chunk) chunk
unfolding build_write_macro
build_write_macro-eq cmd_mode slot mode chunk offset total h =
    rw (put_payload-padded head chunk 32 refl (omega arith) (omega arith)) (
      let e : 32 ≡ length chunk = omega arith in
      ap (stamp_crc (head ++ padded chunk)) e
      ∙ stamp_crc-padded head chunk refl (omega arith)
      ∙ rw h)
  where
    head : List ℕ
    head =
        0x81
        ∷ 0x04
        ∷ 3
        ∷ cmd_mode
        ∷ slot
        ∷ mode
        ∷ 32
        ∷ 0
        ∷ 0
        ∷ 0
        ∷ total % 256
        ∷ total / 256 % 256
        ∷ 0
        ∷ 0
        ∷ offset % 256
        ∷ offset / 256 % 256
        ∷ 0
        ∷ 0
        ∷ []

-- A macro write packet reads back as the slot, the mode byte, the chunk of 32 bytes, its flash
-- offset and the total.
pub parse-build_write_macro :
    (cmd_mode slot mode : ℕ) (chunk : List ℕ) (offset total : ℕ)
    → length chunk ≡ 32
    → All IsByte chunk
    → IsU16 offset
    → IsU16 total
    → parse_data (build_write_macro cmd_mode slot mode chunk offset total)
      ≡ some (record {
        command = 0x03;
        sub = cmd_mode;
        slot = slot;
        mode = mode;
        total = total;
        offset = offset;
        bytes = chunk;
      })
parse-build_write_macro cmd_mode slot mode chunk offset total h b o t =
    ap parse_data (build_write_macro-eq cmd_mode slot mode chunk offset total h)
    ∙ parse_data-data_packet 3 cmd_mode slot mode total offset chunk (omega arith) b t o
