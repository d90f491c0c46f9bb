-- ===== src/Protocol/Wire/Requests.antt =====
-- The pad reads back from each read request what the builder was given.
use b.Shared.{
  zero, suc, sym, ◌%◌, ◌/◌, ◌/◌, ◌%◌, sym, ℕ, ◌≤◌, ◌≡◌, refl, ap, ◌∙◌, List, [], ◌∷◌, ◌++◌, length,
  replicate, some, All, arith, min, take-all, length-replicate, ◌-◌,
}
use b.Protocol.Crc16.{crc16_modbus}
use b.Protocol.Bytes.{IsU16, IsByte}
use b.Protocol.Layout.{parse_data}
use b.Protocol.WireWrite.{copy_into, window_crc, payload_offset}
use b.Protocol.Framing.{packet_len}
use b.Protocol.WireWrite.Packets.{data_packet, parse_data-data_packet}
use b.Protocol.WireWrite.Padding.{padded, window_crc-padded, copy_into-padded}
use b.Protocol.Wire.{build_upload_packet, build_read_macro_packet}

build_upload_packet-eq :
    (offset : ℕ) (chunk : List ℕ) (blob_size : ℕ)
    → length chunk ≤ 46
    → build_upload_packet offset chunk blob_size
      ≡ data_packet 2 0 0 0 blob_size offset (length chunk) chunk
unfolding build_upload_packet
build_upload_packet-eq offset chunk blob_size h =
    let len : min (length chunk) (packet_len - payload_offset) ≡ length chunk = omega arith in
    rw len (
      rw (take-all (length chunk) chunk (omega arith), copy_into-padded head chunk refl h)
        (rw (window_crc-padded head chunk refl h)))
  where
    head : List ℕ
    head =
        0x81
        ∷ 0x04
        ∷ 2
        ∷ 0
        ∷ 0
        ∷ 0
        ∷ length chunk % 256
        ∷ length chunk / 256 % 256
        ∷ 0
        ∷ 0
        ∷ blob_size % 256
        ∷ blob_size / 256 % 256
        ∷ 0
        ∷ 0
        ∷ offset % 256
        ∷ offset / 256 % 256
        ∷ 0
        ∷ 0
        ∷ []

-- A `PROFILE_UPLOAD` request reads back as its filler, offset and blob size, for a chunk of at
-- most 46 bytes.
pub parse-build_upload_packet :
    (offset : ℕ) (chunk : List ℕ) (blob_size : ℕ)
    → length chunk ≤ 46
    → All IsByte chunk
    → IsU16 offset
    → IsU16 blob_size
    → parse_data (build_upload_packet offset chunk blob_size)
      ≡ some (record {
        command = 0x02;
        sub = 0;
        slot = 0;
        mode = 0;
        total = blob_size;
        offset = offset;
        bytes = chunk;
      })
parse-build_upload_packet offset chunk blob_size h b o s =
    ap parse_data (build_upload_packet-eq offset chunk blob_size h)
    ∙ parse_data-data_packet 2 0 0 0 blob_size offset chunk h b s o

build_read_macro_packet-eq :
    (slot mode offset total n : ℕ)
    → n ≤ 32
    → build_read_macro_packet slot mode offset total n
      ≡ data_packet 2 1 slot mode total offset n (replicate n 0xCC)
unfolding build_read_macro_packet
build_read_macro_packet-eq slot mode offset total n h = rw (copied, checked)
  where
    fill : List ℕ
    fill = replicate n 0xCC

    head : List ℕ
    head =
        0x81
        ∷ 0x04
        ∷ 2
        ∷ 1
        ∷ slot
        ∷ mode
        ∷ n % 256
        ∷ n / 256 % 256
        ∷ 0
        ∷ 0
        ∷ total % 256
        ∷ total / 256 % 256
        ∷ 0
        ∷ 0
        ∷ offset % 256
        ∷ offset / 256 % 256
        ∷ 0
        ∷ 0
        ∷ []

    len : n ≡ length fill
    len = sym (length-replicate n 0xCC)

    copied : copy_into (head ++ replicate 46 0) 18 n fill ≡ head ++ padded fill
    copied =
        ap (λ (k : ℕ). copy_into (head ++ replicate 46 0) 18 k fill) len
        ∙ copy_into-padded head fill refl (omega (arith, len))

    checked : window_crc (head ++ padded fill) n ≡ crc16_modbus fill
    checked =
        ap (window_crc (head ++ padded fill)) len
        ∙ window_crc-padded head fill refl (omega (arith, len))

pub fill-IsByte : (n : ℕ) → All IsByte (replicate n 0xCC)
fill-IsByte zero = tt
fill-IsByte (suc n) = (omega arith, fill-IsByte n)

-- A macro read request reads back as the slot, the mode byte, the flash offset and the total, for
-- a chunk of at most 32 bytes.
pub parse-build_read_macro_packet :
    (slot mode offset total n : ℕ)
    → n ≤ 32
    → IsU16 offset
    → IsU16 total
    → parse_data (build_read_macro_packet slot mode offset total n)
      ≡ some (record {
        command = 0x02;
        sub = 1;
        slot = slot;
        mode = mode;
        total = total;
        offset = offset;
        bytes = replicate n 0xCC;
      })
parse-build_read_macro_packet slot mode offset total n h o t =
    let len : length (replicate n 0xCC) ≡ n = length-replicate n 0xCC in
    ap parse_data (
      build_read_macro_packet-eq slot mode offset total n h
      ∙ ap (λ (k : ℕ). data_packet 2 1 slot mode total offset k (replicate n 0xCC)) (sym len))
    ∙ parse_data-data_packet 2 1 slot mode total offset (replicate n 0xCC) (omega (arith, len))
        (fill-IsByte n) t o
