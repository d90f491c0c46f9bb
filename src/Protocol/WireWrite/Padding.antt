-- ===== src/Protocol/WireWrite/Padding.antt =====
-- The data of a packet, zero padded, and the checksum over it.
use b.Shared.{
  ap, ◌∙◌, ℕ, ◌+◌, ◌-◌, ◌≤◌, ◌≡◌, refl, List, ◌++◌, length, take, drop, replicate, some, min, arith,
  le→leb, take-all, take-length_append, drop-length_append, length-append, length-drop,
}
use b.Protocol.Bytes.{get_range, splice, to_le_bytes_u16}
use b.Protocol.Crc16.{crc16_modbus}
use b.Protocol.WireWrite.{copy_into, put16, put_payload, window_crc, stamp_crc, packet_len}

get_range-some :
    (buf : List ℕ) (off n : ℕ)
    → off + n ≤ length buf
    → get_range buf off (off + n) ≡ some (take n (drop off buf))
get_range-some buf off n h =
    let e : (off + n) - off ≡ n = omega arith in
    rw (le→leb off (off + n) (omega arith), le→leb (off + n) (length buf) h, e)

copy_into-splice :
    (p : List ℕ) (off len : ℕ) (src : List ℕ)
    → off + len ≤ length p
    → copy_into p off len src ≡ splice p off src
unfolding copy_into
copy_into-splice p off len src h =
    rw (le→leb off (off + len) (omega arith), le→leb (off + len) (length p) h)

put16-splice :
    (p : List ℕ) (off v : ℕ) → off + 2 ≤ length p → put16 p off v ≡ splice p off (to_le_bytes_u16 v)
put16-splice p off v h = unfold put16 in (copy_into-splice p off 2 (to_le_bytes_u16 v) h)

-- The data of a packet, zero padded from byte 18 to the end.
abbrev pub padded : List ℕ → List ℕ
padded chunk = chunk ++ drop (length chunk) (replicate 46 0)

pub length-padded : (chunk : List ℕ) → length chunk ≤ 46 → length (padded chunk) ≡ 46
length-padded chunk h = omega (
  arith,
  length-append chunk (drop (length chunk) (replicate 46 0)),
  length-drop (length chunk) (replicate {A = ℕ} 46 0),
)

pub copy_into-padded :
    (head chunk : List ℕ)
    → length head ≡ 18
    → length chunk ≤ 46
    → copy_into (head ++ replicate 46 0) 18 (length chunk) chunk ≡ head ++ padded chunk
copy_into-padded head chunk h k =
    let whole : length (head ++ replicate {A = ℕ} 46 0) ≡ 64 =
      omega (arith, length-append head (replicate {A = ℕ} 46 0)) in
    copy_into-splice (head ++ replicate 46 0) 18 (length chunk) chunk (omega arith)
    ∙ rw (
      take-length_append 18 head (replicate 46 0) (omega arith),
      drop-length_append 18 head (replicate 46 0) (omega arith),
    )

pub put_payload-padded :
    (head chunk : List ℕ) (max_len : ℕ)
    → length head ≡ 18
    → length chunk ≤ 46
    → length chunk ≤ max_len
    → put_payload (head ++ replicate 46 0) 18 chunk max_len ≡ head ++ padded chunk
unfolding put_payload
put_payload-padded head chunk max_len h k l =
    let len : min (min (length chunk) max_len) (packet_len - 18) ≡ length chunk = omega arith in
    rw (len, put_payload)
      (ap (copy_into (head ++ replicate 46 0) 18 (length chunk))
          (take-all (length chunk) chunk (omega arith))
        ∙ copy_into-padded head chunk h k)

pub window_crc-padded :
    (head chunk : List ℕ)
    → length head ≡ 18
    → length chunk ≤ 46
    → window_crc (head ++ padded chunk) (length chunk) ≡ crc16_modbus chunk
unfolding window_crc
window_crc-padded head chunk h k =
    let whole : length (head ++ padded chunk) ≡ 64 =
      omega (arith, length-append head (padded chunk), length-padded chunk k) in
    rw (get_range-some (head ++ padded chunk) 18 (length chunk) (omega arith), window_crc)
      (rw (
        drop-length_append 18 head (padded chunk) (omega arith),
        take-length_append (length chunk) chunk (drop (length chunk) (replicate 46 0)) refl,
      ))

stamp_crc-eq : (p : List ℕ) (len : ℕ) → stamp_crc p len ≡ put16 p 8 (window_crc p len)
unfolding stamp_crc
stamp_crc-eq p len = refl

pub stamp_crc-padded :
    (head chunk : List ℕ)
    → length head ≡ 18
    → length chunk ≤ 46
    → stamp_crc (head ++ padded chunk) (length chunk)
      ≡ splice (head ++ padded chunk) 8 (to_le_bytes_u16 (crc16_modbus chunk))
stamp_crc-padded head chunk h k =
    let whole : length (head ++ padded chunk) ≡ 64 =
      omega (arith, length-append head (padded chunk), length-padded chunk k) in
    stamp_crc-eq (head ++ padded chunk) (length chunk)
    ∙ ap (put16 (head ++ padded chunk) 8) (window_crc-padded head chunk h k)
    ∙ put16-splice (head ++ padded chunk) 8 (crc16_modbus chunk) (omega arith)
