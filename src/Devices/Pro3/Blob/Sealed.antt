-- ===== src/Devices/Pro3/Blob/Sealed.antt =====
-- crates/controller-core/src/devices/pro3/profile.rs: `seal_crc` and the checksum field.
use b.Shared.{
  subst, Gives->>=, ℕ, zero, suc, ◌+◌, ◌≤◌, ◌^◌, ◌*◌, ◌/◌, ◌%◌, ◌≡◌, refl, sym, ap, ◌∙◌, List, [],
  ◌∷◌, length, Result, ok, arith, ◌>>=◌, Gives,
}
use b.Protocol.Bytes.{read_u16_le, put_u16_le, put_u32_le, splice, to_le_bytes_u16, to_le_bytes_u32}
use b.Protocol.Bytes.Fields.{Fits, put_slice-ok, slice-ok}
use b.Protocol.Bytes.Windows.{length-splice, window-splice_self}
use b.Protocol.Bytes.Frames.{Region, Framed}
use b.Protocol.Crc16.{crc16_modbus}
use b.Devices.Pro3.Blob.{seal_crc}

-- Zeros, then two bytes, then zeros in the same place: the zeros stay.
splice_again :
    (buf : List ℕ) (off c : ℕ)
    → off + 4 ≤ length buf
    → splice
        (splice (splice buf off (to_le_bytes_u32 0)) off (to_le_bytes_u16 c))
        off
        (to_le_bytes_u32 0)
      ≡ splice buf off (to_le_bytes_u32 0)
splice_again [] off c h = absurd (omega arith)
splice_again (x ∷ buf) (suc off) c h = ap (λ l. x ∷ l) (splice_again buf off c (omega arith))
splice_again (x ∷ []) zero c h = absurd (omega arith)
splice_again (x ∷ y ∷ []) zero c h = absurd (omega arith)
splice_again (x ∷ y ∷ z ∷ []) zero c h = absurd (omega arith)
splice_again (x ∷ y ∷ z ∷ w ∷ buf) zero c h = refl

-- A blob of the right size whose checksum field holds the checksum of the blob with the field's four bytes at zero.
abbrev pub IsSealed : List ℕ → Type 0
IsSealed blob =
    (length blob ≡ 2348)
    × (zeroed : List ℕ) × (put_u32_le blob 12 0 ≡ ok zeroed)
    × (read_u16_le blob 12 ≡ ok (crc16_modbus zeroed % 2 ^ 16))

module _ (buf : List ℕ) (fits : Fits buf) where
  abbrev zeroed : List ℕ
  zeroed = splice buf 12 (to_le_bytes_u32 0)

  abbrev sealed : List ℕ
  sealed = splice zeroed 12 (to_le_bytes_u16 (crc16_modbus zeroed))

  module _ (long : 16 ≤ length buf) where
    length-zeroed : length zeroed ≡ length buf
    length-zeroed = length-splice buf 12 (to_le_bytes_u32 0) long

    length-sealed : length sealed ≡ length buf
    length-sealed =
        length-splice zeroed 12 (to_le_bytes_u16 (crc16_modbus zeroed))
          (omega (arith, length-zeroed))
        ∙ length-zeroed

    seal_crc-eq : seal_crc buf ≡ ok sealed
    unfolding seal_crc put_u32_le put_u16_le
    seal_crc-eq = rw (
      put_slice-ok buf 12 (to_le_bytes_u32 0) fits long,
      put_slice-ok zeroed 12 (to_le_bytes_u16 (crc16_modbus zeroed)) (omega (arith, length-zeroed))
          (omega (arith, length-zeroed)),
    )

    sealed-field :
        (zeros : List ℕ) × (put_u32_le sealed 12 0 ≡ ok zeros)
        × (read_u16_le sealed 12 ≡ ok (crc16_modbus zeros % 2 ^ 16))
    unfolding put_u32_le read_u16_le
    sealed-field =
        let crc : ℕ = crc16_modbus zeroed in
        let value : crc % 256 + crc / 256 % 256 * 256 ≡ crc % 2 ^ 16 = omega arith in
        (
          zeroed,
          put_slice-ok sealed 12 (to_le_bytes_u32 0) (omega (arith, length-sealed))
                (omega (arith, length-sealed))
              ∙ ap ok (splice_again buf 12 (crc16_modbus zeroed) long),
          rw
              (
                slice-ok 2 sealed 12 (omega (arith, length-sealed)) (omega (arith, length-sealed)),
                window-splice_self zeroed 12 (to_le_bytes_u16 crc) (omega (arith, length-zeroed)),
              )
              (ap ok value),
        )

pub seal_crc-IsSealed : (buf : List ℕ) → length buf ≡ 2348 → Gives IsSealed (seal_crc buf)
seal_crc-IsSealed buf size out run =
    let fits : Fits buf = omega arith in
    let long : 16 ≤ length buf = omega arith in
    let same : sealed buf fits ≡ out = ok-injective (sym (seal_crc-eq buf fits long) ∙ run) in
    let (zeros, zeroing, reading) = sealed-field buf fits long in
    subst IsSealed same (length-sealed buf fits long ∙ size, zeros, zeroing, reading)
  where
    ok-injective : {a c : List ℕ} → ok a ≡ ok c → a ≡ c
    ok-injective e = cc

-- Writes, then a computation that seals.
pub IsSealed->>= :
    (rs : List Region) (buf : List ℕ) (m : Result (List ℕ)) (f : List ℕ → Result (List ℕ))
    → Framed rs buf m
    → length buf ≡ 2348
    → ((mid : List ℕ) → length mid ≡ 2348 → Gives IsSealed (f mid))
    → Gives IsSealed (m >>= f)
IsSealed->>= rs buf m f framed size h =
    Gives->>= IsSealed m f
      (λ mid e. let frame = framed (omega arith) mid e in h mid (frame.same_length ∙ size))
