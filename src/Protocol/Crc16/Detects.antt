-- ===== src/Protocol/Crc16/Detects.antt =====
-- What the checksum detects: the rounds lose nothing, so one damaged byte shows; a message
-- followed by its own checksum, low byte first, leaves 0.
use b.Shared.{
  ℕ, zero, suc, ◌<◌, ◌+◌, ◌*◌, ◌/◌, ◌%◌, ◌^◌, ◌≡◌, ◌≢◌, refl, sym, ap, ◌∙◌, List, [], ◌∷◌, ◌++◌,
  All, bit_xor, arith,
}
use native.Mathlib.Nat.{pow-suc}
use b.Shared.Bits.{bit_xor-lt, bit_xor_cancel, bit_xor_low, bit_xor_top, bit_xor_comm}
use b.Protocol.Crc16.{crc_round, crc_rounds, crc_from, crc16_modbus}
use b.Protocol.Bytes.{IsByte, IsU16, to_le_bytes_u16}

crc_round-IsU16 : (c : ℕ) → IsU16 c → IsU16 (crc_round c)
unfolding crc_round
crc_round-IsU16 c h = ground (arith, bit_xor-lt 16 (c / 2) 0xA001 (omega arith) (omega arith))

crc_rounds-IsU16 : (n c : ℕ) → IsU16 c → IsU16 (crc_rounds n c)
unfolding crc_rounds
crc_rounds-IsU16 zero c h = h
crc_rounds-IsU16 (suc n) c h = crc_rounds-IsU16 n (crc_round c) (crc_round-IsU16 c h)

-- The top bit of the result says which way the round went.
odd_round : (c : ℕ) → IsU16 c → bit_xor (c / 2) 0xA001 ≡ 2 ^ 15 + bit_xor (c / 2) 0x2001
odd_round c h = bit_xor_top 15 (c / 2) 0x2001 (omega arith) (omega arith)

crc_round-injective : (c d : ℕ) → IsU16 c → IsU16 d → crc_round c ≡ crc_round d → c ≡ d
unfolding crc_round
crc_round-injective c d h k e = ground (
  arith,
  odd_round c h,
  odd_round d k,
  bit_xor_cancel 16 (c / 2) 0xA001 (omega arith) (omega arith),
  bit_xor_cancel 16 (d / 2) 0xA001 (omega arith) (omega arith),
)

crc_rounds-injective : (n c d : ℕ) → IsU16 c → IsU16 d → crc_rounds n c ≡ crc_rounds n d → c ≡ d
unfolding crc_rounds
crc_rounds-injective zero c d h k e = e
crc_rounds-injective (suc n) c d h k e = crc_round-injective c d h k (
    crc_rounds-injective n (crc_round c) (crc_round d) (crc_round-IsU16 c h) (crc_round-IsU16 d k)
      e)

-- One byte of input.
abbrev feed : ℕ → ℕ → ℕ
feed c x = crc_rounds 8 (bit_xor c x)

feed-IsU16 : (c x : ℕ) → IsU16 c → IsByte x → IsU16 (feed c x)
feed-IsU16 c x h k = crc_rounds-IsU16 8 (bit_xor c x) (bit_xor-lt 16 c x h (omega arith))

crc_from-IsU16 : (c : ℕ) (bs : List ℕ) → IsU16 c → All IsByte bs → IsU16 (crc_from c bs)
unfolding crc_from
crc_from-IsU16 c [] h k = h
crc_from-IsU16 c (x ∷ bs) h k = crc_from-IsU16 (feed c x) bs (feed-IsU16 c x h k.0) k.1

xor_right_injective : (a x y : ℕ) → IsU16 a → IsU16 x → IsU16 y → bit_xor a x ≡ bit_xor a y → x ≡ y
xor_right_injective a x y h k l e = ground (
  arith,
  bit_xor_comm 16 a x h k,
  bit_xor_comm 16 a y h l,
  bit_xor_cancel 16 x a k h,
  bit_xor_cancel 16 y a l h,
)

crc_from-injective :
    (c d : ℕ) (bs : List ℕ)
    → IsU16 c
    → IsU16 d
    → All IsByte bs
    → crc_from c bs ≡ crc_from d bs
    → c ≡ d
unfolding crc_from
crc_from-injective c d [] h k b e = e
crc_from-injective c d (x ∷ bs) h k b e =
    let f : feed c x ≡ feed d x =
      crc_from-injective (feed c x) (feed d x) bs (feed-IsU16 c x h b.0) (feed-IsU16 d x k b.0) b.1
        e in
    let g : bit_xor c x ≡ bit_xor d x =
      crc_rounds-injective 8 (bit_xor c x) (bit_xor d x) (bit_xor-lt 16 c x h (omega arith))
        (bit_xor-lt 16 d x k (omega arith)) f in
    ground (arith, bit_xor_cancel 16 c x h (omega arith), bit_xor_cancel 16 d x k (omega arith))

crc_from-append : (c : ℕ) (xs ys : List ℕ) → crc_from c (xs ++ ys) ≡ crc_from (crc_from c xs) ys
unfolding crc_from
crc_from-append c [] ys = refl
crc_from-append c (x ∷ xs) ys = crc_from-append (feed c x) xs ys

damage_from :
    (c x y : ℕ) (back : List ℕ)
    → IsU16 c
    → IsByte x
    → IsByte y
    → All IsByte back
    → crc_from c (x ∷ back) ≡ crc_from c (y ∷ back)
    → x ≡ y
unfolding crc_from
damage_from c x y back h k l b e =
    let f : feed c x ≡ feed c y =
      crc_from-injective (feed c x) (feed c y) back (feed-IsU16 c x h k) (feed-IsU16 c y h l) b e in
    xor_right_injective c x y h (omega arith) (omega arith) (
      crc_rounds-injective 8 (bit_xor c x) (bit_xor c y) (bit_xor-lt 16 c x h (omega arith))
        (bit_xor-lt 16 c y h (omega arith)) f)

-- Two messages that differ in exactly one byte have different checksums.
pub crc16_one_byte :
    (front back : List ℕ) (x y : ℕ)
    → All IsByte front
    → All IsByte back
    → IsByte x
    → IsByte y
    → x ≢ y
    → crc16_modbus (front ++ (x ∷ back)) ≢ crc16_modbus (front ++ (y ∷ back))
unfolding crc16_modbus
crc16_one_byte front back x y f b h k ne e = ne (
    damage_from (crc_from 0xFFFF front) x y back (crc_from-IsU16 0xFFFF front (omega arith) f) h k b
      (sym (crc_from-append 0xFFFF front (x ∷ back)) ∙ e ∙ crc_from-append 0xFFFF front (y ∷ back)))

even_rounds : (n h : ℕ) → crc_rounds n (h * 2 ^ n) ≡ h
unfolding crc_rounds
even_rounds zero h = omega arith
even_rounds (suc n) h =
    let e : crc_round (h * 2 ^ suc n) ≡ h * 2 ^ n =
      unfold crc_round in ground (arith, ap (λ (t : ℕ). h * t) (pow-suc 2 n)) in
    ap (crc_rounds n) e ∙ even_rounds n h

self_xor : (h : ℕ) → h < 256 → bit_xor h h ≡ 0
self_xor h k =
    ap (λ (t : ℕ). bit_xor t h) (let e : h ≡ 0 * 2 ^ 8 + h = omega arith in e)
    ∙ bit_xor_low 8 8 0 h (omega arith) k

residue : (c : ℕ) → IsU16 c → crc_from c (to_le_bytes_u16 c) ≡ 0
unfolding crc_from
residue c h =
    let low : bit_xor c (c % 256) ≡ c / 256 * 256 =
      ap (λ (t : ℕ). bit_xor t (c % 256)) (let e : c ≡ c / 256 * 256 + c % 256 = omega arith in e)
      ∙ bit_xor_low 8 8 (c / 256) (c % 256) (omega arith) (omega arith) in
    let first : feed c (c % 256) ≡ c / 256 = ap (crc_rounds 8) low ∙ even_rounds 8 (c / 256) in
    let high : c / 256 % 256 ≡ c / 256 = omega arith in
    rw (first, high, self_xor (c / 256) (omega arith)) (even_rounds 8 0)

-- A message followed by its own checksum, low byte first, has checksum 0: the check that a
-- receiver of Modbus frames makes.
crc16_residue :
    (bs : List ℕ) → All IsByte bs → crc16_modbus (bs ++ to_le_bytes_u16 (crc16_modbus bs)) ≡ 0
unfolding crc16_modbus
crc16_residue bs h =
    let c = crc_from 0xFFFF bs in
    let small : IsU16 c = crc_from-IsU16 0xFFFF bs (omega arith) h in
    crc_from-append 0xFFFF bs (to_le_bytes_u16 c) ∙ residue c small

pub crc16_modbus-IsU16 : (bs : List ℕ) → All IsByte bs → IsU16 (crc16_modbus bs)
unfolding crc16_modbus
crc16_modbus-IsU16 bs h = crc_from-IsU16 0xFFFF bs (omega arith) h
