-- ===== src/Protocol/Text/RoundTrip.antt =====
-- A name that fits its field reads back; a longer one is cut after the last whole unit that fits.
use b.Shared.{
  ℕ, zero, suc, ◌+◌, ◌-◌, ◌*◌, ◌/◌, ◌%◌, ◌≤◌, ◌<◌, ◌≡◌, refl, ap, ◌∙◌, ◌⊎◌, List, [], ◌∷◌, length,
  take, replicate, All, arith, length-replicate, take-all,
}
use b.Protocol.Text.{
  encode_utf16, from_utf16_lossy, units_until_nul, decode_utf16be_name, fill_pairs,
  encode_utf16be_name,
}

-- A character of a Rust string, other than NUL.
abbrev pub IsNameChar : ℕ → Type 0
IsNameChar c = (0 < c) × (c < 0x110000) × ((c < 0xD800) ⊎ (0xE000 ≤ c))

-- A UTF-16 unit other than NUL.
abbrev pub IsUnit : ℕ → Type 0
IsUnit u = (0 < u) × (u < 0x10000)

encode_utf16-IsUnit : (name : List ℕ) → All IsNameChar name → All IsUnit (encode_utf16 name)
unfolding encode_utf16
encode_utf16-IsUnit [] h = tt
encode_utf16-IsUnit (c ∷ cs) h = ground (arith, encode_utf16-IsUnit cs h.1)

lone_step :
    (c : ℕ) (us : List ℕ)
    → (c < 0xD800) ⊎ (0xE000 ≤ c)
    → from_utf16_lossy (c ∷ us) ≡ c ∷ from_utf16_lossy us
unfolding from_utf16_lossy
lone_step c [] h = ground arith
lone_step c (v ∷ us) h = ground arith

pair_step :
    (c : ℕ) (us : List ℕ)
    → 0x10000 ≤ c
    → c < 0x110000
    → from_utf16_lossy ((0xD800 + (c - 0x10000) / 0x400) ∷ ((0xDC00 + (c - 0x10000) % 0x400) ∷ us))
      ≡ c ∷ from_utf16_lossy us
unfolding from_utf16_lossy
pair_step c us h k = ground arith

-- Decoding UTF-16 undoes encoding it.
pub from_utf16_lossy-encode_utf16 :
    (name : List ℕ) → All IsNameChar name → from_utf16_lossy (encode_utf16 name) ≡ name
unfolding encode_utf16
from_utf16_lossy-encode_utf16 [] h = unfold from_utf16_lossy in refl
from_utf16_lossy-encode_utf16 (c ∷ cs) h = ground (
  arith,
  lone_step c (encode_utf16 cs),
  pair_step c (encode_utf16 cs),
  from_utf16_lossy-encode_utf16 cs h.1,
)

pub length-fill_pairs : (out units : List ℕ) → length (fill_pairs out units) ≡ length out
unfolding fill_pairs
length-fill_pairs [] units = refl
length-fill_pairs (a ∷ []) units = refl
length-fill_pairs (a ∷ (b ∷ out)) [] = refl
length-fill_pairs (a ∷ (b ∷ out)) (u ∷ units) = omega (arith, length-fill_pairs out units)

-- The units that fit the field, read back from it.
units_until_nul-fill_pairs :
    (n : ℕ) (units : List ℕ)
    → All IsUnit units
    → units_until_nul (fill_pairs (replicate n 0) units) ≡ take (n / 2) units
unfolding units_until_nul fill_pairs
units_until_nul-fill_pairs zero units h = refl
units_until_nul-fill_pairs (suc zero) units h = refl
units_until_nul-fill_pairs (suc (suc n)) [] h =
    let e : suc (suc n) / 2 ≡ suc (n / 2) = omega arith in rw e
units_until_nul-fill_pairs (suc (suc n)) (u ∷ units) h =
    let e : suc (suc n) / 2 ≡ suc (n / 2) = omega arith in
    rw e (ground (arith, units_until_nul-fill_pairs n units h.1))

-- A field holds the first `field_len / 2` units of the name, and reads back as those.
pub decode-encode_name_cut :
    (name : List ℕ) (field_len : ℕ)
    → All IsNameChar name
    → decode_utf16be_name (encode_utf16be_name name field_len)
      ≡ from_utf16_lossy (take (field_len / 2) (encode_utf16 name))
unfolding decode_utf16be_name encode_utf16be_name
decode-encode_name_cut name field_len h =
    ap from_utf16_lossy
      (units_until_nul-fill_pairs field_len (encode_utf16 name) (encode_utf16-IsUnit name h))

pub length-encode_utf16be_name :
    (name : List ℕ) (field_len : ℕ) → length (encode_utf16be_name name field_len) ≡ field_len
length-encode_utf16be_name name field_len =
    unfold encode_utf16be_name in
    (length-fill_pairs (replicate field_len 0) (encode_utf16 name) ∙ length-replicate field_len 0)

-- A name without NUL whose UTF-16 form fits the field reads back unchanged, from a field of exactly
-- `field_len` bytes.
pub decode-encode_name :
    (name : List ℕ) (field_len : ℕ)
    → All IsNameChar name
    → 2 * length (encode_utf16 name) ≤ field_len
    → (decode_utf16be_name (encode_utf16be_name name field_len) ≡ name)
      × (length (encode_utf16be_name name field_len) ≡ field_len)
decode-encode_name name field_len h k = (
  decode-encode_name_cut name field_len h
      ∙ ap from_utf16_lossy (take-all (field_len / 2) (encode_utf16 name) (omega arith))
      ∙ from_utf16_lossy-encode_utf16 name h,
  length-encode_utf16be_name name field_len,
)
