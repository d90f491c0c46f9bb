-- ===== src/Protocol/Text.antt =====
-- crates/controller-core/src/protocol/text.rs: names as UTF-16BE fields. A `String` is the list of
-- its scalar values.
pub mod RoundTrip
use b.Shared.{
  ℕ, zero, suc, ◌+◌, ◌-◌, ◌*◌, ◌/◌, ◌%◌, ◌==◌, ltb, leb, ◌&&◌, if◌then◌else◌, List, [], ◌∷◌, ◌++◌,
  Bool, replicate,
}

abbrev pub is_high : ℕ → Bool
is_high u = leb 0xD800 u && ltb u 0xDC00

abbrev pub is_low : ℕ → Bool
is_low u = leb 0xDC00 u && ltb u 0xE000

-- `char::REPLACEMENT_CHARACTER`
abbrev pub replacement : ℕ
replacement = 0xFFFD

-- `str::encode_utf16`
unfoldable pub encode_utf16 : List ℕ → List ℕ
encode_utf16 [] = []
encode_utf16 (c ∷ cs) =
    let rest = encode_utf16 cs in
    if ltb c 0x10000
    then c ∷ rest
    else (0xD800 + (c - 0x10000) / 0x400) ∷ ((0xDC00 + (c - 0x10000) % 0x400) ∷ rest)

-- one unit that pairs with no other
abbrev pub lone : ℕ → ℕ
lone u = if leb 0xD800 u && ltb u 0xE000 then replacement else u

abbrev pub paired : ℕ → ℕ → ℕ
paired u v = 0x10000 + (u - 0xD800) * 0x400 + (v - 0xDC00)

-- `String::from_utf16_lossy`
unfoldable pub from_utf16_lossy : List ℕ → List ℕ
from_utf16_lossy [] = []
from_utf16_lossy (u ∷ []) = lone u ∷ []
from_utf16_lossy (u ∷ (v ∷ rest)) =
    let behind = from_utf16_lossy rest in
    let next = from_utf16_lossy (v ∷ rest) in
    if is_high u && is_low v then paired u v ∷ behind else lone u ∷ next

-- The loop of `decode_utf16be_name` over the pairs of bytes.
unfoldable pub units_until_nul : List ℕ → List ℕ
units_until_nul [] = []
units_until_nul (hi ∷ []) = []
units_until_nul (hi ∷ (lo ∷ rest)) =
    let unit = hi * 256 + lo in
    let units = units_until_nul rest in if unit == 0 then [] else unit ∷ units

unfoldable pub decode_utf16be_name : List ℕ → List ℕ
unfolding units_until_nul from_utf16_lossy
decode_utf16be_name bytes = from_utf16_lossy (units_until_nul bytes)

-- The loop of `encode_utf16be_name`: pairs of `out` zipped with the units.
unfoldable pub fill_pairs : List ℕ → List ℕ → List ℕ
fill_pairs [] units = []
fill_pairs (a ∷ []) units = a ∷ []
fill_pairs (a ∷ (b ∷ out)) [] = a ∷ (b ∷ out)
fill_pairs (a ∷ (b ∷ out)) (u ∷ units) = u / 256 % 256 ∷ (u % 256 ∷ fill_pairs out units)

unfoldable pub encode_utf16be_name : List ℕ → ℕ → List ℕ
unfolding fill_pairs encode_utf16
encode_utf16be_name name field_len = fill_pairs (replicate field_len 0) (encode_utf16 name)
