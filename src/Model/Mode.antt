-- ===== src/Model/Mode.antt =====
-- crates/controller-core/src/model/ids.rs: `Mode`, an id of 1 to 15 plain bytes, stored inline.
pub mod Laws
use b.Shared.{
  ℕ, zero, suc, ◌+◌, ltb, leb, ◌==◌, ◌&&◌, ◌||◌, if◌then◌else◌, List, [], ◌∷◌, Bool, true, false,
  length, take, drop, replicate, Option, none, some, Error, validation, Result, ok, err,
}
use b.Protocol.Bytes.{get_range}
use b.Protocol.WireWrite.{same_bytes}
use b.Protocol.Framing.{zip_into}
use Prim.Native.Nat.{compare, Ordering}

abbrev pub mode_id_max : ℕ
mode_id_max = 15

-- The id bytes, zero padded, and how many are used.
pub record Mode : Type 0 where
  pub id : List ℕ
  pub len : ℕ

abbrev pub is_ascii_lowercase : ℕ → Bool
is_ascii_lowercase x = leb b'a' x && leb x b'z'

abbrev pub is_ascii_digit : ℕ → Bool
is_ascii_digit x = leb b'0' x && leb x b'9'

unfoldable pub is_plain : ℕ → Bool
is_plain x = is_ascii_lowercase x || (is_ascii_digit x || (x == b'-' || x == b'_'))

unfoldable pub all_plain : List ℕ → Bool
unfolding is_plain
all_plain [] = true
all_plain (x ∷ xs) = is_plain x && all_plain xs

-- The `while let` loop of `from_static`: it fills `dst` and counts.
unfoldable pub fill_static : List ℕ → List ℕ → List ℕ × ℕ
fill_static src [] = ([], 0)
fill_static [] (d ∷ dst) = (d ∷ dst, 0)
fill_static (x ∷ src) (d ∷ dst) = let (out, n) = fill_static src dst in (x ∷ out, suc n)

unfoldable pub from_static : List ℕ → Mode
unfolding fill_static
from_static id =
    let (out, n) = fill_static id (replicate mode_id_max 0) in record { id = out; len = n }

unfoldable pub new : List ℕ → Result Mode
unfolding all_plain zip_into
new id =
    if (leb 1 (length id) && leb (length id) mode_id_max) && all_plain id
    then ok (record { id = zip_into (replicate mode_id_max 0) id; len = length id })
    else err validation

-- `std::str::from_utf8`: the state is how the current sequence must go on.
pub data Utf8 : Type 0 where
  start one two three after_e0 after_ed after_f0 after_f4 bad : Utf8

abbrev within : ℕ → ℕ → ℕ → Utf8 → Utf8
within lo hi x s = if leb lo x && leb x hi then s else Utf8.bad

unfoldable pub utf8_step : Utf8 → ℕ → Utf8
utf8_step Utf8.start x =
    if ltb x 0x80
    then Utf8.start
    else if ltb x 0xC2
    then Utf8.bad
    else if ltb x 0xE0
    then Utf8.one
    else if x == 0xE0
    then Utf8.after_e0
    else if x == 0xED
    then Utf8.after_ed
    else if ltb x 0xF0
    then Utf8.two
    else if x == 0xF0
    then Utf8.after_f0
    else if ltb x 0xF4
    then Utf8.three
    else if x == 0xF4
    then Utf8.after_f4
    else Utf8.bad
utf8_step Utf8.one x = within 0x80 0xBF x Utf8.start
utf8_step Utf8.two x = within 0x80 0xBF x Utf8.one
utf8_step Utf8.three x = within 0x80 0xBF x Utf8.two
utf8_step Utf8.after_e0 x = within 0xA0 0xBF x Utf8.one
utf8_step Utf8.after_ed x = within 0x80 0x9F x Utf8.one
utf8_step Utf8.after_f0 x = within 0x90 0xBF x Utf8.two
utf8_step Utf8.after_f4 x = within 0x80 0x8F x Utf8.two
utf8_step Utf8.bad x = Utf8.bad

unfoldable pub is_utf8_from : Utf8 → List ℕ → Bool
unfolding utf8_step
is_utf8_from Utf8.start [] = true
is_utf8_from _ [] = false
is_utf8_from s (x ∷ xs) = is_utf8_from (utf8_step s x) xs

unfoldable pub as_str : Mode → List ℕ
unfolding is_utf8_from
as_str m = elim (get_range m.id 0 m.len) [
  | none ↦ []
  | some used ↦ if is_utf8_from Utf8.start used then used else []
]

-- The derived order of byte arrays, and of modes: the id first, then the length.
unfoldable pub compare_bytes : List ℕ → List ℕ → Ordering
compare_bytes [] [] = Ordering.eq
compare_bytes [] (y ∷ ys) = Ordering.lt
compare_bytes (x ∷ xs) [] = Ordering.gt
compare_bytes (x ∷ xs) (y ∷ ys) =
    let rest = compare_bytes xs ys in
    elim (compare x y) [
      | Ordering.lt ↦ Ordering.lt
      | Ordering.eq ↦ rest
      | Ordering.gt ↦ Ordering.gt
    ]

unfoldable pub compare_modes : Mode → Mode → Ordering
unfolding compare_bytes
compare_modes m n = elim (compare_bytes m.id n.id) [
  | Ordering.lt ↦ Ordering.lt
  | Ordering.eq ↦ compare m.len n.len
  | Ordering.gt ↦ Ordering.gt
]

-- `==` of modes, derived: the padded id and its length.
abbrev pub same_mode : Mode → Mode → Bool
same_mode m n = if m.len == n.len then same_bytes m.id n.id else false
