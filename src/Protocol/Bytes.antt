-- ===== src/Protocol/Bytes.antt =====
-- crates/controller-core/src/protocol/bytes.rs: bounds-checked reads and writes of byte fields.
-- A buffer is a list of numbers, each below 256; an offset is a `usize` of 64 bits.
pub mod Windows
pub mod Fields
pub mod Behind
pub mod Frames
use b.Shared.{
  ℕ, ◌+◌, ◌-◌, ◌*◌, ◌/◌, ◌%◌, ◌^◌, ◌<◌, List, [], ◌∷◌, ◌++◌, Option, none, some, length, take, drop,
  get_or, All, ltb, leb, if◌then◌else◌, ◌&&◌, Error, decode, Result, ok, err, ◌>>=◌, ok_or,
}

abbrev pub IsByte : ℕ → Type 0
IsByte x = x < 256

abbrev pub IsU16 : ℕ → Type 0
IsU16 x = x < 65536

abbrev pub IsU32 : ℕ → Type 0
IsU32 x = x < 2 ^ 32

-- `usize::checked_add`
abbrev pub checked_add_usize : ℕ → ℕ → Option ℕ
checked_add_usize x y = if ltb (x + y) (2 ^ 64) then some (x + y) else none

-- `buf.get(from..to)`
abbrev pub get_range : List ℕ → ℕ → ℕ → Option (List ℕ)
get_range buf from to =
    if leb from to && leb to (length buf) then some (take (to - from) (drop from buf)) else none

-- `buf` with `src` copied over the bytes from `off` on
abbrev pub splice : List ℕ → ℕ → List ℕ → List ℕ
splice buf off src = take off buf ++ (src ++ drop (length src) (drop off buf))

-- `u16::to_le_bytes`, `u32::to_le_bytes` and their inverses
abbrev pub to_le_bytes_u16 : ℕ → List ℕ
to_le_bytes_u16 v = v % 256 ∷ v / 256 % 256 ∷ []

abbrev pub to_le_bytes_u32 : ℕ → List ℕ
to_le_bytes_u32 v = v % 256 ∷ v / 256 % 256 ∷ v / 65536 % 256 ∷ v / 2 ^ 24 % 256 ∷ []

abbrev pub from_le_bytes_u16 : List ℕ → ℕ
from_le_bytes_u16 bs = get_or bs 0 0 + get_or bs 1 0 * 256

abbrev pub from_le_bytes_u32 : List ℕ → ℕ
from_le_bytes_u32 bs =
    get_or bs 0 0 + get_or bs 1 0 * 256 + get_or bs 2 0 * 65536 + get_or bs 3 0 * 2 ^ 24

unfoldable pub slice : ℕ → List ℕ → ℕ → Result (List ℕ)
slice n buf off = do
  end ← ok_or (checked_add_usize off n) decode
  ok_or (get_range buf off end) decode

unfoldable pub read_u8 : List ℕ → ℕ → Result ℕ
read_u8 buf off = do bytes ← slice 1 buf off; ok (get_or bytes 0 0)

unfoldable pub read_u16_le : List ℕ → ℕ → Result ℕ
read_u16_le buf off = do bytes ← slice 2 buf off; ok (from_le_bytes_u16 bytes)

unfoldable pub read_u16_be : List ℕ → ℕ → Result ℕ
read_u16_be buf off = do bytes ← slice 2 buf off; ok (get_or bytes 0 0 * 256 + get_or bytes 1 0)

unfoldable pub read_u32_le : List ℕ → ℕ → Result ℕ
read_u32_le buf off = do bytes ← slice 4 buf off; ok (from_le_bytes_u32 bytes)

-- `bytes::take`
unfoldable pub take_bytes : List ℕ → ℕ → ℕ → Result (List ℕ)
take_bytes buf off len = do
  end ← ok_or (checked_add_usize off len) decode
  ok_or (get_range buf off end) decode

-- The buffer after the write.
unfoldable pub put_slice : List ℕ → ℕ → List ℕ → Result (List ℕ)
put_slice buf off src = do
  end ← ok_or (checked_add_usize off (length src)) decode
  if leb off end && leb end (length buf) then ok (splice buf off src) else err decode

unfoldable pub put_u16_le : List ℕ → ℕ → ℕ → Result (List ℕ)
put_u16_le buf off value = put_slice buf off (to_le_bytes_u16 value)

unfoldable pub put_u32_le : List ℕ → ℕ → ℕ → Result (List ℕ)
put_u32_le buf off value = put_slice buf off (to_le_bytes_u32 value)
