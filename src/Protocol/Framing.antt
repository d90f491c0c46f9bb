-- ===== src/Protocol/Framing.antt =====
-- crates/controller-core/src/protocol/framing.rs: the wire form of a request in each current mode,
-- and the reply to a request among the reports read back. A packet is a list of 64 bytes.
pub mod Layout
use b.Shared.{
  ℕ, zero, suc, ◌+◌, ◌-◌, min, ◌==◌, if◌then◌else◌, List, [], ◌∷◌, ◌++◌, Option, none, some, Bool,
  true, false, not, ◌&&◌, length, get_elem?, get_or, take, drop, replicate,
}

abbrev pub packet_len : ℕ
packet_len = 64

abbrev pub wrapped_out : List ℕ
wrapped_out = 0x01 ∷ 0x66 ∷ 0xAA ∷ []

abbrev pub wrapped_in : List ℕ
wrapped_in = 0x81 ∷ 0x66 ∷ 0xA5 ∷ []

abbrev pub reply_head : List ℕ
reply_head = 0x02 ∷ 0x04 ∷ []

abbrev pub req_cmd : ℕ
req_cmd = 2

abbrev pub req_chunk_len : ℕ
req_chunk_len = 6

abbrev pub length_header : ℕ
length_header = 17

abbrev pub reply_cmd_echo : ℕ
reply_cmd_echo = 4

pub data Framing : Type 0 where
  plain wrapped length_byte : Framing

-- `for (dst, b) in dst.iter_mut().zip(src) { *dst = *b }`
unfoldable pub zip_into : List ℕ → List ℕ → List ℕ
zip_into [] src = []
zip_into (d ∷ dst) [] = d ∷ dst
zip_into (d ∷ dst) (x ∷ src) = x ∷ zip_into dst src

-- The closure `prefixed` of `Framing::request`.
unfoldable pub prefixed : List ℕ → List ℕ → List ℕ
prefixed normal head = zip_into (replicate packet_len 0) (head ++ drop 1 normal)

unfoldable pub request : Framing → List ℕ → List ℕ
request plain normal = normal
request wrapped normal = prefixed normal wrapped_out
request length_byte normal =
    let chunk = get_or normal req_chunk_len 0 in
    let len = min (length_header + chunk) (packet_len - 2) in
    prefixed normal (get_or normal 0 0 ∷ len ∷ [])

-- `<[u8]>::strip_prefix`; `starts_with` asks whether it gives anything.
unfoldable pub strip_prefix : List ℕ → List ℕ → Option (List ℕ)
strip_prefix [] raw = some raw
strip_prefix (h ∷ head) [] = none
strip_prefix (h ∷ head) (x ∷ raw) =
    let rest = strip_prefix head raw in if x == h then rest else none

-- `Vec::resize` with zeros.
abbrev pub resize : List ℕ → ℕ → List ℕ
resize xs n = take n xs ++ replicate (n - length xs) 0

abbrev pub same_byte : Option ℕ → Option ℕ → Bool
same_byte none none = true
same_byte none (some y) = false
same_byte (some x) none = false
same_byte (some x) (some y) = x == y

-- The report in normal layout, if it is a config reply at all.
unfoldable pub to_normal : Framing → List ℕ → Option (List ℕ)
unfolding strip_prefix
to_normal wrapped raw = elim (strip_prefix wrapped_in raw) [
  | none ↦ none
  | some rest ↦ some (reply_head ++ rest)
]
to_normal _ raw = elim (strip_prefix reply_head raw) [ none ↦ none | some rest ↦ some raw ]

-- The tail of `Framing::reply`: the command echo, then zero padding to a packet.
unfoldable pub check_echo : List ℕ → List ℕ → Option (List ℕ)
check_echo normal req =
    if not (same_byte (get_elem? normal reply_cmd_echo) (get_elem? req req_cmd))
    then none
    else some (resize normal packet_len)

unfoldable pub reply : Framing → List ℕ → List ℕ → Option (List ℕ)
unfolding to_normal check_echo
reply framing raw req = elim (to_normal framing raw) [
  | none ↦ none
  | some normal ↦ check_echo normal req
]
