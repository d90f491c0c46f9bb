-- ===== src/Protocol/WireWrite/Responses.antt =====
-- Exactly which responses the checks accept.
use b.Shared.{
  inl, inr, err, decode, ◌⊎◌, ℕ, ◌≤◌, ◌≡◌, refl, ◌↔◌, true, List, [], ◌∷◌, length, take, drop,
  arith, ok,
}
use b.Protocol.Bytes.{read_u16_le, take_bytes}
use b.Protocol.Bytes.Fields.{Fits, read_u16_le-ok, take_bytes-ok}
use b.Protocol.Layout.{word_at}
use b.Protocol.WireWrite.{
  validate_write_macro_response, validate_command_response, check_macro_header,
  validate_erase_response, same_bytes, validate_write_response,
}

pub same_bytes_iff : (xs ys : List ℕ) → (same_bytes xs ys ≡ true) ↔ (xs ≡ ys)
unfolding same_bytes
same_bytes_iff [] [] = (λ e. refl, λ e. refl)
same_bytes_iff [] (y ∷ ys) = (λ e. cc, λ e. cc)
same_bytes_iff (x ∷ xs) [] = (λ e. cc, λ e. cc)
same_bytes_iff (x ∷ xs) (y ∷ ys) = ground (arith, same_bytes_iff xs ys)

-- A response of at least a packet that begins `02 04 04` and echoes `command` in byte 4.
abbrev pub Answers : List ℕ → ℕ → Type 0
Answers resp command =
    (64 ≤ length resp)
    × (take 3 resp ≡ 0x02 ∷ 0x04 ∷ 0x04 ∷ [])
    × (take 1 (drop 4 resp) ≡ command ∷ [])

-- The fields of a response of at least 64 bytes can all be read.
record Readable (resp : List ℕ) : Type 0 where
  head : take_bytes resp 0 3 ≡ ok (take 3 resp)
  echo : take_bytes resp 4 1 ≡ ok (take 1 (drop 4 resp))
  size : read_u16_le resp 6 ≡ ok (word_at resp 6)
  offset : read_u16_le resp 14 ≡ ok (word_at resp 14)

readable : (resp : List ℕ) → Fits resp → 64 ≤ length resp → Readable resp
readable resp f h = record {
  head = take_bytes-ok resp 0 3 f (omega arith);
  echo = take_bytes-ok resp 4 1 f (omega arith);
  size = read_u16_le-ok resp 6 f (omega arith);
  offset = read_u16_le-ok resp 14 f (omega arith);
}

-- The response echoes the write command, the size and the offset.
abbrev pub Echoes : List ℕ → ℕ → ℕ → Type 0
Echoes resp offset size = Answers resp 0x01 × (word_at resp 6 ≡ size) × (word_at resp 14 ≡ offset)

accepts_iff :
    (resp : List ℕ) (offset size : ℕ)
    → Fits resp
    → (validate_write_response resp offset size ≡ ok tt) ↔ Echoes resp offset size
unfolding validate_write_response
accepts_iff resp offset size f = ground (
  arith,
  readable resp f,
  same_bytes_iff (take 3 resp) (0x02 ∷ 0x04 ∷ 0x04 ∷ []),
  same_bytes_iff (take 1 (drop 4 resp)) (0x01 ∷ []),
)

accepts_or_decode :
    (resp : List ℕ) (offset size : ℕ)
    → Fits resp
    → (validate_write_response resp offset size ≡ ok tt)
      ⊎ (validate_write_response resp offset size ≡ err decode)
unfolding validate_write_response
accepts_or_decode resp offset size f = ground (arith, readable resp f)

-- A write response is accepted exactly when it answers the write command and echoes the size and
-- the offset; and it is a decode error exactly when it does not.
pub validate_write_response_iff :
    (resp : List ℕ) (offset size : ℕ)
    → Fits resp
    → ((validate_write_response resp offset size ≡ ok tt) ↔ Echoes resp offset size)
      × ((validate_write_response resp offset size ≡ err decode) ↔ (¬ Echoes resp offset size))
validate_write_response_iff resp offset size f = (
  accepts_iff resp offset size f,
  (
    λ e q. absurd (let accepted = (accepts_iff resp offset size f).1 q in cc),
    λ refused. elim (accepts_or_decode resp offset size f) [
      | inl accepted ↦ absurd (refused ((accepts_iff resp offset size f).0 accepted))
      | inr failed ↦ failed
    ],
  ),
)

-- A simple command's response is accepted exactly when it answers that command.
pub validate_command_response_iff :
    (resp : List ℕ) (command : ℕ)
    → Fits resp
    → (validate_command_response resp command ≡ ok tt) ↔ Answers resp command
unfolding validate_command_response
validate_command_response_iff resp command f = ground (
  arith,
  readable resp f,
  same_bytes_iff (take 3 resp) (0x02 ∷ 0x04 ∷ 0x04 ∷ []),
  same_bytes_iff (take 1 (drop 4 resp)) (command ∷ []),
)

-- A macro response may carry 4 or 5 in byte 2.
abbrev pub AnswersMacro : List ℕ → ℕ → Type 0
AnswersMacro resp command =
    (64 ≤ length resp)
    × ((take 3 resp ≡ 0x02 ∷ 0x04 ∷ 0x04 ∷ []) ⊎ (take 3 resp ≡ 0x02 ∷ 0x04 ∷ 0x05 ∷ []))
    × (take 1 (drop 4 resp) ≡ command ∷ [])

check_macro_header_iff :
    (resp : List ℕ) (command : ℕ)
    → Fits resp
    → (check_macro_header resp command ≡ ok tt) ↔ AnswersMacro resp command
unfolding check_macro_header
check_macro_header_iff resp command f = ground (
  arith,
  readable resp f,
  same_bytes_iff (take 3 resp) (0x02 ∷ 0x04 ∷ 0x04 ∷ []),
  same_bytes_iff (take 3 resp) (0x02 ∷ 0x04 ∷ 0x05 ∷ []),
  same_bytes_iff (take 1 (drop 4 resp)) (command ∷ []),
)

-- An erase response is accepted exactly when it answers the erase command with the length of a
-- page, and a macro write response when it answers the macro write command.
pub macro_responses_iff :
    (resp : List ℕ)
    → Fits resp
    → ((validate_erase_response resp ≡ ok tt)
        ↔ (AnswersMacro resp 0x04 × (word_at resp 6 ≡ 0x1000)))
      × ((validate_write_macro_response resp ≡ ok tt) ↔ AnswersMacro resp 0x03)
unfolding validate_erase_response validate_write_macro_response
macro_responses_iff resp f = (
  ground (
    arith,
    readable resp f,
    same_bytes_iff (take 3 resp) (0x02 ∷ 0x04 ∷ 0x04 ∷ []),
    same_bytes_iff (take 3 resp) (0x02 ∷ 0x04 ∷ 0x05 ∷ []),
    same_bytes_iff (take 1 (drop 4 resp)) (0x04 ∷ []),
  ),
  check_macro_header_iff resp 0x03 f,
)
