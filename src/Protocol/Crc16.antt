-- ===== src/Protocol/Crc16.antt =====
-- crates/controller-core/src/protocol/crc16.rs: CRC-16/MODBUS.
pub mod Detects
use b.Shared.{
  ℕ, zero, suc, ◌/◌, ◌%◌, ◌==◌, if◌then◌else◌, List, [], ◌∷◌, bit_xor, Bool, true, false,
}

-- One round of the inner loop: the low bit goes out, and selects the polynomial.
unfoldable pub crc_round : ℕ → ℕ
crc_round crc = if crc % 2 == 0 then crc / 2 else bit_xor (crc / 2) 0xA001

-- `for _ in 0..n`
unfoldable pub crc_rounds : ℕ → ℕ → ℕ
unfolding crc_round
crc_rounds zero crc = crc
crc_rounds (suc n) crc = crc_rounds n (crc_round crc)

-- `for &byte in data`
unfoldable pub crc_from : ℕ → List ℕ → ℕ
unfolding crc_rounds
crc_from crc [] = crc
crc_from crc (byte ∷ rest) = crc_from (crc_rounds 8 (bit_xor crc byte)) rest

unfoldable pub crc16_modbus : List ℕ → ℕ
unfolding crc_from
crc16_modbus bytes = crc_from 0xFFFF bytes
