-- ===== src/Protocol/Layout.antt =====
-- The layout of a config packet that carries data, as docs and captures give it: an independent
-- reading of a packet, against which the packet builders are proved.
use b.Shared.{
  ℕ, suc, ◌+◌, ◌*◌, ◌==◌, ◌&&◌, if◌then◌else◌, List, Option, none, some, length, take, drop, get_or,
}
use b.Protocol.Crc16.{crc16_modbus}

-- `81 04 <command> <sub> <slot> <mode>`, then four 16-bit words and the data from byte 18 on.
pub record DataPacket : Type 0 where
  pub command : ℕ
  pub sub : ℕ
  pub slot : ℕ
  pub mode : ℕ
  pub total : ℕ
  pub offset : ℕ
  pub bytes : List ℕ

abbrev pub word_at : List ℕ → ℕ → ℕ
word_at p k = get_or p k 0 + get_or p (suc k) 0 * 256

-- What the pad makes of a packet: none if it is no config request or the checksum of the data
-- does not match.
abbrev pub parse_data : List ℕ → Option DataPacket
parse_data p =
    let data_bytes = take (word_at p 6) (drop 18 p) in
    if length p == 64
      && (get_or p 0 0 == 0x81 && (get_or p 1 0 == 0x04 && crc16_modbus data_bytes == word_at p 8))
    then some (record {
      command = get_or p 2 0;
      sub = get_or p 3 0;
      slot = get_or p 4 0;
      mode = get_or p 5 0;
      total = word_at p 10;
      offset = word_at p 14;
      bytes = data_bytes;
    })
    else none
