-- ===== src/Devices/Pro3.antt =====
-- crates/controller-core/src/devices/pro3/mod.rs: the Pro 3's modes, its commands and its slots.
pub mod Tables
pub mod Modes
pub mod Settings
pub mod Macros
pub mod Profile
pub mod Reading
pub mod Compile
pub mod Blob
pub mod Edit
pub mod Defaults
mod Tests
use b.Shared.{
  ℕ, ◌-◌, leb, if◌then◌else◌, ◌&&◌, List, [], ◌∷◌, Bool, replicate, set, Option, none, some, Result,
  ok, err, validation,
}
use b.Model.Mode.{Mode, from_static, same_mode}
use b.Model.Slot.{Slot}
use b.Protocol.Framing.{zip_into, packet_len}
use b.Devices.Pro3.Tables.{profile_slot_count}

abbrev pub xinput : Mode
unfolding from_static
xinput = from_static (b'x' ∷ b'i' ∷ b'n' ∷ b'p' ∷ b'u' ∷ b't' ∷ [])

abbrev pub switch : Mode
unfolding from_static
switch = from_static (b's' ∷ b'w' ∷ b'i' ∷ b't' ∷ b'c' ∷ b'h' ∷ [])

abbrev pub dinput : Mode
unfolding from_static
dinput = from_static (b'd' ∷ b'i' ∷ b'n' ∷ b'p' ∷ b'u' ∷ b't' ∷ [])

unfoldable pub mode_byte : Mode → Result ℕ
mode_byte mode =
    if same_mode mode switch
    then ok 0
    else if same_mode mode dinput
    then ok 1
    else if same_mode mode xinput
    then ok 3
    else err validation

unfoldable pub packet : List ℕ → List ℕ
unfolding zip_into
packet head = zip_into (replicate packet_len 0) head

unfoldable pub slot_index : Slot → Result ℕ
slot_index slot =
    if leb 1 slot.get && leb slot.get profile_slot_count then ok (slot.get - 1) else err validation

abbrev mode_flip : List ℕ
mode_flip = 0x81 ∷ 0x00 ∷ 0x51 ∷ []

abbrev flip_packet : ℕ → List ℕ
flip_packet target_byte = set (packet mode_flip) 3 target_byte

unfoldable mode_flip_command : Mode → Option (List ℕ)
unfolding packet
mode_flip_command target =
    if same_mode target dinput
    then some (flip_packet 0x01)
    else if same_mode target xinput
    then some (flip_packet 0x02)
    else none

unfoldable mode_close_command : List ℕ
unfolding packet
mode_close_command = packet (0x81 ∷ 0x05 ∷ 0x07 ∷ [])
