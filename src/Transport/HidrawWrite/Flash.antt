-- ===== src/Transport/HidrawWrite/Flash.antt =====
-- A pad that a session writes to: what an accepted packet does to its flash, and when the pad
-- accepts every packet. The pad's firmware is not in this repository; these are its documented
-- effects, in terms of the packet as the pad reads it.
use b.Shared.{◌≤◌, ℕ, List, length, ok, ◌≡◌, some}
use b.Protocol.Bytes.{IsU16, splice}
use b.Protocol.Layout.{DataPacket, parse_data}
use b.Protocol.WireWrite.{validate_write_response}
use b.Transport.Commands.{Session}

-- A profile write packet whose response passes the check has put its bytes at its offset.
abbrev pub WritesFlash : {S : Type 0} → Session S → (S → List ℕ) → Type 0
WritesFlash {S = S} session flash =
    (s s' : S) (packet : List ℕ) (d : DataPacket) (resp : List ℕ)
    → parse_data packet ≡ some d
    → d.command ≡ 0x01
    → session.send_recv packet s ≡ (ok resp, s')
    → validate_write_response resp d.offset (length d.bytes) ≡ ok tt
    → flash s' ≡ splice (flash s) d.offset d.bytes

-- Each profile write packet of at most 46 bytes at a 16-bit offset gets a response that passes the check.
abbrev pub AcceptsWrites : {S : Type 0} → Session S → Type 0
AcceptsWrites {S = S} session =
    (s : S) (packet : List ℕ) (d : DataPacket)
    → parse_data packet ≡ some d
    → d.command ≡ 0x01
    → IsU16 d.offset
    → length d.bytes ≤ 46
    → (resp : List ℕ) × (s' : S) × (session.send_recv packet s ≡ (ok resp, s'))
      × (validate_write_response resp d.offset (length d.bytes) ≡ ok tt)
