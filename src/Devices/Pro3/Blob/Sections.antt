-- ===== src/Devices/Pro3/Blob/Sections.antt =====
-- crates/controller-core/src/devices/pro3/profile.rs: the regions of a blob that the writers of
-- the sections write to.
use b.Shared.Int.{ℤ}
use b.Shared.{if-elim, ℕ, zero, suc, ◌+◌, ◌*◌, ◌≡◌, refl, List, [], ◌∷◌, length, ok, arith, leb}
use b.Protocol.Bytes.{put_slice, put_u16_le, put_u32_le}
use b.Protocol.Bytes.Frames.{
  put_slice-sized, Region, region, Framed, Framed->>=, Framed-value, Framed-nothing, Framed-widen,
  Framed-twice, put_slice-Framed, put_slice-within, put_u16_le-Framed, put_u32_le-Framed,
}
use b.Protocol.Text.{encode_utf16be_name}
use b.Protocol.Text.RoundTrip.{length-encode_utf16be_name}
use b.Devices.Pro3.Blob.{
  Profile, mode_enc, write_head, write_vibration, write_sticks, write_triggers, trig_bytes,
  write_flags, write_entries, write_motor_range, seal_crc, flags0_of, flags1_of,
}
use b.Devices.Pro3.Settings.{Sticks, Triggers, Vibration, analog, switch}
use b.Devices.Pro3.Tables.{slot_marker}
use b.Protocol.Crc16.{crc16_modbus}

abbrev pub head_regions : ℕ → List Region
head_regions idx = region (idx * 4) 4 ∷ region 0x10 2 ∷ region (0x14 + idx * 0x20) 0x20 ∷ []

pub write_head-Framed :
    (profile : Profile) (idx : ℕ) (buf : List ℕ)
    → Framed (head_regions idx) buf (write_head profile idx buf)
write_head-Framed profile idx buf =
    let name : List ℕ = encode_utf16be_name profile.name 0x20 in
    let at : 0 + idx * 4 ≡ idx * 4 = omega arith in
    unfold write_head in
    Framed->>= (region (idx * 4) 4 ∷ []) (region 0x10 2 ∷ region (0x14 + idx * 0x20) 0x20 ∷ []) buf
      (put_slice buf (0 + idx * 4) slot_marker) _
      (rw at (put_slice-Framed buf (idx * 4) slot_marker))
      (λ b.
        Framed-value (region 0x10 2 ∷ region (0x14 + idx * 0x20) 0x20 ∷ []) b
          (mode_enc profile.mode) _
          (λ mode.
            Framed->>= (region 0x10 2 ∷ []) (region (0x14 + idx * 0x20) 0x20 ∷ []) b
              (put_u16_le b 0x10 mode) _ (put_u16_le-Framed b 0x10 mode)
              (λ c.
                put_slice-sized c (0x14 + idx * 0x20) name 0x20
                  (length-encode_utf16be_name profile.name 0x20))))

abbrev pub vibration_regions : ℕ → List Region
vibration_regions idx =
    region (0x74 + idx * 12) 4
    ∷ region (0x74 + idx * 12 + 4) 4
    ∷ region (0x74 + idx * 12 + 8) 4
    ∷ []

pub write_vibration-Framed :
    (vibration : Vibration) (idx : ℕ) (buf : List ℕ)
    → Framed (vibration_regions idx) buf (write_vibration vibration idx buf)
write_vibration-Framed vibration idx buf =
    let off : ℕ = 0x74 + idx * 12 in
    unfold write_vibration in
    Framed->>= (region off 4 ∷ []) (region (off + 4) 4 ∷ region (off + 8) 4 ∷ []) buf
      (put_slice buf off slot_marker) _ (put_slice-Framed buf off slot_marker)
      (λ b.
        Framed->>= (region (off + 4) 4 ∷ []) (region (off + 8) 4 ∷ []) b _ _
          (put_u32_le-Framed b (off + 4) _) (λ c. put_u32_le-Framed c (off + 8) _))

-- A marker and four bytes, as the sticks and the triggers have.
abbrev pub pair_regions : ℕ → ℕ → ℕ → List Region
pair_regions marker values idx = region (marker + idx * 8) 4 ∷ region (values + idx * 8) 4 ∷ []

pub write_sticks-Framed :
    (sticks : Sticks) (idx : ℕ) (buf : List ℕ)
    → Framed (pair_regions 0x98 0x9C idx) buf (write_sticks sticks idx buf)
write_sticks-Framed sticks idx buf =
    unfold write_sticks in
    Framed->>= (region (0x98 + idx * 8) 4 ∷ []) (region (0x9C + idx * 8) 4 ∷ []) buf
      (put_slice buf (0x98 + idx * 8) slot_marker) _
      (put_slice-Framed buf (0x98 + idx * 8) slot_marker)
      (λ b. put_slice-Framed b (0x9C + idx * 8) _)

pub length-trig_bytes :
    (triggers : Triggers) (trig : ℕ → ℤ → ℕ) → length (trig_bytes triggers trig) ≡ 4
unfolding trig_bytes
length-trig_bytes (analog a) trig = refl
length-trig_bytes (switch sw) trig = refl

pub write_triggers-Framed :
    (triggers : Triggers) (idx : ℕ) (buf : List ℕ)
    → Framed (pair_regions 0xB0 0xB4 idx) buf (write_triggers triggers idx buf)
write_triggers-Framed triggers idx buf =
    unfold write_triggers in
    Framed->>= (region (0xB0 + idx * 8) 4 ∷ []) (region (0xB4 + idx * 8) 4 ∷ []) buf
      (put_slice buf (0xB0 + idx * 8) slot_marker) _
      (put_slice-Framed buf (0xB0 + idx * 8) slot_marker)
      (λ b. put_slice-sized b (0xB4 + idx * 8) _ 4 (length-trig_bytes triggers _))

abbrev pub flag_regions : ℕ → List Region
flag_regions idx = region (0xC8 + idx * 8) 4 ∷ region (0xCC + idx * 8) 2 ∷ []

pub write_flags-Framed :
    (sticks : Sticks) (triggers : Triggers) (idx : ℕ) (buf : List ℕ)
    → Framed (flag_regions idx) buf (write_flags sticks triggers idx buf)
write_flags-Framed sticks triggers idx buf =
    unfold write_flags in
    Framed->>= (region (0xC8 + idx * 8) 4 ∷ []) (region (0xCC + idx * 8) 2 ∷ []) buf
      (put_slice buf (0xC8 + idx * 8) slot_marker) _
      (put_slice-Framed buf (0xC8 + idx * 8) slot_marker)
      (λ b. put_slice-Framed b (0xCC + idx * 8) (flags0_of sticks triggers ∷ flags1_of sticks ∷ []))

-- The entries from `i` on, each of four bytes, inside the map.
pub write_entries-Framed :
    (left i : ℕ) (code : ℕ → List ℕ) (base : ℕ) (buf : List ℕ)
    → ((j : ℕ) → length (code j) ≡ 4)
    → i + left ≡ 22
    → Framed (region base 88 ∷ []) buf (write_entries left i code base buf)
unfolding write_entries
write_entries-Framed zero i code base buf four e =
    Framed-widen [] (region base 88 ∷ []) buf (ok buf) (λ at n o. tt) (Framed-nothing buf)
write_entries-Framed (suc left) i code base buf four e =
    Framed-twice (region base 88 ∷ []) buf (put_slice buf (base + i * 4) (code i)) _
      (put_slice-within buf (base + i * 4) (code i) base 88 (omega arith) (omega (arith, four i)))
      (λ b. write_entries-Framed left (i + 1) code base b four (omega arith))

abbrev pub button_regions : ℕ → List Region
button_regions idx = region (0xE0 + idx * 0x5C) 4 ∷ region (0xE4 + idx * 0x5C) 88 ∷ []

abbrev pub motor_regions : ℕ → List Region
motor_regions idx =
    region (0x914 + idx * 8) 4
    ∷ region (0x914 + idx * 8 + 4) 2
    ∷ region (0x914 + idx * 8 + 4 + 2) 2
    ∷ []

pub write_motor_range-Framed :
    (idx : ℕ) (buf : List ℕ) → Framed (motor_regions idx) buf (write_motor_range idx buf)
write_motor_range-Framed idx buf =
    let off : ℕ = 0x914 + idx * 8 in
    unfold write_motor_range in
    Framed->>= (region off 4 ∷ []) (region (off + 4) 2 ∷ region (off + 4 + 2) 2 ∷ []) buf
      (put_slice buf off slot_marker) _ (put_slice-Framed buf off slot_marker)
      (λ b.
        Framed->>= (region (off + 4) 2 ∷ []) (region (off + 4 + 2) 2 ∷ []) b
          (put_slice b (off + 4) (1 ∷ 100 ∷ [])) _ (put_slice-Framed b (off + 4) (1 ∷ 100 ∷ []))
          (λ c.
            if-elim (Framed (region (off + 4 + 2) 2 ∷ []) c) (leb (off + 4 + 4) 0x92C)
              (put_slice-Framed c (off + 4 + 2) (1 ∷ 100 ∷ []))
              (Framed-widen [] (region (off + 4 + 2) 2 ∷ []) c (ok c) (λ at n o. tt)
                (Framed-nothing c))))

abbrev pub crc_regions : List Region
crc_regions = region 0xC 4 ∷ region 0xC 2 ∷ []

pub seal_crc-Framed : (buf : List ℕ) → Framed crc_regions buf (seal_crc buf)
seal_crc-Framed buf =
    unfold seal_crc in
    Framed->>= (region 0xC 4 ∷ []) (region 0xC 2 ∷ []) buf (put_u32_le buf 0xC 0) _
      (put_u32_le-Framed buf 0xC 0) (λ b. put_u16_le-Framed b 0xC (crc16_modbus b))
