-- ===== src/Devices/Pro3/Blob/StickValues.antt =====
-- crates/controller-core/src/devices/pro3/profile.rs: `decode_sticks` on a compiled slot.
use b.Devices.Pro3.Blob.Own.{stick_bytes}
use b.Devices.Pro3.Blob.Kept.{byte_at-Holds, Holds}
use b.Devices.Pro3.Blob.{or_if, flags0_of, flags1_of}
use b.Devices.Pro3.Compile.{keep_or_encode, percent_to_stick_byte}
use b.Devices.Pro3.Profile.{in_slots, adjust, to_percent, byte_at}
use b.Devices.Pro3.Settings.{Sticks, Triggers}
use b.Shared.Int.{pos, ℤ}
use b.Shared.Masks.{has_bit}
use b.Devices.Pro3.Reading.{decode_sticks}
use b.Devices.Pro3.Blob.Values.{stick_byte, to_percent-keep_or_encode, flags0-has_bit}
use b.Shared.{
  true, false, min, max, ◌-◌, ap, Bool, max, min, ◌≤◌, ℕ, ◌+◌, ◌*◌, ◌<◌, ◌≡◌, refl, ◌∙◌, List, [],
  ◌∷◌, length, true, arith,
}

-- Percentages that the pad has.
pub record IsSticks (sticks : Sticks) : Type 0 where
  pub left_min : (p : ℕ) × (sticks.left_min_pct ≡ pos p) × (p ≤ 90)
  pub left_max : (p : ℕ) × (sticks.left_max_pct ≡ pos p) × (10 ≤ p) × (p ≤ 100)
  pub right_min : (p : ℕ) × (sticks.right_min_pct ≡ pos p) × (p ≤ 90)
  pub right_max : (p : ℕ) × (sticks.right_max_pct ≡ pos p) × (10 ≤ p) × (p ≤ 100)

-- A percentage, kept or encoded, read and clamped.
percent_back :
    (base p lo hi : ℕ) (pct : ℤ)
    → pct ≡ pos p
    → lo ≤ p
    → p ≤ hi
    → hi ≤ 100
    → pos (min (max (to_percent (keep_or_encode base pct 128 percent_to_stick_byte) 128) lo) hi)
      ≡ pct
percent_back base p lo hi pct e h k l =
    let back : to_percent (keep_or_encode base (pos p) 128 percent_to_stick_byte) 128 ≡ p =
      to_percent-keep_or_encode base p 128 percent_to_stick_byte (stick_byte p (omega arith)) in
    let inside : min (max p lo) hi ≡ p = omega arith in rw (e, back, inside)

flag1 : (sticks : Sticks) → has_bit (flags1_of sticks) 0x01 ≡ sticks.swap_dpad_with_left_stick
unfolding flags1_of
flag1 sticks = one sticks.swap_dpad_with_left_stick
  where
    one : (b : Bool) → has_bit (or_if b 0x01 0) 0x01 ≡ b
    one true = refl
    one false = refl

pub decode_sticks-Holds :
    (sticks : Sticks) (triggers : Triggers) (i : ℕ) (out b : List ℕ)
    → i < 3
    → length out ≡ 2348
    → IsSticks sticks
    → Holds (0x9C + i * 8) (stick_bytes sticks i b) out
    → Holds (0xCC + i * 8) (flags0_of sticks triggers ∷ flags1_of sticks ∷ []) out
    → decode_sticks out (i + 1) true ≡ sticks
unfolding decode_sticks adjust
decode_sticks-Holds sticks triggers i out b h size r held flags =
    let (lm, lme, lmh) = r.left_min in
    let (lx, lxe, lxl, lxh) = r.left_max in
    let (rm, rme, rmh) = r.right_min in
    let (rx, rxe, rxl, rxh) = r.right_max in
    let held_byte = λ (k : ℕ) (below : k < 4).
      byte_at-Holds out (0x9C + i * 8) (stick_bytes sticks i b) k (omega arith) (omega arith) held
        below in
    let bits : List ℕ = flags0_of sticks triggers ∷ flags1_of sticks ∷ [] in
    let flag_byte = λ (k : ℕ) (below : k < 2).
      byte_at-Holds out (0xCC + i * 8) bits k (omega arith) (omega arith) flags below in
    let first : byte_at out (0xCC + i * 8) ≡ flags0_of sticks triggers =
      ap (byte_at out) (let e : 0xCC + i * 8 ≡ 0xCC + i * 8 + 0 = omega arith in e)
      ∙ flag_byte 0 (omega arith) in
    let place : i + 1 - 1 ≡ i = omega arith in
    let here : in_slots (i + 1) ≡ true = ground arith in
    let (f1, f2, f4, f8, f10, _) = flags0-has_bit sticks triggers in
    rw
      (
        here,
        place,
        held_byte 0 (omega arith),
        held_byte 1 (omega arith),
        held_byte 2 (omega arith),
        held_byte 3 (omega arith),
        first,
        flag_byte 1 (omega arith),
      )
      (λ k. record {
        left_min_pct =
            percent_back (byte_at b (0x9C + i * 8 + 0)) lm 0 90 sticks.left_min_pct lme
              (omega arith) lmh (omega arith) k;
        left_max_pct =
            percent_back (byte_at b (0x9C + i * 8 + 1)) lx 10 100 sticks.left_max_pct lxe lxl lxh
              (omega arith) k;
        right_min_pct =
            percent_back (byte_at b (0x9C + i * 8 + 2)) rm 0 90 sticks.right_min_pct rme
              (omega arith) rmh (omega arith) k;
        right_max_pct =
            percent_back (byte_at b (0x9C + i * 8 + 3)) rx 10 100 sticks.right_max_pct rxe rxl rxh
              (omega arith) k;
        invert_left_x = f1 k;
        invert_left_y = f2 k;
        invert_right_x = f4 k;
        invert_right_y = f8 k;
        swap_sticks = f10 k;
        swap_dpad_with_left_stick = flag1 sticks k;
      })
