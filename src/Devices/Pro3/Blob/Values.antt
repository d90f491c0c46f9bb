-- ===== src/Devices/Pro3/Blob/Values.antt =====
-- crates/controller-core/src/devices/pro3/profile.rs: percentages and flags as bytes.
use b.Devices.Pro3.Macros.Buttons.{same, same→eq}
use b.Shared.{
  true, false, ℕ, ◌≤◌, ◌≡◌, ◌==◌, ◌&&◌, refl, inl, inr, Bool, true, false, Bool-cases, ==_iff,
  arith,
}
use b.Shared.Int.{ℤ, pos}
use b.Shared.Masks.{has_bit}
use b.Devices.Pro3.Blob.{or_if, swap_triggers_of, flags0_of}
use b.Devices.Pro3.Compile.{keep_or_encode, percent_to_byte, percent_to_stick_byte}
use b.Devices.Pro3.Profile.{to_percent}
use b.Devices.Pro3.Settings.{Sticks, Triggers}

-- A percentage reads back from the byte that it is written as.
pub stick_byte : (p : ℕ) → p ≤ 100 → to_percent (percent_to_stick_byte (pos p)) 128 ≡ p
unfolding to_percent percent_to_byte
stick_byte p h = ground arith

-- So does one whose byte was kept.
pub to_percent-keep_or_encode :
    (base p raw : ℕ) (encode : ℤ → ℕ)
    → to_percent (encode (pos p)) raw ≡ p
    → to_percent (keep_or_encode base (pos p) raw encode) raw ≡ p
unfolding keep_or_encode
to_percent-keep_or_encode base p raw encode h = elim (Bool-cases (to_percent base raw == p)) [
  | inl same ↦ rw same ((==_iff (to_percent base raw) p).0 same)
  | inr other ↦ rw other h
]

abbrev flag_byte : Bool → Bool → Bool → Bool → Bool → Bool → ℕ
flag_byte a b c d e f =
    or_if f 0x80 (or_if e 0x10 (or_if d 0x08 (or_if c 0x04 (or_if b 0x02 (or_if a 0x01 0)))))

both : (Bool → Bool) → Bool
both p = p true && p false

both→all : (p : Bool → Bool) → both p ≡ true → (a : Bool) → p a ≡ true
unfolding both
both→all p h true = ground arith
both→all p h false = ground arith

agrees : Bool → Bool → Bool → Bool → Bool → Bool → Bool
unfolding same
agrees a b c d e f =
    let flags = flag_byte a b c d e f in
    same (has_bit flags 0x01) a
    && (same (has_bit flags 0x02) b
        && (same (has_bit flags 0x04) c
            && (same (has_bit flags 0x08) d
                && (same (has_bit flags 0x10) e && same (has_bit flags 0x80) f))))

all_agree :
    both (λ a. both (λ b. both (λ c. both (λ d. both (λ e. both (λ f. agrees a b c d e f))))))
    ≡ true
unfolding both agrees
all_agree = refl

flag_byte-has_bit :
    (a b c d e f : Bool)
    → (has_bit (flag_byte a b c d e f) 0x01 ≡ a)
      × (has_bit (flag_byte a b c d e f) 0x02 ≡ b)
      × (has_bit (flag_byte a b c d e f) 0x04 ≡ c)
      × (has_bit (flag_byte a b c d e f) 0x08 ≡ d)
      × (has_bit (flag_byte a b c d e f) 0x10 ≡ e)
      × (has_bit (flag_byte a b c d e f) 0x80 ≡ f)
unfolding agrees
flag_byte-has_bit a b c d e f =
    let checked : agrees a b c d e f ≡ true =
      both→all (λ f. agrees a b c d e f)
        (both→all (λ e. both (λ f. agrees a b c d e f))
          (both→all (λ d. both (λ e. both (λ f. agrees a b c d e f)))
            (both→all (λ c. both (λ d. both (λ e. both (λ f. agrees a b c d e f))))
              (both→all (λ b. both (λ c. both (λ d. both (λ e. both (λ f. agrees a b c d e f)))))
                (both→all
                  (λ a.
                    both (λ b. both (λ c. both (λ d. both (λ e. both (λ f. agrees a b c d e f))))))
                  all_agree a)
                b)
              c)
            d)
          e)
        f in
    let flags : ℕ = flag_byte a b c d e f in
    (
      same→eq (has_bit flags 0x01) a (ground arith),
      same→eq (has_bit flags 0x02) b (ground arith),
      same→eq (has_bit flags 0x04) c (ground arith),
      same→eq (has_bit flags 0x08) d (ground arith),
      same→eq (has_bit flags 0x10) e (ground arith),
      same→eq (has_bit flags 0x80) f (ground arith),
    )

-- The flags read back from their bytes.
pub flags0-has_bit :
    (sticks : Sticks) (triggers : Triggers)
    → (has_bit (flags0_of sticks triggers) 0x01 ≡ sticks.invert_left_x)
      × (has_bit (flags0_of sticks triggers) 0x02 ≡ sticks.invert_left_y)
      × (has_bit (flags0_of sticks triggers) 0x04 ≡ sticks.invert_right_x)
      × (has_bit (flags0_of sticks triggers) 0x08 ≡ sticks.invert_right_y)
      × (has_bit (flags0_of sticks triggers) 0x10 ≡ sticks.swap_sticks)
      × (has_bit (flags0_of sticks triggers) 0x80 ≡ swap_triggers_of triggers)
unfolding flags0_of
flags0-has_bit sticks triggers =
    flag_byte-has_bit sticks.invert_left_x sticks.invert_left_y sticks.invert_right_x
      sticks.invert_right_y sticks.swap_sticks (swap_triggers_of triggers)
