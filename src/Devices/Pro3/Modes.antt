-- ===== src/Devices/Pro3/Modes.antt =====
-- crates/controller-core/src/devices/pro3/mod.rs: the modes and the byte that stands for each.
use b.Shared.{
  refl, validation, err, Result, ◌⊎◌, ◌≡◌, ℕ, Bool, true, false, ok, inl, inr, ==_iff, arith,
  if◌then◌else◌,
}
use b.Model.Mode.{Mode, same_mode}
use b.Protocol.WireWrite.Responses.{same_bytes_iff}
use b.Devices.Pro3.{mode_byte, switch, dinput, xinput}

same_mode→eq : (m n : Mode) → same_mode m n ≡ true → m ≡ n
same_mode→eq m n h =
    let len : m.len ≡ n.len = ground (arith, ==_iff m.len n.len) in
    let id : m.id ≡ n.id = (same_bytes_iff m.id n.id).0 (ground arith) in
    λ i. record { id = id i; len = len i }

abbrev picked : Bool → Bool → Bool → Result ℕ
picked a b c = if a then ok 0 else if b then ok 1 else if c then ok 3 else err validation

pick :
    (a b c : Bool) (byte : ℕ)
    → picked a b c ≡ ok byte
    → ((a ≡ true) × (byte ≡ 0)) ⊎ (((b ≡ true) × (byte ≡ 1)) ⊎ ((c ≡ true) × (byte ≡ 3)))
pick true b c byte e = inl (refl, ground arith)
pick false true c byte e = inr (inl (refl, ground arith))
pick false false true byte e = inr (inr (refl, ground arith))
pick false false false byte e = absurd (ground arith)

-- Each mode has a byte of its own.
pub mode_byte_cases :
    (mode : Mode) (byte : ℕ)
    → mode_byte mode ≡ ok byte
    → ((mode ≡ switch) × (byte ≡ 0))
      ⊎ (((mode ≡ dinput) × (byte ≡ 1)) ⊎ ((mode ≡ xinput) × (byte ≡ 3)))
mode_byte_cases mode byte e =
    elim (pick (same_mode mode switch) (same_mode mode dinput) (same_mode mode xinput) byte
      (unfold mode_byte in e)) [
        | inl (s, b) ↦ inl (same_mode→eq mode switch s, b)
        | inr (inl (d, b)) ↦ inr (inl (same_mode→eq mode dinput d, b))
        | inr (inr (x, b)) ↦ inr (inr (same_mode→eq mode xinput x, b))
      ]
