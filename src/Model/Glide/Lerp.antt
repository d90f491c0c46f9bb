-- ===== src/Model/Glide/Lerp.antt =====
-- The value of a control on the way from one step to the next.
use native.Mathlib.Nat.{div-add-mod}
use b.Shared.{ℕ, ◌+◌, ◌-◌, ◌*◌, ◌/◌, ◌%◌, ◌≤◌, ◌<◌, min, max, ◌≡◌, arith}
use b.Model.Glide.{lerp}

-- Rounding half up stays between whole bounds.
round_bounds :
    (x n lo hi : ℕ)
    → 1 ≤ n
    → lo * n ≤ x
    → x ≤ hi * n
    → (lo ≤ (2 * x + n) / (2 * n)) × ((2 * x + n) / (2 * n) ≤ hi)
round_bounds x n lo hi p l h =
    let q : ℕ = (2 * x + n) / (2 * n) in
    let split : 2 * n * q + (2 * x + n) % (2 * n) ≡ 2 * x + n = div-add-mod (2 * x + n) (2 * n) in
    let rest : (2 * x + n) % (2 * n) < 2 * n = omega arith in (grind arith, grind arith)

weights :
    (a b k m lo hi : ℕ)
    → lo ≤ a
    → lo ≤ b
    → a ≤ hi
    → b ≤ hi
    → (lo * (m + k) ≤ a * m + b * k) × (a * m + b * k ≤ hi * (m + k))
weights a b k m lo hi p q r s = (grind arith, grind arith)

lerp_within :
    (a b k n lo hi : ℕ)
    → lo ≤ a
    → lo ≤ b
    → a ≤ hi
    → b ≤ hi
    → hi ≤ 255
    → k ≤ n
    → 1 ≤ n
    → (lo ≤ lerp a b k n) × (lerp a b k n ≤ hi)
unfolding lerp
lerp_within a b k n lo hi p q r s h l m =
    let whole : n - k + k ≡ n = omega arith in
    let one : max n 1 ≡ n = omega arith in
    let (low, high) = rw whole at (weights a b k (n - k) lo hi p q r s) in
    let (low', high') = round_bounds (a * (n - k) + b * k) n lo hi m low high in
    rw one (ground arith)

lerp_exact : (a b k n v : ℕ) → v ≤ 255 → 1 ≤ n → a * (n - k) + b * k ≡ v * n → lerp a b k n ≡ v
unfolding lerp
lerp_exact a b k n v h m e =
    let one : max n 1 ≡ n = omega arith in
    let (low, high) = round_bounds (a * (n - k) + b * k) n v v m (omega arith) (omega arith) in
    rw one (ground arith)

-- A glide starts at its own value, ends short of or at the next one, and never leaves the range
-- between the two.
lerp_bounds :
    (a b k n : ℕ)
    → a ≤ 255
    → b ≤ 255
    → k ≤ n
    → 1 ≤ n
    → (lerp a b 0 n ≡ a) × (lerp a b n n ≡ b) × (min a b ≤ lerp a b k n) × (lerp a b k n ≤ max a b)
unfolding lerp
lerp_bounds a b k n h g l m =
    let (low, high) =
      lerp_within a b k n (min a b) (max a b) (omega arith) (omega arith) (omega arith)
        (omega arith) (omega arith) l m in
    (lerp_exact a b 0 n a h m start, lerp_exact a b n n b g m finish, low, high)
  where
    start : a * (n - 0) + b * 0 ≡ a * n
    start = let all_left : n - 0 ≡ n = omega arith in rw all_left (omega arith)

    finish : a * (n - n) + b * n ≡ b * n
    finish = let none_left : n - n ≡ 0 = omega arith in rw none_left (omega arith)
