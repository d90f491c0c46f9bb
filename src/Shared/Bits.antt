-- ===== src/Shared/Bits.antt =====
-- Bit operations at variables, from the recursion on binary digits that they stand for.
use Prim.Native.Nat.{
  ℕ, zero, suc, ◌+◌, ◌*◌, ◌/◌, ◌%◌, ◌^◌, ◌≤◌, ◌<◌, bit_xor, digits, bit_xor-bitwise, differ,
}
use mathlib.Core.Path.{◌≡◌, refl, ap}
use native.Mathlib.Omega.{arith}
use native.Mathlib.Nat.{pow-suc}

-- Any fuel from `a` on gives the same digits.
xor_fuel :
    (a b n m : ℕ) → a ≤ n → a ≤ m → digits (λ y. y) differ n a b ≡ digits (λ y. y) differ m a b
xor_fuel zero b zero zero h k = refl
xor_fuel zero b zero (suc m) h k = refl
xor_fuel zero b (suc n) zero h k = refl
xor_fuel zero b (suc n) (suc m) h k = refl
xor_fuel (suc a) b zero m h k = absurd (omega arith)
xor_fuel (suc a) b (suc n) zero h k = absurd (omega arith)
xor_fuel (suc a) b (suc n) (suc m) h k =
    ap (λ (t : ℕ). t * 2 + differ (suc a % 2) (b % 2))
      (xor_fuel (suc a / 2) (b / 2) n m (omega arith) (omega arith))

xor_digits : (a b : ℕ) → bit_xor a b ≡ bit_xor (a / 2) (b / 2) * 2 + differ (a % 2) (b % 2)
xor_digits zero b = simp bit_xor-bitwise (omega arith)
xor_digits (suc a) b = simp bit_xor-bitwise (
    ap (λ (t : ℕ). t * 2 + differ (suc a % 2) (b % 2))
      (xor_fuel (suc a / 2) (b / 2) a (suc a / 2) (omega arith) (omega arith)))

differ_lem : (x y : ℕ) → x < 2 → y < 2 → differ x y ≡ (x + y) % 2
differ_lem zero y h k = omega arith
differ_lem (suc x) zero h k = omega arith
differ_lem (suc zero) (suc zero) h k = refl
differ_lem (suc (suc x)) (suc y) h k = absurd (omega arith)
differ_lem (suc zero) (suc (suc y)) h k = absurd (omega arith)

-- The lowest digit of `a ^ b` is set when just one of theirs is.
pub bit_xor_step : (a b : ℕ) → bit_xor a b ≡ bit_xor (a / 2) (b / 2) * 2 + (a + b) % 2
bit_xor_step a b =
    omega (arith, xor_digits a b, differ_lem (a % 2) (b % 2) (omega arith) (omega arith))

-- Words of `k` bits are closed under `^`.
pub bit_xor-lt : (k a b : ℕ) → a < 2 ^ k → b < 2 ^ k → bit_xor a b < 2 ^ k
bit_xor-lt zero zero zero h g = h
bit_xor-lt zero (suc a) b h g = absurd (omega arith)
bit_xor-lt zero zero (suc b) h g = absurd (omega arith)
bit_xor-lt (suc k) a b h g = omega (
  arith,
  bit_xor_step a b,
  pow-suc 2 k,
  bit_xor-lt k (a / 2) (b / 2) (omega (arith, pow-suc 2 k)) (omega (arith, pow-suc 2 k)),
)

-- `x ^ y ^ y` is `x`.
pub bit_xor_cancel : (k a b : ℕ) → a < 2 ^ k → b < 2 ^ k → bit_xor (bit_xor a b) b ≡ a
bit_xor_cancel zero zero zero h g = refl
bit_xor_cancel zero (suc a) b h g = absurd (omega arith)
bit_xor_cancel zero zero (suc b) h g = absurd (omega arith)
bit_xor_cancel (suc k) a b h g =
    let half : bit_xor a b / 2 ≡ bit_xor (a / 2) (b / 2) = omega (arith, bit_xor_step a b) in
    let ih : bit_xor (bit_xor (a / 2) (b / 2)) (b / 2) ≡ a / 2 =
      bit_xor_cancel k (a / 2) (b / 2) (omega (arith, pow-suc 2 k)) (omega (arith, pow-suc 2 k)) in
    rw (bit_xor_step (bit_xor a b) b, half, ih) (omega (arith, bit_xor_step a b))

pub bit_xor-zero : (k a : ℕ) → a < 2 ^ k → bit_xor a 0 ≡ a
bit_xor-zero zero zero h = refl
bit_xor-zero zero (suc a) h = absurd (omega arith)
bit_xor-zero (suc k) a h =
    omega (arith, bit_xor_step a 0, bit_xor-zero k (a / 2) (omega (arith, pow-suc 2 k)))

-- `x ^ (x & (2^k - 1))` clears the low `k` bits.
pub bit_xor_low : (n k h l : ℕ) → h < 2 ^ n → l < 2 ^ k → bit_xor (h * 2 ^ k + l) l ≡ h * 2 ^ k
bit_xor_low n zero h zero p q = rw (bit_xor-zero n (h * 1 + 0) (omega arith)) (omega arith)
bit_xor_low n zero h (suc l) p q = absurd (omega arith)
bit_xor_low n (suc k) h l p q = ground (
  arith,
  bit_xor_step (h * 2 ^ suc k + l) l,
  pow-suc 2 k,
  ap (λ (t : ℕ). h * t) (pow-suc 2 k),
  bit_xor_low n k h (l / 2) p (omega (arith, pow-suc 2 k)),
)

-- A set top bit tells the two halves of a word apart.
pub bit_xor_top : (k a b : ℕ) → a < 2 ^ k → b < 2 ^ k → bit_xor a (2 ^ k + b) ≡ 2 ^ k + bit_xor a b
bit_xor_top zero zero zero h g = refl
bit_xor_top zero (suc a) b h g = absurd (omega arith)
bit_xor_top zero zero (suc b) h g = absurd (omega arith)
bit_xor_top (suc k) a b h g = ground (
  arith,
  bit_xor_step a (2 ^ suc k + b),
  bit_xor_step a b,
  pow-suc 2 k,
  bit_xor_top k (a / 2) (b / 2) (omega (arith, pow-suc 2 k)) (omega (arith, pow-suc 2 k)),
)

pub bit_xor_comm : (k a b : ℕ) → a < 2 ^ k → b < 2 ^ k → bit_xor a b ≡ bit_xor b a
bit_xor_comm zero zero zero h g = refl
bit_xor_comm zero (suc a) b h g = absurd (omega arith)
bit_xor_comm zero zero (suc b) h g = absurd (omega arith)
bit_xor_comm (suc k) a b h g = ground (
  arith,
  bit_xor_step a b,
  bit_xor_step b a,
  pow-suc 2 k,
  bit_xor_comm k (a / 2) (b / 2) (omega (arith, pow-suc 2 k)) (omega (arith, pow-suc 2 k)),
)
