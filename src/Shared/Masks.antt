-- ===== src/Shared/Masks.antt =====
-- `&` and `|` at variables, from the recursion on binary digits that they stand for.
use Prim.Native.Nat.{
  ℕ, zero, suc, ◌+◌, ◌-◌, ◌*◌, ◌/◌, ◌%◌, ◌^◌, ◌≤◌, ◌<◌, min, max, bit_and, bit_or, digits,
  bit_and-bitwise, bit_or-bitwise,
}
use mathlib.Core.Path.{◌≡◌, refl, ap, ap₂, ◌∙◌}
use mathlib.Core.Logic.{inl, inr, ◌⊎◌}
use mathlib.Core.Bool.{true, false, Bool, not, ◌||◌}
use native.Mathlib.Omega.{arith}
use native.Mathlib.Nat.{pow-suc}
use b.Shared.Tests.{◌==◌}

abbrev and_digits : ℕ → ℕ → ℕ → ℕ
and_digits n a b = digits (λ y. zero) min n a b

abbrev or_digits : ℕ → ℕ → ℕ → ℕ
or_digits n a b = digits (λ y. y) max n a b

and_fuel : (a b n m : ℕ) → a ≤ n → a ≤ m → and_digits n a b ≡ and_digits m a b
and_fuel zero b zero zero h k = refl
and_fuel zero b zero (suc m) h k = refl
and_fuel zero b (suc n) zero h k = refl
and_fuel zero b (suc n) (suc m) h k = refl
and_fuel (suc a) b zero m h k = absurd (omega arith)
and_fuel (suc a) b (suc n) zero h k = absurd (omega arith)
and_fuel (suc a) b (suc n) (suc m) h k =
    ap (λ (t : ℕ). t * 2 + min (suc a % 2) (b % 2))
      (and_fuel (suc a / 2) (b / 2) n m (omega arith) (omega arith))

or_fuel : (a b n m : ℕ) → a ≤ n → a ≤ m → or_digits n a b ≡ or_digits m a b
or_fuel zero b zero zero h k = refl
or_fuel zero b zero (suc m) h k = refl
or_fuel zero b (suc n) zero h k = refl
or_fuel zero b (suc n) (suc m) h k = refl
or_fuel (suc a) b zero m h k = absurd (omega arith)
or_fuel (suc a) b (suc n) zero h k = absurd (omega arith)
or_fuel (suc a) b (suc n) (suc m) h k =
    ap (λ (t : ℕ). t * 2 + max (suc a % 2) (b % 2))
      (or_fuel (suc a / 2) (b / 2) n m (omega arith) (omega arith))

-- The lowest digit, and the rest.
low-bit_and : (m n : ℕ) → bit_and m n ≡ min (m % 2) (n % 2) + 2 * bit_and (m / 2) (n / 2)
low-bit_and zero n = simp bit_and-bitwise (omega arith)
low-bit_and (suc m) n =
    let enough : and_digits m (suc m / 2) (n / 2) ≡ and_digits (suc m / 2) (suc m / 2) (n / 2) =
      and_fuel (suc m / 2) (n / 2) m (suc m / 2) (omega arith) (omega arith) in
    simp bit_and-bitwise (omega (arith, enough))

-- The lowest digit, and the rest.
low-bit_or : (m n : ℕ) → bit_or m n ≡ max (m % 2) (n % 2) + 2 * bit_or (m / 2) (n / 2)
low-bit_or zero n = simp bit_or-bitwise (omega arith)
low-bit_or (suc m) n =
    let enough : or_digits m (suc m / 2) (n / 2) ≡ or_digits (suc m / 2) (suc m / 2) (n / 2) =
      or_fuel (suc m / 2) (n / 2) m (suc m / 2) (omega arith) (omega arith) in
    simp bit_or-bitwise (omega (arith, enough))

zero-bit_and : (b : ℕ) → bit_and 0 b ≡ 0
zero-bit_and b = simp bit_and-bitwise

and_zero_at : (n a : ℕ) → a ≤ n → bit_and a 0 ≡ 0
and_zero_at n zero h = refl
and_zero_at zero (suc a) h = absurd (omega arith)
and_zero_at (suc n) (suc a) h =
    omega (arith, low-bit_and (suc a) 0, and_zero_at n (suc a / 2) (omega arith))

pub bit_and-zero : (a : ℕ) → bit_and a 0 ≡ 0
bit_and-zero a = and_zero_at a a (omega arith)

or_zero_at : (n a : ℕ) → a ≤ n → bit_or a 0 ≡ a
or_zero_at n zero h = refl
or_zero_at zero (suc a) h = absurd (omega arith)
or_zero_at (suc n) (suc a) h =
    omega (arith, low-bit_or (suc a) 0, or_zero_at n (suc a / 2) (omega arith))

pub zero-bit_or : (b : ℕ) → bit_or 0 b ≡ b
zero-bit_or b = simp bit_or-bitwise

pub bit_or-zero : (a : ℕ) → bit_or a 0 ≡ a
bit_or-zero a = or_zero_at a a (omega arith)

or_assoc_at : (n a b c : ℕ) → a ≤ n → b ≤ n → c ≤ n → bit_or (bit_or a b) c ≡ bit_or a (bit_or b c)
or_assoc_at zero zero zero zero h k l = refl
or_assoc_at zero (suc a) b c h k l = absurd (omega arith)
or_assoc_at zero zero (suc b) c h k l = absurd (omega arith)
or_assoc_at zero zero zero (suc c) h k l = absurd (omega arith)
or_assoc_at (suc n) a b c h k l =
    let ab : bit_or a b / 2 ≡ bit_or (a / 2) (b / 2) = omega (arith, low-bit_or a b) in
    let bc : bit_or b c / 2 ≡ bit_or (b / 2) (c / 2) = omega (arith, low-bit_or b c) in
    let ih = or_assoc_at n (a / 2) (b / 2) (c / 2) (omega arith) (omega arith) (omega arith) in
    rw (low-bit_or (bit_or a b) c, low-bit_or a (bit_or b c), ab, bc, ih)
      (omega (arith, low-bit_or a b, low-bit_or b c))

pub bit_or_assoc : (a b c : ℕ) → bit_or (bit_or a b) c ≡ bit_or a (bit_or b c)
bit_or_assoc a b c = or_assoc_at (a + b + c) a b c (omega arith) (omega arith) (omega arith)

and_or_at : (n k a b : ℕ) → k ≤ n → bit_and k (bit_or a b) ≡ bit_or (bit_and k a) (bit_and k b)
and_or_at n zero a b h = rw (zero-bit_and (bit_or a b), zero-bit_and a, zero-bit_and b)
and_or_at zero (suc k) a b h = absurd (omega arith)
and_or_at (suc n) (suc k) a b h =
    let ab : bit_or a b / 2 ≡ bit_or (a / 2) (b / 2) = omega (arith, low-bit_or a b) in
    let ka : bit_and (suc k) a / 2 ≡ bit_and (suc k / 2) (a / 2) =
      omega (arith, low-bit_and (suc k) a) in
    let kb : bit_and (suc k) b / 2 ≡ bit_and (suc k / 2) (b / 2) =
      omega (arith, low-bit_and (suc k) b) in
    let ih = and_or_at n (suc k / 2) (a / 2) (b / 2) (omega arith) in
    rw
      (
        low-bit_and (suc k) (bit_or a b),
        low-bit_or (bit_and (suc k) a) (bit_and (suc k) b),
        ab,
        ka,
        kb,
        ih,
      )
      (omega (arith, low-bit_or a b, low-bit_and (suc k) a, low-bit_and (suc k) b))

-- `k & (a | b)`
pub bit_and-bit_or : (k a b : ℕ) → bit_and k (bit_or a b) ≡ bit_or (bit_and k a) (bit_and k b)
bit_and-bit_or k a b = and_or_at k k a b (omega arith)

and_comm_at : (n a b : ℕ) → a ≤ n → bit_and a b ≡ bit_and b a
and_comm_at n zero b h = omega (arith, bit_and-zero b, bit_and-bitwise 0 b)
and_comm_at zero (suc a) b h = absurd (omega arith)
and_comm_at (suc n) (suc a) b h = omega (
  arith,
  low-bit_and (suc a) b,
  low-bit_and b (suc a),
  and_comm_at n (suc a / 2) (b / 2) (omega arith),
)

pub bit_and_comm : (a b : ℕ) → bit_and a b ≡ bit_and b a
bit_and_comm a b = and_comm_at a a b (omega arith)

or_zero_parts_at : (n a b : ℕ) → a ≤ n → b ≤ n → bit_or a b ≡ 0 → (a ≡ 0) × (b ≡ 0)
or_zero_parts_at zero a b h k e = (omega arith, omega arith)
or_zero_parts_at (suc n) a b h k e =
    let ih =
      or_zero_parts_at n (a / 2) (b / 2) (omega arith) (omega arith)
        (omega (arith, low-bit_or a b)) in
    (omega (arith, low-bit_or a b, ih.0), omega (arith, low-bit_or a b, ih.1))

bit_or_zero_parts : (a b : ℕ) → bit_or a b ≡ 0 → (a ≡ 0) × (b ≡ 0)
bit_or_zero_parts a b e = or_zero_parts_at (a + b) a b (omega arith) (omega arith) e

-- The mask of one bit keeps that bit or nothing.
pub bit_and-pow : (i k : ℕ) → (bit_and k (2 ^ i) ≡ 0) ⊎ (bit_and k (2 ^ i) ≡ 2 ^ i)
bit_and-pow zero k = ground (arith, low-bit_and k 1, bit_and-zero (k / 2))
bit_and-pow (suc i) k =
    ground (arith, low-bit_and k (2 ^ suc i), pow-suc 2 i, bit_and-pow i (k / 2))

-- A mask and its complement in `n` bits keep all of a number of `n` bits.
pub bit_or-complement :
    (n k m : ℕ) → k < 2 ^ n → m < 2 ^ n → bit_or (bit_and k m) (bit_and k (2 ^ n - 1 - m)) ≡ k
bit_or-complement zero zero m h g = rw (zero-bit_and m, zero-bit_and (2 ^ 0 - 1 - m))
bit_or-complement zero (suc k) m h g = absurd (omega arith)
bit_or-complement (suc n) k m h g =
    let c : ℕ = 2 ^ suc n - 1 - m in
    let half : c / 2 ≡ 2 ^ n - 1 - m / 2 = omega (arith, pow-suc 2 n) in
    let km : bit_and k m / 2 ≡ bit_and (k / 2) (m / 2) = omega (arith, low-bit_and k m) in
    let kc : bit_and k c / 2 ≡ bit_and (k / 2) (2 ^ n - 1 - m / 2) =
      rw (← half) (omega (arith, low-bit_and k c)) in
    let ih =
      bit_or-complement n (k / 2) (m / 2) (omega (arith, pow-suc 2 n))
        (omega (arith, pow-suc 2 n)) in
    rw (low-bit_or (bit_and k m) (bit_and k c), km, kc, ih)
      (omega (arith, low-bit_and k m, low-bit_and k c, pow-suc 2 n))

and_assoc_at : (n a b c : ℕ) → a ≤ n → bit_and (bit_and a b) c ≡ bit_and a (bit_and b c)
and_assoc_at n zero b c h = rw (zero-bit_and b, zero-bit_and c, zero-bit_and (bit_and b c))
and_assoc_at zero (suc a) b c h = absurd (omega arith)
and_assoc_at (suc n) (suc a) b c h =
    let ab : bit_and (suc a) b / 2 ≡ bit_and (suc a / 2) (b / 2) =
      omega (arith, low-bit_and (suc a) b) in
    let bc : bit_and b c / 2 ≡ bit_and (b / 2) (c / 2) = omega (arith, low-bit_and b c) in
    let ih = and_assoc_at n (suc a / 2) (b / 2) (c / 2) (omega arith) in
    rw (low-bit_and (bit_and (suc a) b) c, low-bit_and (suc a) (bit_and b c), ab, bc, ih)
      (omega (arith, low-bit_and (suc a) b, low-bit_and b c))

pub bit_and_assoc : (a b c : ℕ) → bit_and (bit_and a b) c ≡ bit_and a (bit_and b c)
bit_and_assoc a b c = and_assoc_at a a b c (omega arith)

pub bit_and-le : (n a b : ℕ) → a ≤ n → bit_and a b ≤ a
bit_and-le n zero b h = omega (arith, zero-bit_and b)
bit_and-le zero (suc a) b h = absurd (omega arith)
bit_and-le (suc n) (suc a) b h =
    omega (arith, low-bit_and (suc a) b, bit_and-le n (suc a / 2) (b / 2) (omega arith))

-- Words of `k` bits are closed under `|`.
pub bit_or-lt : (k a b : ℕ) → a < 2 ^ k → b < 2 ^ k → bit_or a b < 2 ^ k
bit_or-lt zero zero zero h g = h
bit_or-lt zero (suc a) b h g = absurd (omega arith)
bit_or-lt zero zero (suc b) h g = absurd (omega arith)
bit_or-lt (suc k) a b h g = omega (
  arith,
  low-bit_or a b,
  pow-suc 2 k,
  bit_or-lt k (a / 2) (b / 2) (omega (arith, pow-suc 2 k)) (omega (arith, pow-suc 2 k)),
)

-- `k & mask != 0`
abbrev pub has_bit : ℕ → ℕ → Bool
has_bit k mask = not (bit_and k mask == 0)

-- A mask has a bit in common with `a | b` when it has one with `a` or with `b`.
pub has_bit-bit_or : (a b m : ℕ) → has_bit (bit_or a b) m ≡ (has_bit a m || has_bit b m)
has_bit-bit_or a b m =
    let e : bit_and (bit_or a b) m ≡ bit_or (bit_and a m) (bit_and b m) =
      bit_and_comm (bit_or a b) m
      ∙ bit_and-bit_or m a b
      ∙ ap₂ bit_or (bit_and_comm m a) (bit_and_comm m b) in
    rw e (parts (bit_and a m) (bit_and b m))
  where
    parts : (x y : ℕ) → not (bit_or x y == 0) ≡ (not (x == 0) || not (y == 0))
    parts zero zero = refl
    parts zero (suc y) = ground (arith, bit_or_zero_parts 0 (suc y))
    parts (suc x) y = ground (arith, bit_or_zero_parts (suc x) y)

pub none_of_has_bit : (k m : ℕ) → has_bit k m ≡ false → bit_and k m ≡ 0
none_of_has_bit k m off = ground arith

pub all_of_has_bit :
    (k m : ℕ) → (bit_and k m ≡ 0) ⊎ (bit_and k m ≡ m) → has_bit k m ≡ true → bit_and k m ≡ m
all_of_has_bit k m (inl none_of) on = ground arith
all_of_has_bit k m (inr all_of) on = all_of
