-- ===== src/Base/Bits.antt =====
-- `|` and `&` where one operand is a multiple of a power of two.
use Prim.Native.Nat.{
  ℕ, zero, suc, ◌+◌, ◌*◌, ◌/◌, ◌%◌, ◌^◌, ◌≤◌, ◌<◌, min, max, bit_or, bit_and, digits,
  bit_or-bitwise, bit_and-bitwise,
}
use mathlib.Core.Path.{◌≡◌, refl, ap}
use native.Mathlib.Omega.{arith}
use native.Mathlib.Nat.{pow-suc}

-- more fuel than the first operand changes nothing
module _ (z : ℕ → ℕ) (f : ℕ → ℕ → ℕ) where
  enough : (fuel more a b : ℕ) → a ≤ fuel → a ≤ more → digits z f fuel a b ≡ digits z f more a b
  enough fuel more zero b p q = enough_zero fuel more b
    where
      enough_zero : (fuel more b : ℕ) → digits z f fuel 0 b ≡ digits z f more 0 b
      enough_zero zero zero b = refl
      enough_zero zero (suc m) b = refl
      enough_zero (suc n) zero b = refl
      enough_zero (suc n) (suc m) b = refl
  enough zero more (suc a) b p q = absurd (omega arith)
  enough (suc n) zero (suc a) b p q = absurd (omega arith)
  enough (suc n) (suc m) (suc a) b p q =
      rw (enough n m (suc a / 2) (b / 2) (omega arith) (omega arith)) refl

or_zero : (b : ℕ) → bit_or 0 b ≡ b
or_zero b = bit_or-bitwise 0 b

and_zero : (b : ℕ) → bit_and 0 b ≡ 0
and_zero b = bit_and-bitwise 0 b

-- the lowest digit, and the rest
or_digit : (a b : ℕ) → bit_or a b ≡ bit_or (a / 2) (b / 2) * 2 + max (a % 2) (b % 2)
or_digit zero b = omega (arith, or_zero b, or_zero (b / 2))
or_digit (suc a) b = omega (
  arith,
  bit_or-bitwise (suc a) b,
  bit_or-bitwise (suc a / 2) (b / 2),
  enough (λ y. y) max a (suc a / 2) (suc a / 2) (b / 2) (omega arith) (omega arith),
)

and_digit : (a b : ℕ) → bit_and a b ≡ bit_and (a / 2) (b / 2) * 2 + min (a % 2) (b % 2)
and_digit zero b = omega (arith, and_zero b, and_zero (b / 2))
and_digit (suc a) b = omega (
  arith,
  bit_and-bitwise (suc a) b,
  bit_and-bitwise (suc a / 2) (b / 2),
  enough (λ y. 0) min a (suc a / 2) (suc a / 2) (b / 2) (omega arith) (omega arith),
)

or_nothing : (n a : ℕ) → a ≤ n → bit_or a 0 ≡ a
or_nothing n zero h = or_zero 0
or_nothing zero (suc a) h = absurd (omega arith)
or_nothing (suc n) (suc a) h =
    omega (arith, or_digit (suc a) 0, or_nothing n (suc a / 2) (omega arith))

times_two : (q k : ℕ) → q * 2 ^ suc k ≡ 2 * (q * 2 ^ k)
times_two q k = omega (arith, ap (λ (t : ℕ). q * t) (pow-suc 2 k))

-- `x | r` is a sum where `r` fits below the zeros of `x`
pub bit_or_low : (k q r : ℕ) → r < 2 ^ k → bit_or (q * 2 ^ k) r ≡ q * 2 ^ k + r
bit_or_low zero q r h = ground (arith, or_nothing q q)
bit_or_low (suc k) q r h =
    ground (arith, or_digit (q * 2 ^ suc k) r, times_two q k, pow-suc 2 k, bit_or_low k q (r / 2))

-- a mask with zeros below clears what is there
pub bit_and_high :
    (k q r m : ℕ) → r < 2 ^ k → bit_and (q * 2 ^ k + r) (m * 2 ^ k) ≡ bit_and q m * 2 ^ k
bit_and_high zero q r m h = ground arith
bit_and_high (suc k) q r m h = ground (
  arith,
  and_digit (q * 2 ^ suc k + r) (m * 2 ^ suc k),
  times_two q k,
  times_two m k,
  times_two (bit_and q m) k,
  pow-suc 2 k,
  bit_and_high k q (r / 2) m,
)

and_nothing : (n a : ℕ) → a ≤ n → bit_and a 0 ≡ 0
and_nothing n zero h = and_zero 0
and_nothing zero (suc a) h = absurd (omega arith)
and_nothing (suc n) (suc a) h =
    omega (arith, and_digit (suc a) 0, and_nothing n (suc a / 2) (omega arith))

-- a mask of ones keeps what is below it
pub bit_and_ones : (k q r m : ℕ) → r < 2 ^ k → m + 1 ≡ 2 ^ k → bit_and (q * 2 ^ k + r) m ≡ r
bit_and_ones zero q r m h e =
    let none_kept : bit_and (q * 1 + r) 0 ≡ 0 = and_nothing (q * 1 + r) (q * 1 + r) (omega arith) in
    ground arith
bit_and_ones (suc k) q r m h e = ground (
  arith,
  and_digit (q * 2 ^ suc k + r) m,
  times_two q k,
  pow-suc 2 k,
  bit_and_ones k q (r / 2) (m / 2),
)
