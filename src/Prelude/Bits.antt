-- ===== src/Prelude/Bits.antt =====
-- What `&` and `|` do with the fields of a word.
use Prim.Native.Nat.{
  ℕ, zero, suc, ◌+◌, ◌-◌, ◌*◌, ◌/◌, ◌%◌, ◌^◌, ◌≤◌, ◌<◌, min, max, digits, bitwise, bit_and, bit_or,
  bit_and-bitwise, bit_or-bitwise,
}
use mathlib.Core.Path.{◌≡◌, refl, ap}
use native.Mathlib.Nat.{pow-suc}
use native.Mathlib.Omega.{arith}

-- The count of digits that the operations are given makes no difference.
module _ (z : ℕ → ℕ) (f : ℕ → ℕ → ℕ) where
  digits_count : (n m a b : ℕ) → a ≤ n → a ≤ m → digits z f n a b ≡ digits z f m a b
  digits_count zero zero a b p q = refl
  digits_count zero (suc m) zero b p q = refl
  digits_count (suc n) zero zero b p q = refl
  digits_count (suc n) (suc m) zero b p q = refl
  digits_count (suc n) (suc m) (suc a) b p q =
      ap (λ x. x * 2 + f (suc a % 2) (b % 2))
        (digits_count n m (suc a / 2) (b / 2) (omega arith) (omega arith))
  digits_count _ _ (suc a) b p q = absurd (omega arith)

  bitwise-digit :
      (a b : ℕ)
      → bitwise z f (suc a) b ≡ bitwise z f (suc a / 2) (b / 2) * 2 + f (suc a % 2) (b % 2)
  bitwise-digit a b =
      omega (arith, digits_count a (suc a / 2) (suc a / 2) (b / 2) (omega arith) (omega arith))

or_digit : (a b : ℕ) → bit_or a b ≡ bit_or (a / 2) (b / 2) * 2 + max (a % 2) (b % 2)
or_digit zero b = simp bit_or-bitwise (omega arith)
or_digit (suc a) b = simp bit_or-bitwise (bitwise-digit (λ y. y) max a b)

and_digit : (a b : ℕ) → bit_and a b ≡ bit_and (a / 2) (b / 2) * 2 + min (a % 2) (b % 2)
and_digit zero b = simp bit_and-bitwise (omega arith)
and_digit (suc a) b = simp bit_and-bitwise (bitwise-digit (λ y. 0) min a b)

double : (q k : ℕ) → q * 2 ^ suc k ≡ 2 * (q * 2 ^ k)
double q k = omega (arith, ap (λ (p : ℕ). q * p) (pow-suc 2 k))

pub zero_or : (b : ℕ) → bit_or 0 b ≡ b
zero_or b = simp bit_or-bitwise refl

or_zero : (n a : ℕ) → a ≤ n → bit_or a 0 ≡ a
or_zero n zero h = simp bit_or-bitwise refl
or_zero zero (suc a) h = absurd (omega arith)
or_zero (suc n) (suc a) h = omega (arith, or_digit (suc a) 0, or_zero n (suc a / 2) (omega arith))

-- A field below the bits that are set already.
pub or_below : (k q r : ℕ) → r < 2 ^ k → bit_or (q * 2 ^ k) r ≡ q * 2 ^ k + r
or_below zero q zero h = omega (arith, or_zero (q * 1) (q * 1) (omega arith))
or_below zero q (suc r) h = absurd (omega arith)
or_below (suc k) q r h =
    ground (arith, or_digit (q * 2 ^ suc k) r, double q k, or_below k q (r / 2) (omega arith))

-- A field above the bits that are set already.
pub or_above : (k r q : ℕ) → r < 2 ^ k → bit_or r (q * 2 ^ k) ≡ r + q * 2 ^ k
or_above zero zero q h = simp bit_or-bitwise (omega arith)
or_above zero (suc r) q h = absurd (omega arith)
or_above (suc k) r q h =
    ground (arith, or_digit r (q * 2 ^ suc k), double q k, or_above k (r / 2) q (omega arith))

and_zero : (n a : ℕ) → a ≤ n → bit_and a 0 ≡ 0
and_zero n zero h = simp bit_and-bitwise refl
and_zero zero (suc a) h = absurd (omega arith)
and_zero (suc n) (suc a) h =
    omega (arith, and_digit (suc a) 0, and_zero n (suc a / 2) (omega arith))

-- A mask of `w` low bits.
pub and_low : (w q r : ℕ) → r < 2 ^ w → bit_and (r + q * 2 ^ w) (2 ^ w - 1) ≡ r
and_low zero q r h = omega (arith, and_zero (r + q * 1) (r + q * 1) (omega arith))
and_low (suc w) q r h = ground (
  arith,
  and_digit (r + q * 2 ^ suc w) (2 ^ suc w - 1),
  double q w,
  pow-suc 2 w,
  and_low w q (r / 2) (omega arith),
)

-- A mask in its place, above `k` bits.
pub and_above :
    (k r q m : ℕ) → r < 2 ^ k → bit_and (r + q * 2 ^ k) (m * 2 ^ k) ≡ bit_and q m * 2 ^ k
and_above zero zero q m h =
    let same : 0 + q * 1 ≡ q = omega arith in
    let mask : m * 1 ≡ m = omega arith in
    let value : bit_and q m * 1 ≡ bit_and q m = omega arith in rw (same, mask, value)
and_above zero (suc r) q m h = absurd (omega arith)
and_above (suc k) r q m h = ground (
  arith,
  and_digit (r + q * 2 ^ suc k) (m * 2 ^ suc k),
  double q k,
  double m k,
  double (bit_and q m) k,
  and_above k (r / 2) q m (omega arith),
)
