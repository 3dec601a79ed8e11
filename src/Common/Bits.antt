-- ===== src/Common/Bits.antt =====
-- `|`, `&` and `^` of C at variables: the lowest digit of each, fields joined by `|`, masks, and
-- the width of a result.
use Prim.Native.Nat.{
  ℕ, zero, suc, ◌+◌, ◌-◌, ◌*◌, ◌/◌, ◌%◌, ◌^◌, ◌≤◌, ◌<◌, min, max, bit_and, bit_or, bit_xor, digits,
  bitwise, differ, bit_and-bitwise, bit_or-bitwise, bit_xor-bitwise,
}
use mathlib.Core.Path.{◌≡◌, refl, ap}
use native.Mathlib.Nat.{pow-suc, one-le-pow}
use native.Mathlib.Omega.{arith}

module _ (z : ℕ → ℕ) (f : ℕ → ℕ → ℕ) where
  -- Any count of digits serves that the first number does not exceed.
  digits_count : (n a b m : ℕ) → a ≤ n → a ≤ m → digits z f n a b ≡ digits z f m a b
  digits_count n zero b m p q = digits_none n b m
    where
      digits_none : (n b m : ℕ) → digits z f n zero b ≡ digits z f m zero b
      digits_none zero b zero = refl
      digits_none zero b (suc m) = refl
      digits_none (suc n) b zero = refl
      digits_none (suc n) b (suc m) = refl
  digits_count zero (suc a) b m p q = absurd (omega arith)
  digits_count (suc n) (suc a) b zero p q = absurd (omega arith)
  digits_count (suc n) (suc a) b (suc m) p q =
      ap (λ (t : ℕ). t * 2 + f (suc a % 2) (b % 2))
        (digits_count n (suc a / 2) (b / 2) m (omega arith) (omega arith))

  lowest_digit :
      (a b : ℕ)
      → bitwise z f (suc a) b ≡ f (suc a % 2) (b % 2) + 2 * bitwise z f (suc a / 2) (b / 2)
  lowest_digit a b =
      omega (arith, digits_count a (suc a / 2) (b / 2) (suc a / 2) (omega arith) (omega arith))

or_step : (a b : ℕ) → bit_or a b ≡ max (a % 2) (b % 2) + 2 * bit_or (a / 2) (b / 2)
or_step (suc a) b = simp bit_or-bitwise (lowest_digit (λ y. y) max a b)
or_step zero b = simp bit_or-bitwise (omega arith)

and_step : (a b : ℕ) → bit_and a b ≡ min (a % 2) (b % 2) + 2 * bit_and (a / 2) (b / 2)
and_step (suc a) b = simp bit_and-bitwise (lowest_digit (λ y. 0) min a b)
and_step zero b = simp bit_and-bitwise (omega arith)

xor_step : (a b : ℕ) → bit_xor a b ≡ differ (a % 2) (b % 2) + 2 * bit_xor (a / 2) (b / 2)
xor_step (suc a) b = simp bit_xor-bitwise (lowest_digit (λ y. y) differ a b)
xor_step zero b = simp bit_xor-bitwise (omega arith)

or-zero_left : (b : ℕ) → bit_or 0 b ≡ b
or-zero_left b = bit_or-bitwise 0 b

or-zero_count : (a bound : ℕ) → a < suc bound → bit_or a 0 ≡ a
or-zero_count (suc a) (suc bound) h =
    omega (arith, or-zero_count (suc a / 2) bound (omega arith), or_step (suc a) 0)
or-zero_count (suc a) zero h = absurd (omega arith)
or-zero_count zero bound h = refl

and-zero_count : (a bound : ℕ) → a < suc bound → bit_and a 0 ≡ 0
and-zero_count (suc a) (suc bound) h =
    omega (arith, and-zero_count (suc a / 2) bound (omega arith), and_step (suc a) 0)
and-zero_count (suc a) zero h = absurd (omega arith)
and-zero_count zero bound h = refl

pub double_pow : (q k : ℕ) → q * 2 ^ suc k ≡ 2 * (q * 2 ^ k)
double_pow q k = omega (arith, ap (λ (t : ℕ). q * t) (pow-suc 2 k))

-- `(q << k) | r` is a sum when `r` has `k` bits, and so is `r | (q << k)`.
pub or_high_low : (k q r : ℕ) → r < 2 ^ k → bit_or (q * 2 ^ k) r ≡ q * 2 ^ k + r
or_high_low zero q r h = ground (arith, or-zero_count q q (omega arith))
or_high_low (suc k) q r h = ground (
  arith,
  or_step (q * 2 ^ suc k) r,
  double_pow q k,
  or_high_low k q (r / 2) (omega (arith, pow-suc 2 k)),
)

pub or_low_high : (k q r : ℕ) → r < 2 ^ k → bit_or r (q * 2 ^ k) ≡ q * 2 ^ k + r
or_low_high zero q r h = ground (arith, or-zero_left q)
or_low_high (suc k) q r h = ground (
  arith,
  or_step r (q * 2 ^ suc k),
  double_pow q k,
  or_low_high k q (r / 2) (omega (arith, pow-suc 2 k)),
)

mask_keeps_low : (k q r : ℕ) → r < 2 ^ k → bit_and (q * 2 ^ k + r) (2 ^ k - 1) ≡ r
mask_keeps_low zero q r h =
    ground (arith, and-zero_count (q * 2 ^ 0 + r) (q * 2 ^ 0 + r) (omega arith))
mask_keeps_low (suc k) q r h = ground (
  arith,
  and_step (q * 2 ^ suc k + r) (2 ^ suc k - 1),
  double_pow q k,
  pow-suc 2 k,
  mask_keeps_low k q (r / 2) (omega (arith, pow-suc 2 k)),
)

-- A mask of `k` ones takes the remainder by `2 ^ k`.
pub and_mask : (k a : ℕ) → bit_and a (2 ^ k - 1) ≡ a % 2 ^ k
and_mask k a = ground (arith, one-le-pow k 2, mask_keeps_low k (a / 2 ^ k) (a % 2 ^ k))

and_shifted : (k q r m : ℕ) → r < 2 ^ k → bit_and (q * 2 ^ k + r) (m * 2 ^ k) ≡ bit_and q m * 2 ^ k
and_shifted zero q r m h =
    let a : q * 2 ^ 0 + r ≡ q = omega arith in
    let b : m * 2 ^ 0 ≡ m = omega arith in rw (a, b) omega arith
and_shifted (suc k) q r m h = ground (
  arith,
  and_step (q * 2 ^ suc k + r) (m * 2 ^ suc k),
  double_pow q k,
  double_pow m k,
  double_pow (bit_and q m) k,
  and_shifted k q (r / 2) m (omega (arith, pow-suc 2 k)),
)

-- A mask of 64 bits without the lowest three rounds down to a multiple of eight.
pub and_eights : (a : ℕ) → a < 2 ^ 64 → bit_and a (2 ^ 64 - 1 - (8 - 1)) ≡ a / 8 * 8
and_eights a h =
    let split : a / 8 * 2 ^ 3 + a % 8 ≡ a = omega arith in
    let masked = and_shifted 3 (a / 8) (a % 8) (2 ^ 61 - 1) (omega arith) in
    omega (arith, ap (λ (t : ℕ). bit_and t (2 ^ 64 - 8)) split, masked, and_mask 61 (a / 8))

differ-lt : (x y : ℕ) → x < 2 → y < 2 → differ x y < 2
differ-lt zero y p q = q
differ-lt (suc x) zero p q = p
differ-lt (suc x) (suc y) p q = ground (arith, differ-lt x y)

-- The result of `^` and of `|` has no more bits than its operands.
pub xor-lt : (k a b : ℕ) → a < 2 ^ k → b < 2 ^ k → bit_xor a b < 2 ^ k
xor-lt zero zero zero p q = omega arith
xor-lt zero zero (suc b) p q = absurd (omega arith)
xor-lt zero (suc a) b p q = absurd (omega arith)
xor-lt (suc k) a b p q = omega (
  arith,
  xor_step a b,
  pow-suc 2 k,
  differ-lt (a % 2) (b % 2) (omega arith) (omega arith),
  xor-lt k (a / 2) (b / 2) (omega (arith, pow-suc 2 k)) (omega (arith, pow-suc 2 k)),
)

pub or-lt : (k a b : ℕ) → a < 2 ^ k → b < 2 ^ k → bit_or a b < 2 ^ k
or-lt zero zero zero p q = omega arith
or-lt zero zero (suc b) p q = absurd (omega arith)
or-lt zero (suc a) b p q = absurd (omega arith)
or-lt (suc k) a b p q = omega (
  arith,
  or_step a b,
  pow-suc 2 k,
  or-lt k (a / 2) (b / 2) (omega (arith, pow-suc 2 k)) (omega (arith, pow-suc 2 k)),
)
