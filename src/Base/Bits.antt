-- ===== src/Base/Bits.antt =====
-- `|` and `&` as arithmetic where the code uses them: fields that do not overlap, and byte masks.
use Prim.Native.Nat.{
  ℕ, zero, suc, ◌+◌, ◌-◌, ◌*◌, ◌/◌, ◌%◌, ◌^◌, ◌≤◌, ◌<◌, min, max, bit_and, bit_or, digits, bitwise,
}
use Prim.Native.Nat.{bit_and-bitwise, bit_or-bitwise}
use mathlib.Core.Path.{◌≡◌, refl, ap, ◌∙◌}
use native.Mathlib.Nat.{pow-suc, div-div-eq-div-mul, div-add-mod}
use native.Mathlib.Omega.{arith}

module _ (z : ℕ → ℕ) (f : ℕ → ℕ → ℕ) where
  -- Fuel beyond the first operand changes nothing.
  digits_enough : (n m a b : ℕ) → a ≤ n → a ≤ m → digits z f n a b ≡ digits z f m a b
  digits_enough zero zero a b p q = refl
  digits_enough zero (suc m) zero b p q = refl
  digits_enough zero (suc m) (suc a) b p q = elim p [ ]
  digits_enough (suc n) zero zero b p q = refl
  digits_enough (suc n) (suc m) zero b p q = refl
  digits_enough (suc n) zero (suc a) b p q = elim q [ ]
  digits_enough (suc n) (suc m) (suc a) b p q =
      rw (digits_enough n m (suc a / 2) (b / 2) (omega arith) (omega arith))

  halve :
      (a b : ℕ)
      → bitwise z f (suc a) b ≡ bitwise z f (suc a / 2) (b / 2) * 2 + f (suc a % 2) (b % 2)
  halve a b =
      omega (arith, digits_enough a (suc a / 2) (suc a / 2) (b / 2) (omega arith) (omega arith))

or_halves : (a b : ℕ) → bit_or a b ≡ bit_or (a / 2) (b / 2) * 2 + max (a % 2) (b % 2)
or_halves zero b = simp bit_or-bitwise (omega arith)
or_halves (suc a) b = simp bit_or-bitwise (halve (λ y. y) max a b)

and_halves : (a b : ℕ) → bit_and a b ≡ bit_and (a / 2) (b / 2) * 2 + min (a % 2) (b % 2)
and_halves zero b = simp bit_and-bitwise (omega arith)
and_halves (suc a) b = simp bit_and-bitwise (halve (λ y. 0) min a b)

zero-bit_or : (b : ℕ) → bit_or 0 b ≡ b
zero-bit_or b = bit_or-bitwise 0 b

zero-bit_and : (b : ℕ) → bit_and 0 b ≡ 0
zero-bit_and b = bit_and-bitwise 0 b

or_zero_below : (n a : ℕ) → a ≤ n → bit_or a 0 ≡ a
or_zero_below n zero h = refl
or_zero_below zero (suc a) h = elim h [ ]
or_zero_below (suc n) (suc a) h =
    omega (arith, or_halves (suc a) 0, or_zero_below n (suc a / 2) (omega arith))

bit_or-zero : (a : ℕ) → bit_or a 0 ≡ a
bit_or-zero a = or_zero_below a a (omega arith)

and_zero_below : (n a : ℕ) → a ≤ n → bit_and a 0 ≡ 0
and_zero_below n zero h = refl
and_zero_below zero (suc a) h = elim h [ ]
and_zero_below (suc n) (suc a) h =
    omega (arith, and_halves (suc a) 0, and_zero_below n (suc a / 2) (omega arith))

bit_and-zero : (a : ℕ) → bit_and a 0 ≡ 0
bit_and-zero a = and_zero_below a a (omega arith)

double : (q k : ℕ) → q * 2 ^ suc k ≡ 2 * (q * 2 ^ k)
double q k = omega (arith, ap (λ (t : ℕ). q * t) (pow-suc 2 k))

-- A field is put above the bits that are there.
pub bit_or_above : (k r q : ℕ) → r < 2 ^ k → bit_or r (q * 2 ^ k) ≡ r + q * 2 ^ k
bit_or_above zero r q h = ground (arith, zero-bit_or q)
bit_or_above (suc k) r q h = ground (
  arith,
  or_halves r (q * 2 ^ suc k),
  double q k,
  bit_or_above k (r / 2) q (omega (arith, pow-suc 2 k)),
)

halved : (j y : ℕ) → y / 2 / 2 ^ j ≡ y / 2 ^ suc j
halved j y = div-div-eq-div-mul y 2 (2 ^ j) ∙ ap (λ (t : ℕ). y / t) (omega (arith, pow-suc 2 j))

-- A mask above `k` low bits reads the field at bit `k`.
pub bit_and_shifted : (k x m : ℕ) → bit_and x (m * 2 ^ k) ≡ bit_and (x / 2 ^ k) m * 2 ^ k
bit_and_shifted zero x m = rw (one_times m, whole x) (omega arith)
  where
    one_times : (n : ℕ) → n * 2 ^ 0 ≡ n
    one_times n = omega arith

    whole : (n : ℕ) → n / 2 ^ 0 ≡ n
    whole n = omega arith
bit_and_shifted (suc k) x m = ground (
  arith,
  and_halves x (m * 2 ^ suc k),
  double m k,
  double (bit_and (x / 2 ^ suc k) m) k,
  halved k x,
  bit_and_shifted k (x / 2) m,
)

pub low_bit : (x : ℕ) → bit_and x 1 ≡ x % 2
low_bit x = omega (arith, and_halves x 1, bit_and-zero (x / 2))

and_three : (x : ℕ) → bit_and x 3 ≡ x % 4
and_three x = omega (arith, and_halves x 3, low_bit (x / 2))

and_fifteen : (x : ℕ) → bit_and x 15 ≡ x % 16
and_fifteen x = omega (arith, and_halves x 15, and_halves (x / 2) 7, and_three (x / 2 / 2))

pub bit_and_seven_bits : (x : ℕ) → bit_and x 0x7f ≡ x % 128
bit_and_seven_bits x = omega (
  arith,
  and_halves x 127,
  and_halves (x / 2) 63,
  and_halves (x / 2 / 2) 31,
  and_fifteen (x / 2 / 2 / 2),
)

pub bit_and_byte : (x : ℕ) → bit_and x 0xff ≡ x % 256
bit_and_byte x = omega (arith, and_halves x 255, bit_and_seven_bits (x / 2))

or_one : (x : ℕ) → bit_or x 1 ≡ x / 2 * 2 + 1
or_one x = omega (arith, or_halves x 1, bit_or-zero (x / 2))

or_sixteen : (x : ℕ) → bit_or x 16 ≡ x / 32 * 32 + 16 + x % 16
or_sixteen x = omega (
  arith,
  or_halves x 16,
  or_halves (x / 2) 8,
  or_halves (x / 2 / 2) 4,
  or_halves (x / 2 / 2 / 2) 2,
  or_one (x / 2 / 2 / 2 / 2),
)

-- The low byte of `x | 0x80`.
pub bit_or_top_bit : (x : ℕ) → bit_or x 0x80 % 256 ≡ x % 128 + 128
bit_or_top_bit x = omega (
  arith,
  or_halves x 128,
  or_halves (x / 2) 64,
  or_halves (x / 2 / 2) 32,
  or_sixteen (x / 2 / 2 / 2),
)

one-le_pow : (k : ℕ) → 1 ≤ 2 ^ k
one-le_pow zero = omega arith
one-le_pow (suc k) = omega (arith, pow-suc 2 k, one-le_pow k)

-- A mask of the `k` low bits.
pub bit_and_low : (k x : ℕ) → bit_and x (2 ^ k - 1) ≡ x % 2 ^ k
bit_and_low zero x = omega (arith, bit_and-zero x)
bit_and_low (suc k) x = omega (
  arith,
  and_halves x (2 ^ suc k - 1),
  ap (λ (m : ℕ). bit_and (x / 2) m) halved_mask,
  bit_and_low k (x / 2),
  pow-suc 2 k,
  low_rest,
  bits_positive,
)
  where
    bits_positive : 1 ≤ 2 ^ k
    bits_positive = one-le_pow k

    halved_mask : (2 ^ suc k - 1) / 2 ≡ 2 ^ k - 1
    halved_mask = omega (arith, pow-suc 2 k, one-le_pow k)

    low_rest : x % 2 ^ suc k ≡ x / 2 % 2 ^ k * 2 + x % 2
    low_rest = omega (
      arith,
      div-add-mod x (2 ^ suc k),
      div-add-mod (x / 2) (2 ^ k),
      halved k x,
      double (x / 2 / 2 ^ k) k,
      ap (λ (t : ℕ). t * 2 ^ suc k) (halved k x),
    )

-- The same field, the other way round.
pub bit_or_below : (k q r : ℕ) → r < 2 ^ k → bit_or (q * 2 ^ k) r ≡ q * 2 ^ k + r
bit_or_below zero q r h = ground (arith, bit_or-zero q)
bit_or_below (suc k) q r h = ground (
  arith,
  or_halves (q * 2 ^ suc k) r,
  double q k,
  bit_or_below k q (r / 2) (omega (arith, pow-suc 2 k)),
)
