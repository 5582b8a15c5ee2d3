-- ===== src/Endian/Swap.antt =====
-- The swap macros of yasio/endian_portable.hpp reverse the bytes of a value.
use yasio.Base.{ℕ, ◌+◌, ◌*◌, ◌/◌, ◌%◌, ◌^◌, ◌<◌, ◌≡◌, ◌∙◌, ap, bit_and, bit_or, arith}
use yasio.Base.Bits.{bit_and_shifted, bit_and_byte, bit_or_above}
use yasio.Endian.Bytes.{of_le, be_bytes}
use yasio.Endian.{swap_short, swap_long, swap_low_half, swap_longlong}

-- A byte mask at bit k.
byte_at : (k x : ℕ) → bit_and x (255 * 2 ^ k) ≡ x / 2 ^ k % 256 * 2 ^ k
byte_at k x = bit_and_shifted k x 255 ∙ ap (λ (t : ℕ). t * 2 ^ k) (bit_and_byte (x / 2 ^ k))

-- Four bytes in their places, and four more above them.
four_fields :
    (a b c d : ℕ)
    → a < 256
    → b < 256
    → c < 256
    → bit_or (bit_or (bit_or a (b * 2 ^ 8)) (c * 2 ^ 16)) (d * 2 ^ 24)
      ≡ a + b * 2 ^ 8 + c * 2 ^ 16 + d * 2 ^ 24
four_fields a b c d ha hb hc = rw (
  bit_or_above 8 a b (omega arith),
  bit_or_above 16 (a + b * 2 ^ 8) c (omega arith),
  bit_or_above 24 (a + b * 2 ^ 8 + c * 2 ^ 16) d (omega arith),
)

upper_fields :
    (r a b c d : ℕ)
    → r < 2 ^ 32
    → a < 256
    → b < 256
    → c < 256
    → bit_or (bit_or (bit_or (bit_or r (a * 2 ^ 32)) (b * 2 ^ 40)) (c * 2 ^ 48)) (d * 2 ^ 56)
      ≡ r + a * 2 ^ 32 + b * 2 ^ 40 + c * 2 ^ 48 + d * 2 ^ 56
upper_fields r a b c d hr ha hb hc = rw (
  bit_or_above 32 r a hr,
  bit_or_above 40 (r + a * 2 ^ 32) b (omega arith),
  bit_or_above 48 (r + a * 2 ^ 32 + b * 2 ^ 40) c (omega arith),
  bit_or_above 56 (r + a * 2 ^ 32 + b * 2 ^ 40 + c * 2 ^ 48) d (omega arith),
)

pub swap_short-of_le : (s : ℕ) → s < 2 ^ 16 → swap_short s ≡ of_le (be_bytes 2 s)
unfolding swap_short
swap_short-of_le s h =
    rw
      (
        bit_and_byte (s / 2 ^ 8),
        byte_at 8 (s * 2 ^ 8),
        bit_or_above 8 (s / 2 ^ 8 % 256) (s * 2 ^ 8 / 2 ^ 8 % 256) (omega arith),
      )
      (omega arith)

pub swap_long-of_le : (l : ℕ) → l < 2 ^ 32 → swap_long l ≡ of_le (be_bytes 4 l)
unfolding swap_long
swap_long-of_le l h =
    rw
      (
        bit_and_byte (l / 2 ^ 24),
        byte_at 8 (l / 2 ^ 8),
        byte_at 16 (l * 2 ^ 8 % 2 ^ 32),
        byte_at 24 (l * 2 ^ 24 % 2 ^ 32),
        four_fields (l / 2 ^ 24 % 256) (l / 2 ^ 8 / 2 ^ 8 % 256) (l * 2 ^ 8 % 2 ^ 32 / 2 ^ 16 % 256)
            (l * 2 ^ 24 % 2 ^ 32 / 2 ^ 24 % 256) (omega arith) (omega arith) (omega arith),
      )
      (omega arith)

low_half : (l : ℕ) → swap_low_half l ≡ of_le (be_bytes 4 (l / 2 ^ 32))
unfolding swap_low_half
low_half l =
    rw
      (
        bit_and_byte (l / 2 ^ 56),
        byte_at 8 (l / 2 ^ 40),
        byte_at 16 (l / 2 ^ 24),
        byte_at 24 (l / 2 ^ 8),
        four_fields (l / 2 ^ 56 % 256) (l / 2 ^ 40 / 2 ^ 8 % 256) (l / 2 ^ 24 / 2 ^ 16 % 256)
            (l / 2 ^ 8 / 2 ^ 24 % 256) (omega arith) (omega arith) (omega arith),
      )
      (omega arith)

pub swap_longlong-of_le : (l : ℕ) → l < 2 ^ 64 → swap_longlong l ≡ of_le (be_bytes 8 l)
unfolding swap_longlong
swap_longlong-of_le l h =
    rw
      (
        byte_at 32 (l * 2 ^ 8 % 2 ^ 64),
        byte_at 40 (l * 2 ^ 24 % 2 ^ 64),
        byte_at 48 (l * 2 ^ 40 % 2 ^ 64),
        byte_at 56 (l * 2 ^ 56 % 2 ^ 64),
        low_half l,
        upper_fields (of_le (be_bytes 4 (l / 2 ^ 32))) (l * 2 ^ 8 % 2 ^ 64 / 2 ^ 32 % 256)
            (l * 2 ^ 24 % 2 ^ 64 / 2 ^ 40 % 256) (l * 2 ^ 40 % 2 ^ 64 / 2 ^ 48 % 256)
            (l * 2 ^ 56 % 2 ^ 64 / 2 ^ 56 % 256) (omega arith) (omega arith) (omega arith)
            (omega arith),
      )
      (omega arith)
