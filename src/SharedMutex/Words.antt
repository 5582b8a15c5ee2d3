-- ===== src/SharedMutex/Words.antt =====
-- The state of a shared_mutex as a number of writers and one of readers.
use yasio.Base.{ℕ, ◌+◌, ◌*◌, ◌/◌, ◌^◌, ◌≤◌, ◌<◌, ◌≡◌, refl, not, ◌&&◌, ◌==◌, bit_and, bit_or, arith}
use yasio.Base.Bits.{bit_and_low, bit_and_shifted, bit_or_above, bit_or_below, low_bit}
use yasio.SharedMutex.{
  write_entered, n_readers, no_writer, no_writer_no_readers, no_writer_no_max_readers, no_readers,
  with_readers,
}

-- `w` writers have taken the write bit, and there are `r` readers.
abbrev pub IsWord : ℕ → ℕ → ℕ → Type 0
IsWord state w r = (state ≡ w * 2 ^ 31 + r) × (w ≤ 1) × (r < 2 ^ 31)

module _ (state w r : ℕ) (word : IsWord state w r) where
  write_bit : bit_and state write_entered ≡ w * 2 ^ 31
  write_bit = omega (arith, bit_and_shifted 31 state 1, low_bit (state / 2 ^ 31), word)

  pub reader_bits : bit_and state n_readers ≡ r
  reader_bits = omega (arith, bit_and_low 31 state, word)

  pub no_writer-word : no_writer state ≡ (w == 0)
  unfolding no_writer
  no_writer-word = rw write_bit (ground arith)

  pub no_readers-word : no_readers state ≡ (r == 0)
  unfolding no_readers
  no_readers-word = rw reader_bits refl

  pub no_writer_no_readers-word : no_writer_no_readers state ≡ (w == 0) && (r == 0)
  unfolding no_writer_no_readers
  no_writer_no_readers-word = ground (arith, word)

  pub no_writer_no_max_readers-word :
      no_writer_no_max_readers state ≡ (w == 0) && not (r == n_readers)
  unfolding no_writer_no_max_readers
  no_writer_no_max_readers-word = rw (write_bit, reader_bits) (ground arith)

  pub with_readers-word : (k : ℕ) → k < 2 ^ 31 → IsWord (with_readers state k) w k
  unfolding with_readers
  with_readers-word k h = (rw write_bit (bit_or_below 31 w k h), word.1, h)

  pub write_entered-word : w ≡ 0 → IsWord (bit_or state write_entered) 1 r
  write_entered-word e = (
    omega (arith, bit_or_above 31 state 1 (omega (arith, word, e)), word, e),
    omega arith,
    word.2,
  )
