-- ===== src/Stream/Writer.antt =====
-- binary_writer_impl of yasio/obstream.hpp, over its buffer type and its byte order.
pub mod Append
pub mod Prefix
use mathlib.Core.WellFounded.{Acc}
use mathlib.Core.Logic.{dite}
use native.Mathlib.Decide.{dec_lt}
use yasio.Base.{
  ℕ, zero, suc, ◌+◌, ◌-◌, ◌*◌, ◌/◌, ◌%◌, ◌^◌, ◌<◌, List, [], ◌∷◌, length, take, drop, bit_or, Bool,
  ltb, ◌==◌, if◌then◌else◌, min, arith,
}
use yasio.Base.Outcome.{Outcome, ok, ◌>>=◌}
use yasio.Base.Int.{ℤ, pos, pos_part, ltb_ℤ}
use yasio.Base.Recursion.{lt_wf}
use yasio.Endian.Bytes.{le_bytes}
use yasio.Endian.{Width, size_of, Convert}
use yasio.Stream.Buffer.{Buffer}

-- yasio::clamp(size, 1, 4)
unfoldable pub clamp_size : ℤ → ℕ
clamp_size size = if ltb_ℤ size (pos 1) then 1 else if ltb_ℤ (pos 4) size then 4 else pos_part size

-- A length as an `int`, and the bytes that a loop over that many bytes sees: none if it is negative.
pub int_length : List ℕ → ℕ
int_length vs = length vs % 2 ^ 32

pub int_bytes : List ℕ → List ℕ
unfolding int_length
int_bytes vs = if ltb (int_length vs) (2 ^ 31) then take (int_length vs) vs else []

pub groups_shrink : (v : ℕ) → 127 < v → v / 128 < v
groups_shrink v more = omega arith

module _ (b : Buffer) (c : Convert) where
  -- template <typename _Nty> write(value)
  pub write : b.State → Width → ℕ → Outcome b.State
  write s w v = b.write_bytes s (le_bytes (size_of w) (c.to w v))

  -- swrite and pwrite
  pub pwrite : b.State → ℕ → Width → ℕ → Outcome b.State
  pwrite s offset w v = b.write_at s offset (le_bytes (size_of w) (c.to w v))

  pub write_varint : b.State → ℕ → ℤ → Outcome b.State
  write_varint s v size = let n = clamp_size size in b.write_bytes s (le_bytes n (c.toint v n))

  -- The loop of write_ix_impl, on the unsigned value.
  pub write_ix_loop : b.State → (v : ℕ) → Acc ◌<◌ v → b.State
  write_ix_loop s v (Acc.intro _ smaller) =
      dite (dec_lt 127 v)
        (λ more.
          write_ix_loop (b.write_byte s (bit_or (v % 2 ^ 32) 0x80 % 256)) (v / 128)
            (smaller (v / 128) (groups_shrink v more)))
        (λ _. b.write_byte s (v % 256))

  pub write_ix : b.State → ℕ → b.State
  write_ix s v = write_ix_loop s v (lt_wf.apply v)

  -- The bytes behind a length of 7-bit groups.
  pub write_v : b.State → List ℕ → Outcome b.State
  write_v s vs = b.write_bytes (write_ix s (int_length vs)) (int_bytes vs)

  -- The bytes behind a length of fixed width, cut to that width: write_v8, write_v16 and write_v32.
  pub write_v_fx : b.State → Width → List ℕ → Outcome b.State
  write_v_fx s w vs = do
    t ← write s w (int_length vs % 256 ^ size_of w)
    if int_length vs == 0 then ok t else b.write_bytes t (int_bytes vs)

  -- push<_Intty>: room for a length, and where it stands.
  pub push : b.State → Width → Outcome (ℕ × b.State)
  push s w = do t ← b.fill_bytes s (size_of w) 0; ok (length (b.bytes s), t)

  -- pop<_Intty>(offset, value), and pop<_Intty>(offset), which writes the bytes since `push`.
  abbrev pub pop_value : b.State → Width → ℕ → ℕ → Outcome b.State
  pop_value s w offset v = pwrite s offset w v

  pub pop : b.State → Width → ℕ → Outcome b.State
  pop s w offset =
      pwrite s offset w ((length (b.bytes s) + 2 ^ 64 - offset - size_of w) % 256 ^ size_of w)

-- basic_obstream::sub, for the dynamic stream.
abbrev pub sub_stream : List ℕ → ℕ → ℕ → List ℕ
sub_stream outs offset count =
    if ltb offset (length outs)
    then take (if ltb (length outs - offset) count then length outs - offset else count)
        (drop offset outs)
    else []
