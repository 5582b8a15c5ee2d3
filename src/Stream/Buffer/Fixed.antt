-- ===== src/Stream/Buffer/Fixed.antt =====
-- fixed_buffer_span of yasio/obstream.hpp: the memory between `first_` and `last_`, and `pos_`.
pub mod Laws
use yasio.Base.{
  ℕ, zero, suc, ◌+◌, ◌-◌, ◌≤◌, ◌<◌, ◌≡◌, refl, ap, sym, ◌∙◌, List, [], ◌∷◌, ◌++◌, length, take,
  drop, Bool, ◌==◌, replicate, leb, ltb, if◌then◌else◌, arith,
}
use yasio.Base.Outcome.{Outcome, ok, err, out_of_range, invalid}
use yasio.Base.Splice.{splice, splice_lem}
use yasio.Stream.Buffer.{Buffer, IsBuffer}

pub record FixedBuffer : Type 0 where
  pub memory : List ℕ
  pub pos : ℕ

abbrev pub max_size : FixedBuffer → ℕ
max_size b = length b.memory

-- The first `pos_` bytes.
pub bytes : FixedBuffer → List ℕ
bytes b = take b.pos b.memory

-- A byte past the end is dropped in silence.
pub write_byte : FixedBuffer → ℕ → FixedBuffer
write_byte b v =
    if ltb b.pos (max_size b)
    then record { memory = splice b.pos (v ∷ []) b.memory; pos = b.pos + 1 }
    else b

-- The positional overload, which moves `pos_` as well.
pub write_bytes_at : FixedBuffer → ℕ → List ℕ → Outcome FixedBuffer
write_bytes_at b offset vs =
    if ltb (max_size b) (offset + length vs)
    then err out_of_range
    else ok (record { memory = splice offset vs b.memory; pos = b.pos + length vs })

pub write_bytes : FixedBuffer → List ℕ → Outcome FixedBuffer
unfolding write_bytes_at
write_bytes b [] = ok b
write_bytes b (v ∷ vs) = write_bytes_at b b.pos (v ∷ vs)

pub fill_bytes : FixedBuffer → ℕ → ℕ → Outcome FixedBuffer
fill_bytes b count v =
    if ltb (max_size b) (count + b.pos)
    then err out_of_range
    else ok (record { memory = splice b.pos (replicate count v) b.memory; pos = b.pos + count })

-- A `memcpy` through `data()` must stay within the memory.
pub write_at : FixedBuffer → ℕ → List ℕ → Outcome FixedBuffer
write_at b offset vs =
    if leb (offset + length vs) (max_size b)
    then ok (record b { memory = splice offset vs b.memory })
    else err invalid

abbrev pub clear : FixedBuffer → FixedBuffer
clear b = record b { pos = 0 }

-- `first_ == last_`: whether the span itself is empty, not whether anything was written.
abbrev pub empty : FixedBuffer → Bool
empty b = max_size b == 0

abbrev pub fixed_buffer : Buffer
fixed_buffer = record {
  State = FixedBuffer;
  bytes = bytes;
  write_byte = write_byte;
  write_bytes = write_bytes;
  fill_bytes = fill_bytes;
  write_at = write_at;
}
