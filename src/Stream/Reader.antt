-- ===== src/Stream/Reader.antt =====
-- binary_reader_impl of yasio/ibstream.hpp. Its pointers are offsets from `first_`: the current one
-- is an integer, since `advance` and `seek` may take it outside of the data.
pub mod Ready
pub mod Ix
pub mod Values
pub mod Safe
use yasio.Base.{
  ℕ, zero, suc, ◌+◌, ◌-◌, ◌*◌, ◌/◌, ◌%◌, ◌^◌, ◌≡◌, List, [], ◌∷◌, length, take, drop, bit_and,
  bit_or, Bool, ltb, leb, ◌==◌, if◌then◌else◌, ◌&&◌,
}
use yasio.Base.Outcome.{Outcome, ok, err, ◌>>=◌, out_of_range, bad_format, invalid}
use yasio.Base.Int.{ℤ, pos, negsuc, pos_part, ◌+ℤ◌, ◌-ℤ◌, ltb_ℤ, signed32}
use yasio.Endian.Bytes.{of_le}
use yasio.Endian.{Width, size_of, Convert}
use yasio.Stream.Writer.{clamp_size}

pub record Reader : Type 0 where
  pub content : List ℕ
  pub ptr : ℤ

abbrev pub reset : List ℕ → Reader
reset vs = record { content = vs; ptr = pos 0 }

-- A read before `first_` is not caught: it is undefined.
unfoldable pub consume_at : List ℕ → ℤ → ℕ → Outcome (List ℕ × Reader)
consume_at vs (pos p) size =
    if leb (p + size) (length vs)
    then ok (take size (drop p vs), record { content = vs; ptr = pos (p + size) })
    else err out_of_range
consume_at vs (negsuc p) size = err invalid

unfoldable pub consume : Reader → ℕ → Outcome (List ℕ × Reader)
unfolding consume_at
consume r size = consume_at r.content r.ptr size

unfoldable pub read_byte : Reader → Outcome (ℕ × Reader)
read_byte r = do (vs, r') ← consume r 1; ok (of_le vs, r')

-- read_bytes(int len): the view of the next bytes, none unless len > 0.
pub read_bytes : Reader → ℤ → Outcome (List ℕ × Reader)
read_bytes r len = if ltb_ℤ (pos 0) len then consume r (pos_part len) else ok ([], r)

-- The loop over the bytes that cannot overflow, and what is done with the byte after them. `last`
-- is the greatest value of that byte, and `bits` the width of the integer.
unfoldable pub read_ix_loop : ℕ → ℕ → ℕ → Reader → ℕ → ℕ → Outcome (ℕ × Reader)
read_ix_loop zero last bits r shift result = do
  (v, r') ← read_byte r
  if leb v last then ok (bit_or result (v * 2 ^ shift % 2 ^ bits), r') else err bad_format
read_ix_loop (suc rounds) last bits r shift result = do
  (v, r') ← read_byte r
  let result' = bit_or result (bit_and v 0x7f * 2 ^ shift % 2 ^ bits)
  let rest = read_ix_loop rounds last bits r' (shift + 7) result'
  if leb v 0x7f then ok (result', r') else rest

-- read_ix_helper<_Stream, int32_t> and <_Stream, int64_t>, which return bit patterns.
unfoldable pub read_ix32 : Reader → Outcome (ℕ × Reader)
read_ix32 r = read_ix_loop 4 0x0f 32 r 0 0

unfoldable pub read_ix64 : Reader → Outcome (ℕ × Reader)
read_ix64 r = read_ix_loop 9 1 64 r 0 0

pub read_v : Reader → Outcome (List ℕ × Reader)
read_v r = do (count, r') ← read_ix32 r; read_bytes r' (signed32 count)

pub advance : Reader → ℤ → Reader
advance r offset = record r { ptr = r.ptr +ℤ offset }

abbrev pub advance_v : Reader → Outcome Reader
unfolding advance
advance_v r = do (count, r') ← read_ix32 r; ok (advance r' (signed32 count))

pub data Whence : Type 0 where
  seek_cur seek_end seek_set : Whence

-- Only SEEK_CUR is kept within the data.
seek_ptr : List ℕ → ℤ → ℤ → Whence → ℤ
seek_ptr vs p offset seek_cur =
    let q = p +ℤ offset in
    if ltb_ℤ q (pos 0) then pos 0 else if ltb_ℤ (pos (length vs)) q then pos (length vs) else q
seek_ptr vs p offset seek_end = pos (length vs) -ℤ offset
seek_ptr vs p offset seek_set = offset

pub seek : Reader → ℤ → Whence → Reader
unfolding seek_ptr
seek r offset whence = record r { ptr = seek_ptr r.content r.ptr offset whence }

abbrev pub range_view : Reader → ℕ → ℕ → List ℕ
range_view r start finish =
    if leb start finish && leb finish (length r.content)
    then take (finish - start) (drop start r.content)
    else []

module _ (c : Convert) where
  -- template <typename _Nty> read()
  pub read : Reader → Width → Outcome (ℕ × Reader)
  read r w = do (vs, r') ← consume r (size_of w); ok (c.from w (of_le vs), r')

  pub read_varint : Reader → ℤ → Outcome (ℕ × Reader)
  read_varint r size = do
    (vs, r') ← consume r (clamp_size size)
    ok (c.fromint (of_le vs) (clamp_size size), r')

  -- read_v8, read_v16 and read_v32: read_bytes takes the length as an `int`.
  pub read_v_fx : Reader → Width → Outcome (List ℕ × Reader)
  read_v_fx r w = do
    (n, r') ← read r w
    if ltb 0 n then read_bytes r' (signed32 (n % 2 ^ 32)) else ok ([], r')
