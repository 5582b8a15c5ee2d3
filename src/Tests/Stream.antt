-- ===== src/Tests/Stream.antt =====
-- The streams of yasio/obstream.hpp and yasio/ibstream.hpp on a few bytes.
use yasio.Base.{ℕ, ◌≡◌, ◌^◌, refl, List, [], ◌∷◌, arith}
use yasio.Base.Outcome.{ok}
use yasio.Base.Int.{pos}
use yasio.Endian.{w16, network_convert}
use yasio.Endian.Laws.{network_convert-IsConvert}
use yasio.Stream.Buffer.Dynamic.{dynamic_buffer, dynamic_buffer-IsBuffer}
use yasio.Stream.Writer.{write, write_ix, write_v}
use yasio.Stream.Reader.{
  Reader, read, read_ix32, read_ix64, read_v, read_ix_loop, read_byte, consume, consume_at,
}
use yasio.Stream.Reader.Safe.{Taken, read_ix64-Taken}
use yasio.Stream.RoundTrip.{ReadsBack, read-write, read_ix64-write_ix, read_v-write_v}

abbrev start : List ℕ
start = 5 ∷ []

abbrev rest : List ℕ
rest = 6 ∷ []

read-write_example :
    ReadsBack dynamic_buffer dynamic_buffer-IsBuffer network_convert network_convert-IsConvert start
      rest 0
      (write dynamic_buffer network_convert start w16 258)
      (λ r. read network_convert r w16)
      258
unfolding dynamic_buffer-IsBuffer
read-write_example =
    read-write dynamic_buffer dynamic_buffer-IsBuffer network_convert network_convert-IsConvert
      start rest w16 258 0 (omega arith) tt

read_ix64-write_ix_example :
    ReadsBack dynamic_buffer dynamic_buffer-IsBuffer network_convert network_convert-IsConvert start
      rest 0
      (ok (write_ix dynamic_buffer network_convert start 5000000000))
      read_ix64
      5000000000
unfolding dynamic_buffer-IsBuffer
read_ix64-write_ix_example =
    read_ix64-write_ix dynamic_buffer dynamic_buffer-IsBuffer network_convert
      network_convert-IsConvert start rest 5000000000 0 (omega arith) tt

read_v-write_v_example :
    ReadsBack dynamic_buffer dynamic_buffer-IsBuffer network_convert network_convert-IsConvert start
      rest 0
      (write_v dynamic_buffer network_convert start (7 ∷ 8 ∷ []))
      read_v
      (7 ∷ 8 ∷ [])
unfolding dynamic_buffer-IsBuffer
read_v-write_v_example =
    read_v-write_v dynamic_buffer dynamic_buffer-IsBuffer network_convert network_convert-IsConvert
      start rest (7 ∷ 8 ∷ []) 0 (omega arith) tt

abbrev reader : Reader
reader = record { content = 172 ∷ 2 ∷ 9 ∷ []; ptr = pos 0 }

abbrev read_on : Reader
read_on = record { content = 172 ∷ 2 ∷ 9 ∷ []; ptr = pos 2 }

reader_read32 : read_ix32 reader ≡ ok (300, read_on)
unfolding read_ix32 read_ix_loop read_byte consume consume_at
reader_read32 = refl

reader_read64 : read_ix64 reader ≡ ok (300, read_on)
unfolding read_ix64 read_ix_loop read_byte consume consume_at
reader_read64 = refl

read_ix64-Taken_example : Taken reader 10 read_on 300 (2 ^ 64)
read_ix64-Taken_example = read_ix64-Taken reader read_on 300 reader_read64
