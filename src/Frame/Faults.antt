-- ===== src/Frame/Faults.antt =====
-- Streams that do_read of yasio/io_service.cpp does not cope with.
use yasio.Base.{ℕ, suc, ◌≤◌, ◌<◌, ◌≡◌, refl, List, length, min, arith, lt→leb_false, le→ltb_false}
use yasio.Base.Outcome.{err, out_of_range}
use yasio.Base.Int.{ℤ, pos}
use yasio.Frame.{Transport, got, read_packets, begin_packet, unpack, is_minus_one}
use yasio.Frame.Decode.{idle}

-- Where the length is known before the bytes to strip have arrived, `unpack` throws.
pub read_packets-throws :
    (decode_len : List ℕ → ℤ) (strip n : ℕ) (t : Transport) (v : List ℕ)
    → decode_len v ≡ pos (suc n)
    → length v < strip
    → strip ≤ suc n
    → read_packets decode_len strip (idle t) (got v) ≡ err out_of_range
unfolding read_packets begin_packet unpack is_minus_one
read_packets-throws decode_len strip n t v e l s = rw e (
    rw (le→ltb_false strip (suc n) s)
      (rw (lt→leb_false (min (suc n) (length v)) strip (omega (arith, l))) refl))
