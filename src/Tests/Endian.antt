-- ===== src/Tests/Endian.antt =====
-- The swap macros of yasio/endian_portable.hpp at concrete values.
use yasio.Base.{◌≡◌, arith}
use yasio.Endian.Bytes.{le_bytes, be_bytes}
use yasio.Endian.{swap_short, swap_long, swap_longlong}
use yasio.Endian.Laws.{le_bytes-swaps}

le_bytes-swaps_example :
    (le_bytes 2 (swap_short 0x0102) ≡ be_bytes 2 0x0102)
    × (le_bytes 4 (swap_long 0x01020304) ≡ be_bytes 4 0x01020304)
    × (le_bytes 8 (swap_longlong 0x0102030405060708) ≡ be_bytes 8 0x0102030405060708)
le_bytes-swaps_example =
    le_bytes-swaps 0x0102 0x01020304 0x0102030405060708 (omega arith) (omega arith) (omega arith)
