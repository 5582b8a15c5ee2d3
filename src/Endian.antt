-- ===== src/Endian.antt =====
-- Byte order: yasio/endian_portable.hpp, on a little-endian machine (YASIO_LITTLE_ENDIAN).
-- A value of a w-bit type is its bit pattern, below 2 ^ w. `htons` and `htonl` are the C library's:
-- the pattern whose memory holds the bytes of the argument with the most significant one first.
pub mod Bytes
pub mod Swap
pub mod Laws
use yasio.Base.{ℕ, zero, suc, ◌+◌, ◌-◌, ◌*◌, ◌/◌, ◌%◌, ◌^◌, bit_and, bit_or, ltb, if◌then◌else◌}
use Bytes.{le_bytes, of_le, be_bytes}

-- The integer types by `sizeof`.
pub data Width : Type 0 where
  w8 w16 w32 w64 : Width

abbrev pub size_of : Width → ℕ
size_of w8 = 1
size_of w16 = 2
size_of w32 = 4
size_of w64 = 8

pub htons : ℕ → ℕ
htons v = of_le (be_bytes 2 (v % 2 ^ 16))

pub htonl : ℕ → ℕ
htonl v = of_le (be_bytes 4 (v % 2 ^ 32))

-- YASIO__SWAP_SHORT
pub swap_short : ℕ → ℕ
swap_short s = bit_or (bit_and (s / 2 ^ 8) 0x00ff) (bit_and (s * 2 ^ 8) 0xff00)

-- YASIO__SWAP_LONG
pub swap_long : ℕ → ℕ
swap_long l =
    bit_or
      (bit_or (bit_or (bit_and (l / 2 ^ 24) 0x000000ff) (bit_and (l / 2 ^ 8) 0x0000ff00))
        (bit_and (l * 2 ^ 8 % 2 ^ 32) 0x00ff0000))
      (bit_and (l * 2 ^ 24 % 2 ^ 32) 0xff000000)

-- YASIO__SWAP_LONGLONG; the four bytes that move down, and the four that move up.
pub swap_low_half : ℕ → ℕ
swap_low_half l =
    bit_or
      (bit_or (bit_or (bit_and (l / 2 ^ 56) 0xff) (bit_and (l / 2 ^ 40) 0xff00))
        (bit_and (l / 2 ^ 24) 0xff0000))
      (bit_and (l / 2 ^ 8) 0xff000000)

pub swap_longlong : ℕ → ℕ
unfolding swap_low_half
swap_longlong l =
    bit_or
      (bit_or
        (bit_or (bit_or (swap_low_half l) (bit_and (l * 2 ^ 8 % 2 ^ 64) 0x000000ff00000000))
          (bit_and (l * 2 ^ 24 % 2 ^ 64) 0x0000ff0000000000))
        (bit_and (l * 2 ^ 40 % 2 ^ 64) 0x00ff000000000000))
      (bit_and (l * 2 ^ 56 % 2 ^ 64) 0xff00000000000000)

-- byte_order_impl<_Ty, n>::host_to_network, and network_to_host, which does the same.
pub host_to_network : Width → ℕ → ℕ
unfolding htons htonl swap_longlong
host_to_network w8 v = v
host_to_network w16 v = htons v
host_to_network w32 v = htonl v
host_to_network w64 v = swap_longlong v

pub network_to_host : Width → ℕ → ℕ
unfolding host_to_network
network_to_host w v = host_to_network w v

-- host_to_network(int value, int size): the low `size` bytes of a `netval` shifted down.
pub host_to_network_int : ℕ → ℕ → ℕ
unfolding host_to_network
host_to_network_int v size =
    let netval = host_to_network w32 v in
    if ltb size 4 then netval / 2 ^ ((4 - size) * 8) else netval

pub network_to_host_int : ℕ → ℕ → ℕ
unfolding network_to_host
network_to_host_int v size =
    let hostval = network_to_host w32 v in
    if ltb size 4 then hostval / 2 ^ ((4 - size) * 8) else hostval

-- convert_traits
pub record Convert : Type 0 where
  pub to : Width → ℕ → ℕ
  pub from : Width → ℕ → ℕ
  pub toint : ℕ → ℕ → ℕ
  pub fromint : ℕ → ℕ → ℕ

abbrev pub network_convert : Convert
network_convert = record {
  to = host_to_network;
  from = network_to_host;
  toint = host_to_network_int;
  fromint = network_to_host_int;
}

abbrev pub host_convert : Convert
host_convert = record { to = λ w v. v; from = λ w v. v; toint = λ v size. v; fromint = λ v size. v }
