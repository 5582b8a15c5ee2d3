-- ===== src/Endian/Laws.antt =====
-- What the conversions of yasio/endian_portable.hpp do to a value and to the bytes in memory.
use yasio.Base.{ℕ, zero, suc, ◌^◌, ◌≤◌, ◌<◌, ◌≡◌, refl, sym, ◌∙◌, ap, arith}
use yasio.Endian.Bytes.{le_bytes, of_le, be_bytes, of_le-le_bytes, le_bytes-of_be}
use yasio.Endian.Swap.{swap_short-of_le, swap_long-of_le, swap_longlong-of_le}
use yasio.Endian.{
  Width, w8, w16, w32, w64, size_of, htons, htonl, swap_short, swap_long, swap_longlong,
  host_to_network, network_to_host, host_to_network_int, network_to_host_int, Convert,
  network_convert, host_convert,
}

-- v fits the type.
abbrev pub Fits : Width → ℕ → Type 0
Fits w v = v < 256 ^ size_of w

-- What the streams need of a byte order: `from` undoes `to`, at every width and at every size of
-- a variable length.
pub record IsConvert (c : Convert) : Type 0 where
  pub to-Fits : (w : Width) (v : ℕ) → Fits w v → Fits w (c.to w v)
  pub from-to : (w : Width) (v : ℕ) → Fits w v → c.from w (c.to w v) ≡ v
  pub fromint-toint :
      (size v : ℕ)
      → 1 ≤ size
      → size ≤ 4
      → v < 256 ^ size
      → c.fromint (of_le (le_bytes size (c.toint v size))) size ≡ v

htons-of_be : (v : ℕ) → v < 2 ^ 16 → htons v ≡ of_le (be_bytes 2 v)
unfolding htons
htons-of_be v h = omega arith

htonl-of_be : (v : ℕ) → v < 2 ^ 32 → htonl v ≡ of_le (be_bytes 4 v)
unfolding htonl
htonl-of_be v h = omega arith

host_to_network-of_be :
    (w : Width) (v : ℕ) → Fits w v → host_to_network w v ≡ of_le (be_bytes (size_of w) v)
unfolding host_to_network
host_to_network-of_be w8 v h = omega arith
host_to_network-of_be w16 v h = htons-of_be v h
host_to_network-of_be w32 v h = htonl-of_be v h
host_to_network-of_be w64 v h = swap_longlong-of_le v h

-- A value that fits its width lies in memory with the most significant byte first, once it is in
-- network order, at every width.
pub le_bytes-host_to_network :
    (w : Width) (v : ℕ)
    → Fits w v
    → le_bytes (size_of w) (host_to_network w v) ≡ be_bytes (size_of w) v
le_bytes-host_to_network w v h = rw (host_to_network-of_be w v h) (le_bytes-of_be (size_of w) v)

host_to_network-Fits : (w : Width) (v : ℕ) → Fits w v → Fits w (host_to_network w v)
host_to_network-Fits w v h = rw (host_to_network-of_be w v h) (swapped-lt w v)
  where
    swapped-lt : (u : Width) (x : ℕ) → Fits u (of_le (be_bytes (size_of u) x))
    swapped-lt w8 x = omega arith
    swapped-lt w16 x = omega arith
    swapped-lt w32 x = omega arith
    swapped-lt w64 x = omega arith

swapped_twice :
    (w : Width) (v : ℕ)
    → Fits w v
    → of_le (be_bytes (size_of w) (of_le (be_bytes (size_of w) v))) ≡ v
swapped_twice w8 v h = omega arith
swapped_twice w16 v h = omega arith
swapped_twice w32 v h = omega arith
swapped_twice w64 v h = omega arith

-- `network_to_host` undoes `host_to_network`, for a value that fits its width.
pub network_to_host-host_to_network :
    (w : Width) (v : ℕ) → Fits w v → network_to_host w (host_to_network w v) ≡ v
unfolding network_to_host
network_to_host-host_to_network w v h =
    host_to_network-of_be w (host_to_network w v) (host_to_network-Fits w v h)
    ∙ ap (λ (t : ℕ). of_le (be_bytes (size_of w) t)) (host_to_network-of_be w v h)
    ∙ swapped_twice w v h

network_int :
    (size v : ℕ)
    → 1 ≤ size
    → size ≤ 4
    → v < 256 ^ size
    → network_to_host_int (of_le (le_bytes size (host_to_network_int v size))) size ≡ v
unfolding network_to_host_int host_to_network_int htonl
network_int zero v lo hi h = elim lo [ ]
network_int (suc zero) v lo hi h = omega arith
network_int (suc (suc zero)) v lo hi h = omega arith
network_int (suc (suc (suc zero))) v lo hi h = omega arith
network_int (suc (suc (suc (suc zero)))) v lo hi h = omega arith
network_int (suc (suc (suc (suc (suc n))))) v lo hi h = absurd (omega arith)

-- The `size` low bytes of a 32-bit value, 1 to 4 of them, lie in memory with the most significant
-- byte first, once the value is in network order.
pub le_bytes-host_to_network_int :
    (size v : ℕ)
    → 1 ≤ size
    → size ≤ 4
    → v < 2 ^ 32
    → le_bytes size (host_to_network_int v size) ≡ be_bytes size v
unfolding host_to_network_int htonl
le_bytes-host_to_network_int zero v lo hi h = elim lo [ ]
le_bytes-host_to_network_int (suc zero) v lo hi h = ground arith
le_bytes-host_to_network_int (suc (suc zero)) v lo hi h = ground arith
le_bytes-host_to_network_int (suc (suc (suc zero))) v lo hi h = ground arith
le_bytes-host_to_network_int (suc (suc (suc (suc zero)))) v lo hi h = ground arith
le_bytes-host_to_network_int (suc (suc (suc (suc (suc n))))) v lo hi h = absurd (omega arith)

pub network_convert-IsConvert : IsConvert network_convert
network_convert-IsConvert = record {
  to-Fits = host_to_network-Fits;
  from-to = network_to_host-host_to_network;
  fromint-toint = network_int;
}

pub host_convert-IsConvert : IsConvert host_convert
host_convert-IsConvert = record {
  to-Fits = λ w v h. h;
  from-to = λ w v h. refl;
  fromint-toint = λ size v lo hi h. of_le-le_bytes size v h;
}

-- The swap macros reverse the bytes of a value in memory: of 16 bits, of 32 and of 64.
pub le_bytes-swaps :
    (s l q : ℕ)
    → s < 2 ^ 16
    → l < 2 ^ 32
    → q < 2 ^ 64
    → (le_bytes 2 (swap_short s) ≡ be_bytes 2 s)
      × (le_bytes 4 (swap_long l) ≡ be_bytes 4 l)
      × (le_bytes 8 (swap_longlong q) ≡ be_bytes 8 q)
le_bytes-swaps s l q hs hl hq = (
  ap (le_bytes 2) (swap_short-of_le s hs) ∙ le_bytes-of_be 2 s,
  ap (le_bytes 4) (swap_long-of_le l hl) ∙ le_bytes-of_be 4 l,
  ap (le_bytes 8) (swap_longlong-of_le q hq) ∙ le_bytes-of_be 8 q,
)

-- YASIO__SWAP_LONG and YASIO__SWAP_SHORT, which the floating-point types use, agree with the C
-- library's conversions that the integers use.
pub swap-host_to_network :
    (v : ℕ)
    → (v < 2 ^ 16 → swap_short v ≡ host_to_network w16 v)
      × (v < 2 ^ 32 → swap_long v ≡ host_to_network w32 v)
swap-host_to_network v = (
  (λ h. swap_short-of_le v h ∙ sym (host_to_network-of_be w16 v h)),
  λ h. swap_long-of_le v h ∙ sym (host_to_network-of_be w32 v h),
)
