-- ===== src/Endpoint.antt =====
-- The order of ip::endpoint of yasio/xxsocket.hpp, which transport_map_ of io_service is kept by.
use yasio.Base.{
  ℕ, ◌+◌, ◌≡◌, refl, List, [], ◌∷◌, Bool, true, false, not, ◌&&◌, ◌==◌, ltb, if◌then◌else◌, arith,
}

-- The union as its bytes, and the fields that it has of an IPv4 address, as they lie in memory.
pub record Endpoint : Type 0 where
  pub af : ℕ
  pub s_addr : ℕ
  pub sin_port : ℕ
  pub bytes : List ℕ

abbrev pub af_inet : ℕ
af_inet = 2

-- `memcmp(a, b) < 0`, over as many bytes.
pub memcmp_less : List ℕ → List ℕ → Bool
memcmp_less [] ys = false
memcmp_less (a ∷ xs) [] = false
memcmp_less (a ∷ xs) (b ∷ ys) = if a == b then memcmp_less xs ys else ltb a b

-- operator<, and operator==.
pub less : Endpoint → Endpoint → Bool
unfolding memcmp_less
less lhs rhs =
    if lhs.af == af_inet
    then ltb (lhs.s_addr + lhs.sin_port) (rhs.s_addr + rhs.sin_port)
    else memcmp_less lhs.bytes rhs.bytes

abbrev pub equal : Endpoint → Endpoint → Bool
equal lhs rhs = not (less lhs rhs) && not (less rhs lhs)

memcmp_less-irreflexive : (xs : List ℕ) → memcmp_less xs xs ≡ false
unfolding memcmp_less
memcmp_less-irreflexive [] = refl
memcmp_less-irreflexive (a ∷ xs) = ground (arith, memcmp_less-irreflexive xs)

pub less-irreflexive : (p : Endpoint) → less p p ≡ false
unfolding less
less-irreflexive p = ground (arith, memcmp_less-irreflexive p.bytes)

-- Two IPv4 endpoints compare equal exactly where the sums of address and port agree.
pub equal-sums :
    (p q : Endpoint)
    → p.af ≡ af_inet
    → q.af ≡ af_inet
    → equal p q ≡ (p.s_addr + p.sin_port == q.s_addr + q.sin_port)
unfolding less
equal-sums p q a b = ground (arith, a, b)

-- On IPv4 endpoints being equal is transitive.
pub equal_trans :
    (p q r : Endpoint)
    → p.af ≡ af_inet
    → q.af ≡ af_inet
    → r.af ≡ af_inet
    → equal p q ≡ true
    → equal q r ≡ true
    → equal p r ≡ true
equal_trans p q r a b c h k =
    ground (arith, h, k, equal-sums p q a b, equal-sums q r b c, equal-sums p r a c)
