-- ===== src/Endian/Bytes.antt =====
-- A value and the bytes that hold it.
use yasio.Base.{
  ℕ, zero, suc, ◌+◌, ◌*◌, ◌/◌, ◌%◌, ◌^◌, ◌<◌, ◌≡◌, refl, ap, ◌∙◌, List, [], ◌∷◌, ◌++◌, length, All,
  All-append, length-append, arith,
}
use native.Mathlib.Nat.{pow-suc}

abbrev pub IsByte : ℕ → Type 0
IsByte b = b < 256

-- The first n bytes in memory of a value, lowest first.
abbrev pub le_bytes : ℕ → ℕ → List ℕ
le_bytes zero v = []
le_bytes (suc n) v = (v % 256) ∷ le_bytes n (v / 256)

abbrev pub of_le : List ℕ → ℕ
of_le [] = 0
of_le (b ∷ bs) = b + 256 * of_le bs

-- The same, most significant byte first.
abbrev pub be_bytes : ℕ → ℕ → List ℕ
be_bytes zero v = []
be_bytes (suc n) v = be_bytes n (v / 256) ++ (v % 256) ∷ []

pub length-le_bytes : (n v : ℕ) → length (le_bytes n v) ≡ n
length-le_bytes zero v = refl
length-le_bytes (suc n) v = ap suc (length-le_bytes n (v / 256))

pub length-be_bytes : (n v : ℕ) → length (be_bytes n v) ≡ n
length-be_bytes zero v = refl
length-be_bytes (suc n) v =
    omega
      (arith, length-append (be_bytes n (v / 256)) ((v % 256) ∷ []), length-be_bytes n (v / 256))

pub le_bytes-IsByte : (n v : ℕ) → All IsByte (le_bytes n v)
le_bytes-IsByte zero v = tt
le_bytes-IsByte (suc n) v = (omega arith, le_bytes-IsByte n (v / 256))

pub be_bytes-IsByte : (n v : ℕ) → All IsByte (be_bytes n v)
be_bytes-IsByte zero v = tt
be_bytes-IsByte (suc n) v =
    All-append IsByte (be_bytes n (v / 256)) ((v % 256) ∷ []) (be_bytes-IsByte n (v / 256))
      (omega arith)

pub of_le-le_bytes : (n v : ℕ) → v < 256 ^ n → of_le (le_bytes n v) ≡ v
of_le-le_bytes zero v h = omega arith
of_le-le_bytes (suc n) v h =
    omega (arith, of_le-le_bytes n (v / 256) (omega (arith, pow-suc 256 n)))

-- Any n bytes are the memory of the value that they make up.
pub le_bytes-of_le : (bs : List ℕ) → All IsByte bs → le_bytes (length bs) (of_le bs) ≡ bs
le_bytes-of_le [] h = refl
le_bytes-of_le (b ∷ bs) (hb, hbs) =
    (λ i. low i ∷ le_bytes (length bs) (high i)) ∙ ap (◌∷◌ b) (le_bytes-of_le bs hbs)
  where
    low : (b + 256 * of_le bs) % 256 ≡ b
    low = omega arith

    high : (b + 256 * of_le bs) / 256 ≡ of_le bs
    high = omega arith

pub le_bytes-of_be : (n v : ℕ) → le_bytes n (of_le (be_bytes n v)) ≡ be_bytes n v
le_bytes-of_be n v =
    rw (length-be_bytes n v) at (le_bytes-of_le (be_bytes n v) (be_bytes-IsByte n v))

-- The value of bytes that stand in the opposite order.
pub of_le_be_bytes-lt : (bs : List ℕ) → All IsByte bs → of_le bs < 256 ^ length bs
of_le_be_bytes-lt [] h = omega arith
of_le_be_bytes-lt (b ∷ bs) (hb, hbs) =
    omega (arith, of_le_be_bytes-lt bs hbs, pow-suc 256 (length bs))
