-- ===== src/Stream/Reader/Ix.antt =====
-- The readers of 7-bit groups on the groups of a value.
use native.Mathlib.Decide.{dec_lt}
use native.Mathlib.Numerals.{towards_suc}
use native.Mathlib.Nat.{div-add-mod, mod-eq_of_lt}
use yasio.Base.{
  ℕ, zero, suc, ◌+◌, ◌*◌, ◌/◌, ◌%◌, ◌^◌, ◌≡◌, ◌≤◌, ◌<◌, ap, ◌∙◌, List, [], ◌∷◌, ◌++◌, bit_or, false,
  leb, le→leb, arith, append_assoc,
}
use yasio.Base.Bits.{bit_or_above, bit_and_seven_bits}
use yasio.Base.Outcome.{ok}
use yasio.Stream.Writer.Append.{ix_bytes, ix_bytes_short, ix_bytes_long}
use yasio.Stream.Reader.{read_ix_loop, read_ix32, read_ix64}
use yasio.Stream.Reader.Ready.{ready, read_byte-ready}

-- What is left of v after k groups is at most `last`.
abbrev Within : ℕ → ℕ → ℕ → Type 0
Within zero last v = v ≤ last
Within (suc k) last v = Within k last (v / 128)

pub shift_group : (s : ℕ) → 2 ^ (s + 7) ≡ 128 * 2 ^ s
shift_group s = simp towards_suc (omega arith)

-- The lowest group in its place, and the groups above it in theirs.
regroup : (v s : ℕ) → v % 128 * 2 ^ s + v / 128 * 2 ^ (s + 7) ≡ v * 2 ^ s
regroup v s = omega (
  arith,
  ap (λ (t : ℕ). v / 128 * t) (shift_group s),
  ap (λ (t : ℕ). t * 2 ^ s) (div-add-mod v 128),
)

-- Putting the group g into the result.
pub put_group :
    (result g shift bits : ℕ)
    → result < 2 ^ shift
    → g * 2 ^ shift < 2 ^ bits
    → bit_or result (g * 2 ^ shift % 2 ^ bits) ≡ result + g * 2 ^ shift
put_group result g shift bits h fits =
    ap (bit_or result) (mod-eq_of_lt fits) ∙ bit_or_above shift result g h

pub mul_mono : (a b p : ℕ) → a ≤ b → a * p ≤ b * p
mul_mono a b p h = grind arith

pub group_bound :
    (result v shift : ℕ) → result < 2 ^ shift → result + v % 128 * 2 ^ shift < 2 ^ (shift + 7)
group_bound result v shift h =
    omega (arith, shift_group shift, mul_mono (v % 128) 127 (2 ^ shift) (omega arith))

-- One round on a byte below 128, and one on a byte that has more after it.
last_round :
    (k last bits shift result v : ℕ) (before rest : List ℕ)
    → v < 128
    → result < 2 ^ shift
    → v * 2 ^ shift < 2 ^ bits
    → read_ix_loop (suc k) last bits (ready before (v ∷ rest)) shift result
      ≡ ok (result + v * 2 ^ shift, ready (before ++ v ∷ []) rest)
unfolding read_ix_loop
last_round k last bits shift result v before rest small h fits =
    rw
      (
        read_byte-ready before v rest,
        le→leb v 127 (omega arith),
        bit_and_seven_bits v,
        whole v small,
      )
      (ap (λ (t : ℕ). ok (t, ready (before ++ v ∷ []) rest)) (put_group result v shift bits h fits))
  where
    whole : (x : ℕ) → x < 128 → x % 128 ≡ x
    whole x q = omega arith

inner_round :
    (k last bits shift result g : ℕ) (before rest : List ℕ)
    → g < 128
    → result < 2 ^ shift
    → g * 2 ^ shift < 2 ^ bits
    → read_ix_loop (suc k) last bits (ready before ((g + 128) ∷ rest)) shift result
      ≡ read_ix_loop k last bits
          (ready (before ++ (g + 128) ∷ []) rest)
          (shift + 7)
          (result + g * 2 ^ shift)
unfolding read_ix_loop
inner_round k last bits shift result g before rest small h fits =
    rw (read_byte-ready before (g + 128) rest, over g, bit_and_seven_bits (g + 128), whole g small)
      (ap (read_ix_loop k last bits (ready (before ++ (g + 128) ∷ []) rest) (shift + 7))
        (put_group result g shift bits h fits))
  where
    whole : (x : ℕ) → x < 128 → (x + 128) % 128 ≡ x
    whole x q = omega arith

    over : (x : ℕ) → leb (x + 128) 127 ≡ false
    over x = ground arith

final_round :
    (last bits shift result v : ℕ) (before rest : List ℕ)
    → v ≤ last
    → result < 2 ^ shift
    → v * 2 ^ shift < 2 ^ bits
    → read_ix_loop zero last bits (ready before (v ∷ rest)) shift result
      ≡ ok (result + v * 2 ^ shift, ready (before ++ v ∷ []) rest)
unfolding read_ix_loop
final_round last bits shift result v before rest small h fits =
    rw (read_byte-ready before v rest, le→leb v last small)
      (ap (λ (t : ℕ). ok (t, ready (before ++ v ∷ []) rest)) (put_group result v shift bits h fits))

-- The reader takes exactly the groups of v, whatever follows them.
read_ix_loop-ready :
    (k j last bits shift result v : ℕ) (before rest : List ℕ)
    → k ≤ j
    → last < 128
    → Within k last v
    → result < 2 ^ shift
    → v * 2 ^ shift < 2 ^ bits
    → read_ix_loop k last bits (ready before (ix_bytes j v ++ rest)) shift result
      ≡ ok (result + v * 2 ^ shift, ready (before ++ ix_bytes j v) rest)
read_ix_loop-ready zero j last bits shift result v before rest hj hl w h fits =
    rw (ix_bytes_short j v (omega arith))
      (final_round last bits shift result v before rest w h fits)
read_ix_loop-ready (suc k) zero last bits shift result v before rest hj hl w h fits = elim hj [ ]
read_ix_loop-ready (suc k) (suc j) last bits shift result v before rest hj hl w h fits =
    elim (dec_lt 127 v) [
      | yes more ↦ rw (ix_bytes_long j v more) (
          inner_round k last bits shift result (v % 128) before (ix_bytes j (v / 128) ++ rest)
            (omega arith) h (omega (arith, regroup v shift))
          ∙ read_ix_loop-ready k j last bits (shift + 7) (result + v % 128 * 2 ^ shift) (v / 128)
              (before ++ (v % 128 + 128) ∷ []) rest (omega arith) hl w
              (group_bound result v shift h) (omega (arith, regroup v shift))
          ∙ (λ i. ok (
            total i,
            ready (append_assoc before ((v % 128 + 128) ∷ []) (ix_bytes j (v / 128)) i) rest,
          )))
      | no less ↦
          rw (ix_bytes_short (suc j) v less)
            (last_round k last bits shift result v before rest (omega arith) h fits)
    ]
  where
    total : result + v % 128 * 2 ^ shift + v / 128 * 2 ^ (shift + 7) ≡ result + v * 2 ^ shift
    total = omega (arith, regroup v shift)

pub read_ix32-ready :
    (v : ℕ) (before rest : List ℕ)
    → v < 2 ^ 32
    → read_ix32 (ready before (ix_bytes 9 v ++ rest)) ≡ ok (v, ready (before ++ ix_bytes 9 v) rest)
unfolding read_ix32
read_ix32-ready v before rest h =
    read_ix_loop-ready 4 9 15 32 0 0 v before rest (omega arith) (omega arith) (omega arith)
      (omega arith) (omega arith)
    ∙ ap (λ (t : ℕ). ok (t, ready (before ++ ix_bytes 9 v) rest)) (omega arith)

pub read_ix64-ready :
    (v : ℕ) (before rest : List ℕ)
    → v < 2 ^ 64
    → read_ix64 (ready before (ix_bytes 9 v ++ rest)) ≡ ok (v, ready (before ++ ix_bytes 9 v) rest)
unfolding read_ix64
read_ix64-ready v before rest h =
    read_ix_loop-ready 9 9 1 64 0 0 v before rest (omega arith) (omega arith) (omega arith)
      (omega arith) (omega arith)
    ∙ ap (λ (t : ℕ). ok (t, ready (before ++ ix_bytes 9 v) rest)) (omega arith)
