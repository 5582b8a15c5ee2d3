-- ===== src/Stream/Reader/Safe.antt =====
-- What a reader does on data that it cannot trust.
use native.Mathlib.Nat.{one-le-pow, pow-le-pow_right, le_trans}
use yasio.Base.{
  ℕ, zero, suc, ◌+◌, ◌*◌, ◌%◌, ◌^◌, ◌≡◌, ◌≤◌, ◌<◌, refl, ap, sym, subst, ◌∙◌, List, length, take,
  drop, length-take, length-drop, bit_and, bit_or, if◌then◌else◌, arith, inl, inr, ◌⊎◌, min,
}
use yasio.Base.Bits.{bit_and_seven_bits}
use yasio.Base.Outcome.{ok, >>=-eq-ok}
use yasio.Base.Int.{ℤ, pos, negsuc, ◌+ℤ◌, pos_part, ltb_ℤ}
use yasio.Stream.Reader.Ix.{put_group, group_bound, mul_mono, shift_group}
use yasio.Stream.Reader.{
  Reader, consume, consume_at, read_byte, read_ix_loop, read_ix32, read_ix64, seek, seek_ptr,
  seek_cur,
}

-- The reader r' stands k bytes behind r, within the same data.
abbrev pub Moved : Reader → ℕ → Reader → Type 0
Moved r k r' =
    (p : ℕ) × (r.ptr ≡ pos p)
    × (r'.ptr ≡ pos (p + k))
    × (r'.content ≡ r.content)
    × (p + k ≤ length r.content)

consume_at-Moved :
    (vs : List ℕ) (p : ℤ) (size : ℕ) (us : List ℕ) (r' : Reader)
    → consume_at vs p size ≡ ok (us, r')
    → Moved (record { content = vs; ptr = p }) size r' × (length us ≡ size)
unfolding consume_at
consume_at-Moved vs (pos p) size us r' e =
    ((p, refl, ground arith, ground arith, ground arith), ground (arith, cut))
  where
    cut : p + size ≤ length vs → length (take size (drop p vs)) ≡ size
    cut h = omega (arith, length-take size (drop p vs), length-drop p vs)
consume_at-Moved vs (negsuc p) size us r' e = cc

pub consume-Moved :
    (r : Reader) (size : ℕ) (us : List ℕ) (r' : Reader)
    → consume r size ≡ ok (us, r')
    → Moved r size r' × (length us ≡ size)
unfolding consume
consume-Moved r size us r' e = consume_at-Moved r.content r.ptr size us r' e

read_byte-Moved : (r : Reader) (v : ℕ) (r' : Reader) → read_byte r ≡ ok (v, r') → Moved r 1 r'
unfolding read_byte
read_byte-Moved r v r' e =
    let ((us, r1), e1, e2) = >>=-eq-ok (consume r 1) _ e in
    ground (arith, consume-Moved r 1 us r1 e1)

shift_sum : (s k : ℕ) → 2 ^ (s + 7 + 7 * k) ≡ 2 ^ (s + 7 * suc k)
shift_sum s k = ap (λ (t : ℕ). 2 ^ t) (omega arith)

-- The result of a round fits the bits that it has.
round_bound :
    (result v shift bits : ℕ)
    → result < 2 ^ shift
    → 128 * 2 ^ shift ≤ 2 ^ bits
    → bit_or result (bit_and v 0x7f * 2 ^ shift % 2 ^ bits) < 2 ^ (shift + 7)
round_bound result v shift bits h fits = rw (bit_and_seven_bits v) (
    subst (λ t. t < 2 ^ (shift + 7)) (sym (put_group result (v % 128) shift bits h below))
      (group_bound result v shift h))
  where
    below : v % 128 * 2 ^ shift < 2 ^ bits
    below =
        omega (
          arith,
          mul_mono (v % 128) 127 (2 ^ shift) (omega arith),
          one-le-pow shift 2 (omega arith),
        )

Moved-trans :
    (r r1 r' : Reader) (j k m : ℕ) → m ≡ j + k → Moved r j r1 → Moved r1 k r' → Moved r m r'
Moved-trans r r1 r' j k m e (p, a, b, c, d) (q, a', b', c', d') =
    (p, a, b' ∙ ap pos (omega (arith, same)), c' ∙ c, omega (arith, same, ap length c))
  where
    same : p + j ≡ q
    same = ap pos_part (sym b ∙ a')

-- Between 1 and `most` bytes were taken, and the value is below `bound`.
abbrev pub Taken : Reader → ℕ → Reader → ℕ → ℕ → Type 0
Taken r most r' v bound = ((k : ℕ) × (1 ≤ k) × (k ≤ most) × Moved r k r') × (v < bound)

fits_group :
    (n last shift bits : ℕ)
    → (last + 1) * 2 ^ (shift + 7 * suc n) ≤ 2 ^ bits
    → 2 ^ (shift + 7) ≤ 2 ^ bits
fits_group n last shift bits h =
    le_trans (pow-le-pow_right (omega arith) {i = shift + 7} {j = shift + 7 * suc n} (omega arith))
      (le_trans (omega (arith, mul_mono 1 (last + 1) (2 ^ (shift + 7 * suc n)) (omega arith))) h)

final_round :
    (last bits shift result v x : ℕ) (r r1 r' : Reader)
    → read_byte r ≡ ok (x, r1)
    → read_ix_loop zero last bits r shift result ≡ ok (v, r')
    → (x ≤ last) × (v ≡ bit_or result (x * 2 ^ shift % 2 ^ bits)) × (r1 ≡ r')
unfolding read_ix_loop
final_round last bits shift result v x r r1 r' b e = ground arith

inner_round :
    (n last bits shift result v x : ℕ) (r r1 r' : Reader)
    → read_byte r ≡ ok (x, r1)
    → read_ix_loop (suc n) last bits r shift result ≡ ok (v, r')
    → let result' = bit_or result (bit_and x 0x7f * 2 ^ shift % 2 ^ bits) in
      ((v ≡ result') × (r1 ≡ r')) ⊎ (read_ix_loop n last bits r1 (shift + 7) result' ≡ ok (v, r'))
unfolding read_ix_loop
inner_round n last bits shift result v x r r1 r' b e = ground arith

read_byte_cases :
    (n last bits shift result v : ℕ) (r r' : Reader)
    → read_ix_loop n last bits r shift result ≡ ok (v, r')
    → (x : ℕ) × (r1 : Reader) × (read_byte r ≡ ok (x, r1))
unfolding read_ix_loop
read_byte_cases zero last bits shift result v r r' e =
    let ((x, r1), b, _) = >>=-eq-ok (read_byte r) _ e in (x, r1, b)
read_byte_cases (suc n) last bits shift result v r r' e =
    let ((x, r1), b, _) = >>=-eq-ok (read_byte r) _ e in (x, r1, b)

top_bound :
    (last bits shift result x : ℕ)
    → result < 2 ^ shift
    → x ≤ last
    → (last + 1) * 2 ^ (shift + 7 * 0) ≤ 2 ^ bits
    → bit_or result (x * 2 ^ shift % 2 ^ bits) < 2 ^ bits
top_bound last bits shift result x h hx fits =
    subst (λ t. t < 2 ^ bits)
      (sym (put_group result x shift bits h (omega (arith, room, pos_shift)))) (omega (arith, room))
  where
    pos_shift : 1 ≤ 2 ^ shift
    pos_shift = one-le-pow shift 2 (omega arith)

    no_rounds : shift + 7 * 0 ≡ shift
    no_rounds = omega arith

    room : x * 2 ^ shift + 2 ^ shift ≤ 2 ^ bits
    room = omega (
      arith,
      mul_mono x last (2 ^ shift) hx,
      subst (λ t. (last + 1) * 2 ^ t ≤ 2 ^ bits) no_rounds fits,
    )

read_ix_loop-Taken :
    (n last bits shift result v : ℕ) (r r' : Reader)
    → result < 2 ^ shift
    → (last + 1) * 2 ^ (shift + 7 * n) ≤ 2 ^ bits
    → read_ix_loop n last bits r shift result ≡ ok (v, r')
    → Taken r (n + 1) r' v (2 ^ bits)
read_ix_loop-Taken zero last bits shift result v r r' h fits e =
    let (x, r1, b) = read_byte_cases zero last bits shift result v r r' e in
    let (hx, hv, hr) = final_round last bits shift result v x r r1 r' b e in
    (
      (1, omega arith, omega arith, subst (Moved r 1) hr (read_byte-Moved r x r1 b)),
      subst (λ t. t < 2 ^ bits) (sym hv) (top_bound last bits shift result x h hx fits),
    )
read_ix_loop-Taken (suc n) last bits shift result v r r' h fits e =
    let (x, r1, b) = read_byte_cases (suc n) last bits shift result v r r' e in
    let moved = read_byte-Moved r x r1 b in
    let group = fits_group n last shift bits fits in
    let bound =
      round_bound result x shift bits h (subst (λ t. t ≤ 2 ^ bits) (shift_group shift) group) in
    elim (inner_round n last bits shift result v x r r1 r' b e) [
      | inl (hv, hr) ↦ (
        (1, omega arith, omega arith, subst (Moved r 1) hr moved),
        subst (λ t. t < 2 ^ bits) (sym hv) (le_trans bound group),
      )
      | inr e' ↦
          let ((k, lo, hi, m), below) =
            read_ix_loop-Taken n last bits (shift + 7) _ v r1 r' bound
              (subst (λ t. (last + 1) * t ≤ 2 ^ bits) (sym (shift_sum shift n)) fits) e' in
          (
            (
              suc k,
              omega arith,
              omega arith,
              Moved-trans r r1 r' 1 k (suc k) (omega arith) moved m,
            ),
            below,
          )
    ]

-- A 32-bit integer that is read from any data took 1 to 5 of its bytes, none behind its end, and
-- fits 32 bits.
pub read_ix32-Taken : (r r' : Reader) (v : ℕ) → read_ix32 r ≡ ok (v, r') → Taken r 5 r' v (2 ^ 32)
unfolding read_ix32
read_ix32-Taken r r' v e = read_ix_loop-Taken 4 15 32 0 0 v r r' (omega arith) (omega arith) e

-- A 64-bit integer that is read from any data took 1 to 10 of its bytes, none behind its end, and
-- fits 64 bits.
pub read_ix64-Taken : (r r' : Reader) (v : ℕ) → read_ix64 r ≡ ok (v, r') → Taken r 10 r' v (2 ^ 64)
unfolding read_ix64
read_ix64-Taken r r' v e = read_ix_loop-Taken 9 1 64 0 0 v r r' (omega arith) (omega arith) e

-- An integer moved into 0 .. n.
clamped :
    (z : ℤ) (n : ℕ)
    → (if ltb_ℤ z (pos 0) then pos 0 else if ltb_ℤ (pos n) z then pos n else z)
      ≡ pos (min (pos_part z) n)
clamped (pos k) n = ground arith
clamped (negsuc k) n = ground arith

-- SEEK_CUR goes to the sum of the place and the offset, moved into the data.
pub seek_cur-clamped :
    (r : Reader) (offset : ℤ)
    → (seek r offset seek_cur).ptr ≡ pos (min (pos_part (r.ptr +ℤ offset)) (length r.content))
unfolding seek seek_ptr
seek_cur-clamped r offset = clamped (r.ptr +ℤ offset) (length r.content)
