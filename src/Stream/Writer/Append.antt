-- ===== src/Stream/Writer/Append.antt =====
-- What each operation appends to the bytes of the buffer.
use mathlib.Core.WellFounded.{Acc}
use mathlib.Core.Logic.{dif_pos, dif_neg}
use native.Mathlib.Decide.{dec_lt}
use native.Mathlib.Nat.{pow-suc, mod-eq_of_lt}
use native.Mathlib.Bridge.{le_prop as lt_prop}
use yasio.Base.Recursion.{lt_wf}
use yasio.Base.{
  suc-ne_zero, ℕ, zero, suc, ◌+◌, ◌/◌, ◌%◌, ◌^◌, ◌<◌, ◌≤◌, ◌≡◌, refl, sym, append-nil, ap, subst,
  ◌∙◌, List, [], ◌∷◌, ◌++◌, length, take_all, replicate, lt→ltb, append_assoc, bit_or, true, false,
  ltb, ◌==◌, if◌then◌else◌, arith,
}
use yasio.Base.Bits.{bit_or_top_bit}
use yasio.Base.Outcome.{Outcome, ok, ◌>>=◌}
use yasio.Base.Int.{ℤ}
use yasio.Endian.Bytes.{le_bytes, length-le_bytes}
use yasio.Endian.{Width, size_of, Convert}
use yasio.Endian.Laws.{Fits}
use yasio.Stream.Buffer.{Buffer, IsBuffer}
use yasio.Stream.Writer.{
  groups_shrink, clamp_size, int_length, int_bytes, write, push, write_varint, write_ix_loop,
  write_ix, write_v, write_v_fx,
}

-- The groups of seven bits of v, the lowest first, for v below 128 ^ (k + 1).
unfoldable pub ix_bytes : ℕ → ℕ → List ℕ
ix_bytes zero v = v ∷ []
ix_bytes (suc k) v = elim (ltb v 128) [
  | true ↦ v ∷ []
  | false ↦ (v % 128 + 128) ∷ ix_bytes k (v / 128)
]

pub length-ix_bytes-le : (k v : ℕ) → length (ix_bytes k v) ≤ k + 1
unfolding ix_bytes
length-ix_bytes-le zero v = omega arith
length-ix_bytes-le (suc k) v = ground (arith, length-ix_bytes-le k (v / 128))

low_byte : (v : ℕ) → bit_or (v % 2 ^ 32) 0x80 % 256 ≡ v % 128 + 128
low_byte v = omega (arith, bit_or_top_bit (v % 2 ^ 32))

whole : (v : ℕ) → ¬ (127 < v) → v % 256 ≡ v
whole v h = omega arith

pub ix_bytes_short : (k v : ℕ) → ¬ (127 < v) → ix_bytes k v ≡ v ∷ []
unfolding ix_bytes
ix_bytes_short zero v h = refl
ix_bytes_short (suc k) v h = ground arith

pub ix_bytes_long :
    (k v : ℕ) → 127 < v → ix_bytes (suc k) v ≡ (v % 128 + 128) ∷ ix_bytes k (v / 128)
unfolding ix_bytes
ix_bytes_long k v h = ground arith

one_more : (k v n : ℕ) → ¬ (127 < v) → length (ix_bytes k v) + n ≡ suc n
one_more k v n h = omega (arith, ap length (ix_bytes_short k v h))

one_group :
    (k v n : ℕ)
    → 127 < v
    → length (ix_bytes (suc k) v) + n ≡ suc (length (ix_bytes k (v / 128)) + n)
one_group k v n h = omega (arith, ap length (ix_bytes_long k v h))

int_length-eq : (vs : List ℕ) → length vs < 2 ^ 31 → int_length vs ≡ length vs
unfolding int_length
int_length-eq vs h = omega arith

int_bytes-eq : (vs : List ℕ) → length vs < 2 ^ 31 → int_bytes vs ≡ vs
unfolding int_bytes
int_bytes-eq vs h =
    rw (int_length-eq vs h, lt→ltb (length vs) (2 ^ 31) h) (take_all (length vs) vs (omega arith))

module _ (b : Buffer) (l : IsBuffer b) (c : Convert) where
  -- The operation returned, it appended vs, and there is room for n more bytes.
  abbrev pub Appends : b.State → ℕ → Outcome b.State → List ℕ → Type 0
  Appends s n r vs = (t : b.State) × (r ≡ ok t) × (b.bytes t ≡ b.bytes s ++ vs) × l.Room t n

  pub write-Appends :
      (s : b.State) (w : Width) (v n : ℕ)
      → l.Room s (size_of w + n)
      → Appends s n (write b c s w v) (le_bytes (size_of w) (c.to w v))
  unfolding write
  write-Appends s w v n r =
      l.bytes_append s (le_bytes (size_of w) (c.to w v)) n
        (rw (length-le_bytes (size_of w) (c.to w v)) r)

  pub write_ix_loop-appends :
      (k : ℕ) (s : b.State) (v n : ℕ) (a : Acc ◌<◌ v)
      → v < 128 ^ suc k
      → l.Room s (length (ix_bytes k v) + n)
      → (b.bytes (write_ix_loop b c s v a) ≡ b.bytes s ++ ix_bytes k v)
        × l.Room (write_ix_loop b c s v a) n
  unfolding write_ix_loop
  write_ix_loop-appends zero s v n (Acc.intro _ smaller) h r =
      rw (dif_neg _ (small v h), whole v (small v h), ix_bytes_short zero v (small v h))
        (l.byte_appends s v n (subst (l.Room s) (one_more zero v n (small v h)) r))
    where
      small : (x : ℕ) → x < 128 ^ 1 → ¬ (127 < x)
      small x q = omega arith
  write_ix_loop-appends (suc k) s v n (Acc.intro _ smaller) h r = elim (dec_lt 127 v) [
    | yes more ↦
        let m = length (ix_bytes k (v / 128)) + n in
        let (e, room) =
          l.byte_appends s (v % 128 + 128) m (subst (l.Room s) (one_group k v n more) r) in
        let (e', room') =
          write_ix_loop-appends k (b.write_byte s (v % 128 + 128)) (v / 128) n
            (smaller (v / 128) (groups_shrink v more)) (omega (arith, pow-suc 128 (suc k))) room in
        rw (dif_pos _ lt_prop more, low_byte v, ix_bytes_long k v more)
          (
            e'
                ∙ ap (λ (t : List ℕ). t ++ ix_bytes k (v / 128)) e
                ∙ append_assoc (b.bytes s) ((v % 128 + 128) ∷ []) (ix_bytes k (v / 128)),
            room',
          )
    | no less ↦
        rw (dif_neg _ less, whole v less, ix_bytes_short (suc k) v less)
          (l.byte_appends s v n (subst (l.Room s) (one_more (suc k) v n less) r))
  ]

  pub write_ix-appends :
      (s : b.State) (v n : ℕ)
      → v < 128 ^ 10
      → l.Room s (length (ix_bytes 9 v) + n)
      → (b.bytes (write_ix b c s v) ≡ b.bytes s ++ ix_bytes 9 v) × l.Room (write_ix b c s v) n
  unfolding write_ix
  write_ix-appends s v n h r = write_ix_loop-appends 9 s v n (lt_wf.apply v) h r

  pub push-Appends :
      (s : b.State) (w : Width) (n : ℕ)
      → l.Room s (size_of w + n)
      → (t : b.State) × (push b c s w ≡ ok (length (b.bytes s), t))
        × (b.bytes t ≡ b.bytes s ++ replicate (size_of w) 0)
        × l.Room t n
  unfolding push
  push-Appends s w n r =
      let (t, e, bytes, room) = l.fill_appends s (size_of w) 0 n r in (t, rw e, bytes, room)

  pub write_varint-Appends :
      (s : b.State) (v : ℕ) (size : ℤ) (n : ℕ)
      → l.Room s (clamp_size size + n)
      → Appends s n
          (write_varint b c s v size)
          (le_bytes (clamp_size size) (c.toint v (clamp_size size)))
  unfolding write_varint
  write_varint-Appends s v size n r =
      l.bytes_append s (le_bytes (clamp_size size) (c.toint v (clamp_size size))) n
        (rw length-le_bytes r)

  -- Bytes shorter than 2 ^ 31, behind their length in 7-bit groups.
  pub write_v-Appends :
      (s : b.State) (vs : List ℕ) (n : ℕ)
      → length vs < 2 ^ 31
      → l.Room s (length (ix_bytes 9 (length vs)) + (length vs + n))
      → Appends s n (write_v b c s vs) (ix_bytes 9 (length vs) ++ vs)
  unfolding write_v
  write_v-Appends s vs n h r =
      let (e, room) = write_ix-appends s (length vs) (length vs + n) (omega arith) r in
      let (t, et, bytes, room') = l.bytes_append (write_ix b c s (length vs)) vs n room in
      (
        t,
        (λ i. b.write_bytes (write_ix b c s (int_length-eq vs h i)) (int_bytes-eq vs h i)) ∙ et,
        bytes
            ∙ ap (λ (u : List ℕ). u ++ vs) e
            ∙ append_assoc (b.bytes s) (ix_bytes 9 (length vs)) vs,
        room',
      )

  tail-Appends :
      (t : b.State) (vs : List ℕ) (n : ℕ)
      → l.Room t (length vs + n)
      → Appends t n (if length vs == 0 then ok t else b.write_bytes t vs) vs
  tail-Appends t [] n r = (t, refl, sym (append-nil (b.bytes t)), subst (l.Room t) (omega arith) r)
  tail-Appends t (v ∷ vs) n r = rw (suc-ne_zero (length vs)) (l.bytes_append t (v ∷ vs) n r)

  -- The same behind a length of fixed width, where that width holds it.
  pub write_v_fx-Appends :
      (s : b.State) (w : Width) (vs : List ℕ) (n : ℕ)
      → length vs < 2 ^ 31
      → Fits w (length vs)
      → l.Room s (size_of w + (length vs + n))
      → Appends s n (write_v_fx b c s w vs) (le_bytes (size_of w) (c.to w (length vs)) ++ vs)
  unfolding write_v_fx
  write_v_fx-Appends s w vs n h fits r =
      let (t, et, bytes, room) = write-Appends s w (length vs) (length vs + n) r in
      let (u, eu, bytes', room') = tail-Appends t vs n room in
      (
        u,
        (λ i. write b c s w (cut i) >>= rest (int_length-eq vs h i) (int_bytes-eq vs h i))
            ∙ (λ i. et i >>= rest (length vs) vs)
            ∙ eu,
        bytes'
            ∙ ap (λ (x : List ℕ). x ++ vs) bytes
            ∙ append_assoc (b.bytes s) (le_bytes (size_of w) (c.to w (length vs))) vs,
        room',
      )
    where
      rest : ℕ → List ℕ → b.State → Outcome b.State
      rest k us x = if k == 0 then ok x else b.write_bytes x us

      cut : int_length vs % 256 ^ size_of w ≡ length vs
      cut = ap (λ (k : ℕ). k % 256 ^ size_of w) (int_length-eq vs h) ∙ mod-eq_of_lt fits

pub clamp_size_bounds : (size : ℤ) → (1 ≤ clamp_size size) × (clamp_size size ≤ 4)
unfolding clamp_size
clamp_size_bounds size = ground arith
