-- ===== src/Stream/RoundTrip.antt =====
-- What yasio/obstream.hpp writes, yasio/ibstream.hpp reads back: over every buffer type that keeps
-- the laws of a buffer, and every byte order that keeps those of a conversion.
use yasio.Base.{ℕ, ◌+◌, ◌^◌, ◌≡◌, ◌<◌, refl, ap, sym, ◌∙◌, List, ◌++◌, length, arith, append_assoc}
use yasio.Base.Outcome.{Outcome, ok}
use yasio.Base.Int.{ℤ, pos}
use yasio.Endian.{Width, size_of, Convert}
use yasio.Endian.Laws.{Fits, IsConvert}
use yasio.Stream.Buffer.{Buffer, IsBuffer}
use yasio.Stream.Writer.{write, write_varint, write_ix, write_v, write_v_fx, clamp_size}
use yasio.Stream.Writer.Append.{
  ix_bytes, write-Appends, write_ix-appends, write_varint-Appends, write_v-Appends,
  write_v_fx-Appends,
}
use yasio.Stream.Reader.{Reader, read, read_varint, read_ix32, read_ix64, read_v, read_v_fx}
use yasio.Stream.Reader.Ready.{ready}
use yasio.Stream.Reader.Values.{read-ready, read_varint-ready, read_v-ready, read_v_fx-ready}
use yasio.Stream.Reader.Ix.{read_ix32-ready, read_ix64-ready}

-- A reader over the bytes `whole` and what follows them, at the end of the first bytes `before`.
abbrev pub behind : List ℕ → List ℕ → List ℕ → Reader
behind before whole rest = record { content = whole ++ rest; ptr = pos (length before) }

carried {ℓ} :
    {A : Type ℓ} (f : Reader → Outcome (A × Reader)) (a : A) (before vs whole rest : List ℕ)
    → whole ≡ before ++ vs
    → f (ready before (vs ++ rest)) ≡ ok (a, ready (before ++ vs) rest)
    → f (behind before whole rest) ≡ ok (a, ready whole rest)
carried f a before vs whole rest e h =
    ap f (λ i. record { content = joined i; ptr = pos (length before) })
    ∙ h
    ∙ (λ i. ok (a, ready (sym e i) rest))
  where
    joined : whole ++ rest ≡ before ++ (vs ++ rest)
    joined = ap (λ (t : List ℕ). t ++ rest) e ∙ append_assoc before vs rest

module _ (b : Buffer) (l : IsBuffer b) (c : Convert) (k : IsConvert c) (s : b.State)
    (rest : List ℕ) where
  -- `op` returned with room for n more bytes, and `get`, at the place where `op` began to write,
  -- yields `a` and stops where the written bytes end.
  abbrev pub ReadsBack {ℓ} :
      {A : Type ℓ} → ℕ → Outcome b.State → (Reader → Outcome (A × Reader)) → A → Type ℓ
  ReadsBack n op get a =
      (t : b.State) × (op ≡ ok t)
      × l.Room t n
      × (get (behind (b.bytes s) (b.bytes t) rest) ≡ ok (a, ready (b.bytes t) rest))

  -- A value of any width that fits the width and the buffer is read back by `read` as it was written
  -- by `write`, and the reader stops where the written bytes end.
  pub read-write :
      (w : Width) (v n : ℕ)
      → Fits w v
      → l.Room s (size_of w + n)
      → ReadsBack n (write b c s w v) (λ r. read c r w) v
  read-write w v n fits r =
      let (t, e, bytes, room) = write-Appends b l c s w v n r in
      (t, e, room, carried (λ x. read c x w) v _ _ _ rest bytes (read-ready c k w v _ rest fits))

  -- A value that fits the size, which both sides clamp to 1 .. 4 bytes, is read back by `read_varint`
  -- as it was written by `write_varint`.
  pub read_varint-write_varint :
      (size : ℤ) (v n : ℕ)
      → v < 256 ^ clamp_size size
      → l.Room s (clamp_size size + n)
      → ReadsBack n (write_varint b c s v size) (λ r. read_varint c r size) v
  read_varint-write_varint size v n fits r =
      let (t, e, bytes, room) = write_varint-Appends b l c s v size n r in
      (
        t,
        e,
        room,
        carried (λ x. read_varint c x size) v _ _ _ rest bytes
            (read_varint-ready c k size v _ rest fits),
      )

  -- Every 32-bit value is read back from its groups of seven bits, where the buffer has room for them.
  pub read_ix32-write_ix :
      (v n : ℕ)
      → v < 2 ^ 32
      → l.Room s (length (ix_bytes 9 v) + n)
      → ReadsBack n (ok (write_ix b c s v)) read_ix32 v
  read_ix32-write_ix v n h r =
      let (bytes, room) = write_ix-appends b l c s v n (omega arith) r in
      (_, refl, room, carried read_ix32 v _ _ _ rest bytes (read_ix32-ready v _ rest h))

  -- Every 64-bit value is read back from its groups of seven bits, where the buffer has room for them.
  pub read_ix64-write_ix :
      (v n : ℕ)
      → v < 2 ^ 64
      → l.Room s (length (ix_bytes 9 v) + n)
      → ReadsBack n (ok (write_ix b c s v)) read_ix64 v
  read_ix64-write_ix v n h r =
      let (bytes, room) = write_ix-appends b l c s v n (omega arith) r in
      (_, refl, room, carried read_ix64 v _ _ _ rest bytes (read_ix64-ready v _ rest h))

  -- A blob of less than 2 ^ 31 bytes behind its length in groups of seven bits is read back by
  -- `read_v`, where the buffer has room for both.
  pub read_v-write_v :
      (vs : List ℕ) (n : ℕ)
      → length vs < 2 ^ 31
      → l.Room s (length (ix_bytes 9 (length vs)) + (length vs + n))
      → ReadsBack n (write_v b c s vs) read_v vs
  read_v-write_v vs n h r =
      let (t, e, bytes, room) = write_v-Appends b l c s vs n h r in
      (t, e, room, carried read_v vs _ _ _ rest bytes (read_v-ready vs _ rest h))

  -- A blob of less than 2 ^ 31 bytes behind a length of any width that its length fits is read back by
  -- `read_v_fx`, where the buffer has room for both.
  pub read_v_fx-write_v_fx :
      (w : Width) (vs : List ℕ) (n : ℕ)
      → length vs < 2 ^ 31
      → Fits w (length vs)
      → l.Room s (size_of w + (length vs + n))
      → ReadsBack n (write_v_fx b c s w vs) (λ r. read_v_fx c r w) vs
  read_v_fx-write_v_fx w vs n h fits r =
      let (t, e, bytes, room) = write_v_fx-Appends b l c s w vs n h fits r in
      (
        t,
        e,
        room,
        carried (λ x. read_v_fx c x w) vs _ _ _ rest bytes (read_v_fx-ready c k w vs _ rest fits h),
      )
