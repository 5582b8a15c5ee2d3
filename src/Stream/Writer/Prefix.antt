-- ===== src/Stream/Writer/Prefix.antt =====
-- A length put in front of a payload by `push` and `pop` of yasio/obstream.hpp.
use yasio.Base.{
  ℕ, ◌+◌, ◌-◌, ◌%◌, ◌^◌, ◌≡◌, ap, sym, ◌∙◌, List, ◌++◌, length, replicate, length-replicate,
  length-append, append_assoc, arith,
}
use yasio.Base.Outcome.{Outcome, ok, ◌>>=◌}
use yasio.Endian.Bytes.{le_bytes, length-le_bytes}
use yasio.Endian.{Width, size_of, Convert, w8, w16, w32, w64}
use yasio.Endian.Laws.{Fits}
use yasio.Stream.Buffer.{Buffer, IsBuffer}
use yasio.Stream.Writer.{push, pop, pwrite}
use yasio.Stream.Writer.Append.{Appends, push-Appends}

-- The length that `pop` computes with a `size_t`, where w bytes were reserved after n and m follow.
counted :
    (w : Width) (n m : ℕ)
    → Fits w m
    → (n + (size_of w + m) + 2 ^ 64 - n - size_of w) % 256 ^ size_of w ≡ m
counted w8 n m h = omega arith
counted w16 n m h = omega arith
counted w32 n m h = omega arith
counted w64 n m h = omega arith

module _ (b : Buffer) (l : IsBuffer b) (c : Convert) where
  -- The calls of a user: reserve the length, write the payload, fill the length in.
  abbrev pub prefixed : b.State → Width → List ℕ → Outcome b.State
  prefixed s w vs = do (offset, t) ← push b c s w; u ← b.write_bytes t vs; pop b c u w offset

  pop-fills :
      (u : b.State) (w : Width) (before vs : List ℕ) (n : ℕ)
      → b.bytes u ≡ before ++ (replicate (size_of w) 0 ++ vs)
      → Fits w (length vs)
      → l.Room u n
      → (t : b.State) × (pop b c u w (length before) ≡ ok t)
        × (b.bytes t ≡ before ++ (le_bytes (size_of w) (c.to w (length vs)) ++ vs))
        × l.Room t n
  unfolding pop pwrite
  pop-fills u w before vs n e fits r =
      let (t, et, bytes, room) =
        l.write_replaces u before (replicate (size_of w) 0) vs
          (le_bytes (size_of w) (c.to w (length vs))) n e
          (length-le_bytes (size_of w) (c.to w (length vs)) ∙ sym (length-replicate (size_of w) 0))
          r in
      (
        t,
        ap
              (λ (x : ℕ).
                b.write_at u (length before) (le_bytes (size_of w) (c.to w (x % 256 ^ size_of w))))
              (ap (λ (k : ℕ). k + 2 ^ 64 - length before - size_of w) measured)
            ∙ ap (λ (x : ℕ). b.write_at u (length before) (le_bytes (size_of w) (c.to w x)))
                (counted w (length before) (length vs) fits)
            ∙ et,
        bytes,
        room,
      )
    where
      measured : length (b.bytes u) ≡ length before + (size_of w + length vs)
      measured = omega (
        arith,
        ap length e,
        length-append before (replicate (size_of w) 0 ++ vs),
        length-append (replicate {A = ℕ} (size_of w) 0) vs,
        length-replicate {A = ℕ} (size_of w) 0,
      )

  -- The payload stands behind its own length.
  pub prefixed-Appends :
      (s : b.State) (w : Width) (vs : List ℕ) (n : ℕ)
      → Fits w (length vs)
      → l.Room s (size_of w + (length vs + n))
      → Appends b l c s n (prefixed s w vs) (le_bytes (size_of w) (c.to w (length vs)) ++ vs)
  prefixed-Appends s w vs n fits r =
      let (t, et, bt, room) = push-Appends b l c s w (length vs + n) r in
      let (u, eu, bu, room') = l.bytes_append t vs n room in
      let (x, ex, bx, room'') =
        pop-fills u w (b.bytes s) vs n
          (bu
            ∙ ap (λ (y : List ℕ). y ++ vs) bt
            ∙ append_assoc (b.bytes s) (replicate (size_of w) 0) vs)
          fits room' in
      (
        x,
        ap
              (λ (y : Outcome (ℕ × b.State)).
                y >>= λ (o, z). b.write_bytes z vs >>= λ v. pop b c v w o)
              et
            ∙ ap (λ (y : Outcome b.State). y >>= λ v. pop b c v w (length (b.bytes s))) eu
            ∙ ex,
        bx,
        room'',
      )
