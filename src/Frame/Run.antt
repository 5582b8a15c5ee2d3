-- ===== src/Frame/Run.antt =====
-- Many reads: what do_read hands on over the life of a connection.
use yasio.Base.{
  ℕ, suc, ◌≡◌, ◌⊎◌, inl, inr, refl, sym, subst, List, [], ◌∷◌, ◌++◌, take, drop, if◌then◌else◌,
  concat, append_assoc, append-nil, true, false,
}
use yasio.Base.Outcome.{Outcome, ok, err, ◌>>=◌}
use yasio.Base.Int.{ℤ}
use yasio.Frame.{Transport, Progress, got, read_packets, not_empty}
use yasio.Frame.Stream.{
  IsFraming, Malformed, Frames, rest, frame, Frames-trans, Frames-append, settled_pos, settled_neg,
}
use yasio.Frame.Step.{Holds, Steps, read_packets-Steps}

-- Nothing was handed on.
abbrev pub quiet : Transport → Progress
quiet t = record { transport = t; packets = []; no_wait = false; alive = true }

-- What a read gave, and what the reads after it gave.
abbrev pub joined : Progress → Outcome Progress → Outcome Progress
joined p (ok q) = ok (record q { packets = p.packets ++ q.packets })
joined p (err e) = err e

abbrev pub after : Progress → Outcome Progress → Outcome Progress
after p later = if p.alive then joined p later else ok p

module _ (decode_len : List ℕ → ℤ) (strip : ℕ) where
  -- The transport reads the chunks one after the other, until it is to be closed.
  abbrev pub run : Transport → List (List ℕ) → Outcome Progress
  run t [] = ok (quiet t)
  run t (c ∷ cs) = read_packets decode_len strip t (got c) >>= λ p. after p (run p.transport cs)

  -- A run that cut all it could out of the stream x, and what it stopped at.
  abbrev pub Cuts : Outcome Progress → List ℕ → Type 0
  Cuts r x =
      (p : Progress) × (y : List ℕ) × (r ≡ ok p)
      × Frames decode_len strip x p.packets y
      × (((p.alive ≡ true) × Holds decode_len strip p.transport y)
          ⊎ ((p.alive ≡ false) × Malformed decode_len strip y))

  pub Malformed-append :
      (x z : List ℕ)
      → IsFraming decode_len strip
      → Malformed decode_len strip x
      → Malformed decode_len strip (x ++ z)
  Malformed-append x z f (inl (n, e)) = inl (n, settled_neg decode_len strip f x z n e)
  Malformed-append x z f (inr (n, e, h)) = inr (n, settled_pos decode_len strip f x z n e, h)

  -- Reads that follow a read which left the stream's bytes y.
  Cuts-joined :
      (p : Progress) (r : Outcome Progress) (x y : List ℕ)
      → p.alive ≡ true
      → Frames decode_len strip x p.packets y
      → Cuts r y
      → Cuts (after p r) x
  Cuts-joined p r x y a f (q, z, e, g, h) = (
    record q { packets = p.packets ++ q.packets },
    z,
    rw a (rw e refl),
    Frames-trans decode_len strip f g,
    h,
  )

  step-Cuts :
      (m : Outcome Progress) (x z : List ℕ) (cs : List (List ℕ))
      → IsFraming decode_len strip
      → Steps decode_len strip m x
      → ((t : Transport) (y : List ℕ) → Holds decode_len strip t y → Cuts (run t cs) (y ++ z))
      → Cuts (m >>= λ p. after p (run p.transport cs)) (x ++ z)
  step-Cuts m x z cs f (inl (t, e, h, c)) k =
      rw e (Cuts-joined (quiet t) (run t cs) (x ++ z) (x ++ z) refl (rest (x ++ z)) (k t x h))
  step-Cuts m x z cs f (inr (inl (t, n, e, h, c))) k = rw e (
      Cuts-joined
        (record {
          transport = t;
          packets = drop strip (take (suc n) x) ∷ [];
          no_wait = not_empty (drop (suc n) x);
          alive = true;
        })
        (run t cs) (x ++ z) (drop (suc n) x ++ z) refl
        (Frames-append decode_len strip f z (frame x n [] (drop (suc n) x) c (rest _)))
        (k t (drop (suc n) x) h))
  step-Cuts m x z cs f (inr (inr (t, e, c))) k =
      rw e (_, x ++ z, refl, rest (x ++ z), inr (refl, Malformed-append x z f c))

  -- For a length decoder that is a framing, and a transport that holds the start of a frame, the reads never throw, however the stream was
  -- split: they hand on frames of the stream, in order and each without the bytes to strip, and
  -- keep the bytes behind these; the connection is closed only on a malformed length.
  pub run-Cuts :
      (cs : List (List ℕ)) (t : Transport) (u : List ℕ)
      → IsFraming decode_len strip
      → Holds decode_len strip t u
      → Cuts (run t cs) (u ++ concat cs)
  run-Cuts [] t u f h = (
    _,
    u ++ [],
    refl,
    rest (u ++ []),
    inl (refl, subst (Holds decode_len strip t) (sym (append-nil u)) h),
  )
  run-Cuts (c ∷ cs) t u f h = subst (Cuts (run t (c ∷ cs))) (append_assoc u c (concat cs)) (
      step-Cuts (read_packets decode_len strip t (got c)) (u ++ c) (concat cs) cs f
        (read_packets-Steps decode_len strip t u c f h) (λ s y k. run-Cuts cs s y f k))
