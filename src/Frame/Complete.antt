-- ===== src/Frame/Complete.antt =====
-- No frame that has arrived stays in the transport, and the packets depend on the bytes alone.
use yasio.Base.{
  ℕ, zero, suc, ◌+◌, ◌≤◌, ◌<◌, ◌≡◌, ◌⊎◌, inl, inr, refl, ap, sym, subst, ◌∙◌, List, [], ◌∷◌, ◌++◌,
  length, length-append, length-drop, take, drop, replicate, concat, append_assoc, append-nil,
  arith, true,
}
use yasio.Base.Outcome.{Outcome, ok, ◌>>=◌}
use yasio.Base.Int.{ℤ, pos, pos_part}
use yasio.Frame.{Transport, Progress, got, read_packets, not_empty}
use yasio.Frame.Stream.{
  IsFraming, Complete, Incomplete, Malformed, Frames, rest, frame, Frames-append, Frames-trans,
}
use yasio.Frame.Step.{Holds, Steps, read_packets-Steps}
use yasio.Frame.Run.{Cuts, Malformed-append, after, quiet, run, run-Cuts}

-- Reads that bring no new byte: `no_wait` lets the loop read again at once.
abbrev pub no_bytes : ℕ → List (List ℕ)
no_bytes k = replicate k []

no_bytes-concat : (k : ℕ) → concat (no_bytes k) ≡ []
no_bytes-concat zero = refl
no_bytes-concat (suc k) = no_bytes-concat k

module _ (decode_len : List ℕ → ℤ) (strip : ℕ) where
  -- The stream begins with no whole frame that may be handed on.
  abbrev pub Stops : List ℕ → Type 0
  Stops y = Incomplete decode_len strip y ⊎ Malformed decode_len strip y

  same_length : (x : List ℕ) (n m : ℕ) → decode_len x ≡ pos n → decode_len x ≡ pos m → n ≡ m
  same_length x n m p q = ap pos_part (sym p ∙ q)

  pub Complete-not-Stops : (x : List ℕ) (n : ℕ) → Complete decode_len strip x n → Stops x → ⊥
  Complete-not-Stops x n (e, s, h) (inl (inl p)) = omega (arith, same_length x (suc n) 0 e p)
  Complete-not-Stops x n (e, s, h) (inl (inr (m, p, k))) =
      omega (arith, same_length x (suc n) (suc m) e p)
  Complete-not-Stops x n (e, s, h) (inr (inl (m, p))) = cc
  Complete-not-Stops x n (e, s, h) (inr (inr (m, p, k))) =
      omega (arith, same_length x (suc n) (suc m) e p)

  pub Frames-unique :
      {x y z : List ℕ} {ps qs : List (List ℕ)}
      → Frames decode_len strip x ps y
      → Frames decode_len strip x qs z
      → Stops y
      → Stops z
      → (ps ≡ qs) × (y ≡ z)
  Frames-unique (rest x) (rest _) a b = (refl, refl)
  Frames-unique (rest x) (frame _ m qs z d g) a b = elim (Complete-not-Stops x m d a) [ ]
  Frames-unique (frame x n ps y c f) (rest _) a b = elim (Complete-not-Stops x n c b) [ ]
  Frames-unique (frame x n ps y c f) (frame _ m qs z d g) a b =
      let r =
        Frames-unique f (subst (λ k. Frames decode_len strip (drop (suc k) x) qs z) (sym e) g) a
          b in
      ((λ i. drop strip (take (suc (e i)) x) ∷ r.0 i), r.1)
    where
      e : n ≡ m
      e = omega (arith, same_length x (suc n) (suc m) c.0 d.0)

  Frames-Stops :
      {x y : List ℕ} {ps : List (List ℕ)} → Frames decode_len strip x ps y → Stops x → Stops y
  Frames-Stops (rest x) a = a
  Frames-Stops (frame x n ps y c f) a = elim (Complete-not-Stops x n c a) [ ]

  -- All the frames of the stream x were handed on.
  abbrev pub Drains : Outcome Progress → List ℕ → Type 0
  Drains r x =
      (p : Progress) × (y : List ℕ) × (r ≡ ok p) × Frames decode_len strip x p.packets y × Stops y

  Drains-joined :
      (p : Progress) (r : Outcome Progress) (x y : List ℕ)
      → p.alive ≡ true
      → Frames decode_len strip x p.packets y
      → Drains r y
      → Drains (after p r) x
  Drains-joined p r x y a f (q, z, e, g, h) = (
    record q { packets = p.packets ++ q.packets },
    z,
    rw a (rw e refl),
    Frames-trans decode_len strip f g,
    h,
  )

  wait-Drains :
      (k : ℕ) (t : Transport) (y : List ℕ)
      → IsFraming decode_len strip
      → Holds decode_len strip t y
      → Stops y
      → Drains (run decode_len strip t (no_bytes k)) y
  wait-Drains k t y f h a =
      let c =
        subst (λ w. Cuts decode_len strip (run decode_len strip t (no_bytes k)) w)
          (ap (λ w. y ++ w) (no_bytes-concat k) ∙ append-nil y)
          (run-Cuts decode_len strip (no_bytes k) t y f h) in
      (c.0, c.1, c.2, c.3, Frames-Stops c.3 a)

  -- A read of nothing hands on the first frame, where there is one.
  empty_step-Drains :
      (m : Outcome Progress) (y : List ℕ) (k : ℕ)
      → IsFraming decode_len strip
      → Steps decode_len strip m y
      → ((t : Transport) (n : ℕ)
          → Complete decode_len strip y n
          → Holds decode_len strip t (drop (suc n) y)
          → Drains (run decode_len strip t (no_bytes k)) (drop (suc n) y))
      → Drains (m >>= λ p. after p (run decode_len strip p.transport (no_bytes k))) y
  empty_step-Drains m y k f (inl (t, e, h, c)) g = rw e (
      Drains-joined (quiet t) (run decode_len strip t (no_bytes k)) y y refl (rest y)
        (wait-Drains k t y f h (inl c)))
  empty_step-Drains m y k f (inr (inl (t, n, e, h, c))) g = rw e (
      Drains-joined
        (record {
          transport = t;
          packets = drop strip (take (suc n) y) ∷ [];
          no_wait = not_empty (drop (suc n) y);
          alive = true;
        })
        (run decode_len strip t (no_bytes k)) y (drop (suc n) y) refl
        (frame y n [] (drop (suc n) y) c (rest _)) (g t n c h))
  empty_step-Drains m y k f (inr (inr (t, e, c))) g = rw e (_, y, refl, rest y, inr c)

  drain-Drains :
      (k : ℕ) (t : Transport) (y : List ℕ)
      → IsFraming decode_len strip
      → Holds decode_len strip t y
      → length y < k
      → Drains (run decode_len strip t (no_bytes k)) y
  drain-Drains zero t y f h l = elim l [ ]
  drain-Drains (suc k) t y f h l =
      empty_step-Drains (read_packets decode_len strip t (got [])) y k f
        (subst (Steps decode_len strip (read_packets decode_len strip t (got []))) (append-nil y)
          (read_packets-Steps decode_len strip t y [] f h))
        (λ s n c j.
          drain-Drains k s (drop (suc n) y) f j (omega (arith, c.1, length-drop (suc n) y)))

  step-Drains :
      (m : Outcome Progress) (x z : List ℕ) (cs : List (List ℕ))
      → IsFraming decode_len strip
      → Steps decode_len strip m x
      → ((t : Transport) (y : List ℕ)
          → length y ≤ length x
          → Holds decode_len strip t y
          → Drains (run decode_len strip t cs) (y ++ z))
      → Drains (m >>= λ p. after p (run decode_len strip p.transport cs)) (x ++ z)
  step-Drains m x z cs f (inl (t, e, h, c)) k = rw e (
      Drains-joined (quiet t) (run decode_len strip t cs) (x ++ z) (x ++ z) refl (rest (x ++ z))
        (k t x (omega arith) h))
  step-Drains m x z cs f (inr (inl (t, n, e, h, c))) k = rw e (
      Drains-joined
        (record {
          transport = t;
          packets = drop strip (take (suc n) x) ∷ [];
          no_wait = not_empty (drop (suc n) x);
          alive = true;
        })
        (run decode_len strip t cs) (x ++ z) (drop (suc n) x ++ z) refl
        (Frames-append decode_len strip f z (frame x n [] (drop (suc n) x) c (rest _)))
        (k t (drop (suc n) x) (omega (arith, length-drop (suc n) x)) h))
  step-Drains m x z cs f (inr (inr (t, e, c))) k =
      rw e (_, x ++ z, refl, rest (x ++ z), inr (Malformed-append decode_len strip x z f c))

  -- Where reads of nothing follow the chunks, more of them than there are bytes, all the frames of the
  -- stream are handed on, and what is left begins with none.
  pub run-Drains :
      (cs : List (List ℕ)) (k : ℕ) (t : Transport) (u : List ℕ)
      → IsFraming decode_len strip
      → Holds decode_len strip t u
      → length u + length (concat cs) < k
      → Drains (run decode_len strip t (cs ++ no_bytes k)) (u ++ concat cs)
  run-Drains [] k t u f h l =
      subst (Drains (run decode_len strip t (no_bytes k))) (sym (append-nil u))
        (drain-Drains k t u f h (omega (arith, l)))
  run-Drains (c ∷ cs) k t u f h l =
      subst (Drains (run decode_len strip t (c ∷ cs ++ no_bytes k))) (append_assoc u c (concat cs))
        (step-Drains (read_packets decode_len strip t (got c)) (u ++ c) (concat cs)
          (cs ++ no_bytes k) f (read_packets-Steps decode_len strip t u c f h)
          (λ s y b j.
            run-Drains cs k s y f j
              (omega (arith, l, b, length-append u c, length-append c (concat cs)))))

  -- For a length decoder that is a framing, and a transport that holds the start of a frame, two runs that
  -- are given the same bytes do not throw and hand on the same packets, however the bytes were split into
  -- reads, where each makes more empty reads after them than it has been given and held bytes.
  pub run-same_packets :
      (cs ds : List (List ℕ)) (k j : ℕ) (t : Transport) (u : List ℕ)
      → IsFraming decode_len strip
      → Holds decode_len strip t u
      → concat cs ≡ concat ds
      → length u + length (concat cs) < k
      → length u + length (concat ds) < j
      → (p : Progress) × (q : Progress) × (run decode_len strip t (cs ++ no_bytes k) ≡ ok p)
        × (run decode_len strip t (ds ++ no_bytes j) ≡ ok q)
        × (p.packets ≡ q.packets)
  run-same_packets cs ds k j t u f h e lk lj =
      let a = run-Drains cs k t u f h lk in
      let b =
        subst (λ w. Drains (run decode_len strip t (ds ++ no_bytes j)) (u ++ w)) (sym e)
          (run-Drains ds j t u f h lj) in
      (a.0, b.0, a.2, b.2, (Frames-unique a.3 b.3 a.4 b.4).0)
