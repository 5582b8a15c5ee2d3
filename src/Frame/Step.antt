-- ===== src/Frame/Step.antt =====
-- One read, seen from the byte stream.
use yasio.Base.{
  ℕ, zero, suc, ◌+◌, ◌-◌, ◌≤◌, ◌<◌, ◌≡◌, ◌⊎◌, inl, inr, refl, ap, sym, subst, ◌∙◌, List, [], ◌∷◌,
  ◌++◌, length, take, drop, length-append, arith, true, false, leb, ltb, le→leb, length-drop,
  lt→leb_false, Bool-cases, ltb→lt, leb→le, ltb_false→le, leb_false→lt, min, take_all,
  take-append_ge, drop-append_ge, drop-append_le,
}
use yasio.Base.Outcome.{Outcome, ok}
use yasio.Base.Int.{ℤ, pos, negsuc, ◌-ℤ◌, eq_of_parts}
use yasio.Frame.{
  Transport, got, Progress, unpack, begin_packet, is_minus_one, read_packets, not_empty,
}
use yasio.Frame.Stream.{IsFraming, Complete, Incomplete, Malformed, settled_pos}

module _ (decode_len : List ℕ → ℤ) (strip : ℕ) where
  -- The bytes u of the stream have been read and not handed on: no packet is begun, or u is the
  -- beginning of one, of which the transport keeps all but the bytes to strip.
  abbrev pub Idle : Transport → List ℕ → Type 0
  Idle t u = (t.expected_size ≡ negsuc 0) × (t.expected_packet ≡ []) × (t.held ≡ u)

  abbrev pub Begun : Transport → List ℕ → Type 0
  Begun t u =
      (n : ℕ) × (t.expected_size ≡ pos (suc n))
      × (t.held ≡ [])
      × (t.expected_packet ≡ drop strip u)
      × (decode_len u ≡ pos (suc n))
      × (length u < suc n)
      × (strip ≤ length u)

  abbrev pub Holds : Transport → List ℕ → Type 0
  Holds t u = Idle t u ⊎ Begun t u

  -- The three ways in which a read ends, where the stream is now x.
  abbrev pub Waits : Outcome Progress → List ℕ → Type 0
  Waits r x =
      (t : Transport) × (r
        ≡ ok (record { transport = t; packets = []; no_wait = false; alive = true }))
      × Holds t x
      × Incomplete decode_len strip x

  abbrev pub Emits : Outcome Progress → List ℕ → Type 0
  Emits r x =
      (t : Transport) × (n : ℕ) × (r
        ≡ ok (record {
          transport = t;
          packets = drop strip (take (suc n) x) ∷ [];
          no_wait = not_empty (drop (suc n) x);
          alive = true;
        }))
      × Holds t (drop (suc n) x)
      × Complete decode_len strip x n

  abbrev pub Rejects : Outcome Progress → List ℕ → Type 0
  Rejects r x =
      (t : Transport) × (r
        ≡ ok (record { transport = t; packets = []; no_wait = false; alive = false }))
      × Malformed decode_len strip x

  abbrev pub Steps : Outcome Progress → List ℕ → Type 0
  Steps r x = Waits r x ⊎ (Emits r x ⊎ Rejects r x)

  -- A packet is cut from what is available, or all of it is taken.
  unpack-whole :
      (t : Transport) (want : ℕ) (v : List ℕ) (s : ℕ)
      → s ≤ want
      → want ≤ length (t.held ++ v)
      → unpack t (pos want) v s
        ≡ ok (record {
          transport = record t {
            held = drop want (t.held ++ v);
            expected_size = negsuc 0;
            expected_packet = [];
          };
          packets = (t.expected_packet ++ drop s (take want (t.held ++ v))) ∷ [];
          no_wait = not_empty (drop want (t.held ++ v));
          alive = true;
        })
  unfolding unpack
  unpack-whole t want v s h k = simp (
    le→leb s (min want (length (t.held ++ v))) (omega arith),
    le→leb want (length (t.held ++ v)) k,
  )

  unpack-part :
      (t : Transport) (want : ℕ) (v : List ℕ) (s : ℕ)
      → s ≤ length (t.held ++ v)
      → length (t.held ++ v) < want
      → unpack t (pos want) v s
        ≡ ok (record {
          transport = record t {
            held = [];
            expected_packet = t.expected_packet ++ drop s (take want (t.held ++ v));
          };
          packets = [];
          no_wait = false;
          alive = true;
        })
  unfolding unpack
  unpack-part t want v s h k = simp (
    le→leb s (min want (length (t.held ++ v))) (omega arith),
    lt→leb_false (length (t.held ++ v)) want k,
  )

  unpack-Emits :
      (t : Transport) (x : List ℕ) (n want : ℕ) (v : List ℕ) (s : ℕ)
      → s ≤ want
      → want ≤ length (t.held ++ v)
      → t.expected_packet ++ drop s (take want (t.held ++ v)) ≡ drop strip (take (suc n) x)
      → drop want (t.held ++ v) ≡ drop (suc n) x
      → Complete decode_len strip x n
      → Emits (unpack t (pos want) v s) x
  unpack-Emits t x n want v s h k p q c = (
    record t { held = drop want (t.held ++ v); expected_size = negsuc 0; expected_packet = [] },
    n,
    unpack-whole t want v s h k ∙ (λ i. ok (record {
      transport = record t {
        held = drop want (t.held ++ v);
        expected_size = negsuc 0;
        expected_packet = [];
      };
      packets = p i ∷ [];
      no_wait = not_empty (q i);
      alive = true;
    })),
    inl (refl, refl, q),
    c,
  )

  unpack-Waits :
      (t : Transport) (x : List ℕ) (n want : ℕ) (v : List ℕ) (s : ℕ)
      → s ≤ length (t.held ++ v)
      → length (t.held ++ v) < want
      → t.expected_packet ++ drop s (take want (t.held ++ v)) ≡ drop strip x
      → t.expected_size ≡ pos (suc n)
      → decode_len x ≡ pos (suc n)
      → length x < suc n
      → strip ≤ length x
      → Waits (unpack t (pos want) v s) x
  unpack-Waits t x n want v s h k p a e l m = (
    record t { held = []; expected_packet = t.expected_packet ++ drop s (take want (t.held ++ v)) },
    unpack-part t want v s h k,
    inr (n, a, refl, p, e, l, m),
    inr (n, e, l),
  )

  begin_unpack-Steps :
      (t : Transport) (v : List ℕ) (n : ℕ)
      → IsFraming decode_len strip
      → t.expected_packet ≡ []
      → decode_len (t.held ++ v) ≡ pos (suc n)
      → strip ≤ suc n
      → Steps
          (unpack (record t { expected_size = pos (suc n) }) (pos (suc n)) v strip)
          (t.held ++ v)
  begin_unpack-Steps t v n f b e s = elim (Bool-cases (leb (suc n) (length (t.held ++ v)))) [
    | inl q ↦ inr (
        inl (
          unpack-Emits (record t { expected_size = pos (suc n) }) (t.held ++ v) n (suc n) v strip s
            (leb→le _ _ q) (ap (λ w. w ++ drop strip (take (suc n) (t.held ++ v))) b) refl
            (e, s, leb→le _ _ q)))
    | inr q ↦ inl (
        unpack-Waits (record t { expected_size = pos (suc n) }) (t.held ++ v) n (suc n) v strip
          (f.head_is_there _ n e) (leb_false→lt _ _ q)
          (λ i.
            b i
            ++ drop strip (take_all (suc n) (t.held ++ v) (omega (arith, leb_false→lt _ _ q)) i))
          refl e (leb_false→lt _ _ q) (f.head_is_there _ n e))
  ]

  begin_packet-Steps :
      (t : Transport) (v : List ℕ) (z : ℤ)
      → IsFraming decode_len strip
      → t.expected_size ≡ negsuc 0
      → t.expected_packet ≡ []
      → decode_len (t.held ++ v) ≡ z
      → Steps (begin_packet t z v strip) (t.held ++ v)
  unfolding begin_packet
  begin_packet-Steps t v (pos zero) f a b e =
      inl (record t { held = t.held ++ v }, refl, inl (a, b, refl), inl e)
  begin_packet-Steps t v (negsuc n) f a b e = inr (inr (_, refl, inl (n, e)))
  begin_packet-Steps t v (pos (suc n)) f a b e = elim (Bool-cases (ltb (suc n) strip)) [
    | inl q ↦ rw q (inr (inr (_, refl, inr (n, e, ltb→lt _ _ q))))
    | inr q ↦ rw q (begin_unpack-Steps t v n f b e (ltb_false→le _ _ q))
  ]

  -- What is taken now goes behind what was taken before.
  resume_packet :
      (u v : List ℕ) (k : ℕ) (held packet : List ℕ)
      → held ≡ []
      → packet ≡ drop strip u
      → strip ≤ length u
      → packet ++ drop 0 (take k (held ++ v)) ≡ drop strip (u ++ take k v)
  resume_packet u v k held packet b c s =
      (λ i. c i ++ take k (b i ++ v)) ∙ sym (drop-append_le strip u (take k v) s)

  minus_pos : (a b k : ℕ) → k ≡ b → b < a → pos a -ℤ pos k ≡ pos (a - b)
  unfolding ◌-ℤ◌
  minus_pos a b k e h = eq_of_parts (pos a -ℤ pos k) (pos (a - b)) (ground arith)

  resume_want :
      (u : List ℕ) (n : ℕ) (z : ℤ) (packet : List ℕ)
      → z ≡ pos (suc n)
      → packet ≡ drop strip u
      → length u < suc n
      → strip ≤ length u
      → z -ℤ pos (length packet + strip) ≡ pos (suc n - length u)
  resume_want u n z packet a c l s =
      (λ i. a i -ℤ pos (length (c i) + strip))
      ∙ minus_pos (suc n) (length u) (length (drop strip u) + strip)
          (omega (arith, length-drop strip u)) l

  -- The packet begun takes what has come.
  resume-Steps :
      (t : Transport) (u v : List ℕ) (n : ℕ)
      → IsFraming decode_len strip
      → t.expected_size ≡ pos (suc n)
      → t.held ≡ []
      → t.expected_packet ≡ drop strip u
      → decode_len u ≡ pos (suc n)
      → length u < suc n
      → strip ≤ length u
      → Steps (unpack t (pos (suc n - length u)) v 0) (u ++ v)
  resume-Steps t u v n f a b c e l s = elim (Bool-cases (leb (suc n) (length u + length v))) [
    | inl q ↦ inr (
        inl (
          unpack-Emits t (u ++ v) n (suc n - length u) v 0 (omega arith)
            (omega (arith, available, leb→le _ _ q))
            (resume_packet u v (suc n - length u) t.held t.expected_packet b c s
              ∙ ap (drop strip) (sym (take-append_ge (suc n) u v (omega arith))))
            (ap (λ w. drop (suc n - length u) (w ++ v)) b
              ∙ sym (drop-append_ge (suc n) u v (omega arith)))
            (
              settled_pos decode_len strip f u v n e,
              omega arith,
              omega (arith, length-append u v, leb→le _ _ q),
            )))
    | inr q ↦ inl (
        unpack-Waits t (u ++ v) n (suc n - length u) v 0 (omega arith)
          (omega (arith, available, leb_false→lt _ _ q))
          (resume_packet u v (suc n - length u) t.held t.expected_packet b c s
            ∙ ap (λ w. drop strip (u ++ w))
                (take_all (suc n - length u) v (omega (arith, leb_false→lt _ _ q))))
          a (settled_pos decode_len strip f u v n e)
          (omega (arith, length-append u v, leb_false→lt _ _ q)) (omega (arith, length-append u v)))
  ]
    where
      available : length (t.held ++ v) ≡ length v
      available = ap (λ w. length (w ++ v)) b

  -- A read takes the bytes of the stream.
  pub read_packets-Steps :
      (t : Transport) (u v : List ℕ)
      → IsFraming decode_len strip
      → Holds t u
      → Steps (read_packets decode_len strip t (got v)) (u ++ v)
  unfolding read_packets is_minus_one
  read_packets-Steps t u v f (inl (a, b, c)) = simp (ap is_minus_one a) (
      subst (λ w. Steps (begin_packet t (decode_len (t.held ++ v)) v strip) (w ++ v)) c
        (begin_packet-Steps t v (decode_len (t.held ++ v)) f a b refl))
  read_packets-Steps t u v f (inr (n, a, b, c, e, l, s)) = simp (ap is_minus_one a) (
      subst (λ z. Steps (unpack t z v 0) (u ++ v))
        (sym (resume_want u n t.expected_size t.expected_packet a c l s))
        (resume-Steps t u v n f a b c e l s))
