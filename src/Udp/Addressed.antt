-- ===== src/Udp/Addressed.antt =====
-- Where the datagrams of an io_transport_udp of yasio/io_service.cpp go.
use yasio.Base.{
  ℕ, ◌≡◌, refl, sym, ◌∙◌, ◌⊎◌, inl, inr, List, [], ◌∷◌, ◌++◌, length, min, All, All-append, Bool,
  true, false, ◌||◌, if_both, if_cases, true-ne_false, ◌≢◌, Option, some, none, if◌then◌else◌,
}
use yasio.Channel.{is_empty}
use yasio.Udp.{
  no_destination, to, SendOp, Udp, to_peer, null_destination, udp_mss, first_of, ensured,
  ensure_destination, connect_to, connect, disconnect, emplaced, write_to, write, sent_to, perform,
  read,
}

-- What the user, the peers and the loop do, but for disconnect. `sends` is a turn in which the first op is
-- sent whole.
pub data Step (Endpoint : Type 0) : Type 0 where
  connects : List Endpoint → Bool → Step Endpoint
  writes : List ℕ → Step Endpoint
  writes_to : List ℕ → Option Endpoint → Step Endpoint
  reads : Endpoint → List ℕ → Step Endpoint
  sends : Step Endpoint

module _ {Endpoint : Type 0} where
  abbrev pub behind : List (SendOp Endpoint) → List (SendOp Endpoint)
  behind [] = []
  behind (op ∷ ops) = ops

  abbrev pub step : Udp Endpoint → Step Endpoint → Udp Endpoint
  step t (connects eps accepted) = connect t eps accepted
  step t (writes buffer) = (write t buffer).1
  step t (writes_to buffer d) = (write_to t buffer d).1
  step t (reads sender bytes) = read t sender bytes
  step t sends = record t { send_queue = behind t.send_queue }

  abbrev pub run : Udp Endpoint → List (Step Endpoint) → Udp Endpoint
  run t [] = t
  run t (x ∷ xs) = run (step t x) xs

  -- The op can be sent over a socket that is not connected.
  abbrev pub IsAddressed : SendOp Endpoint → Type 0
  IsAddressed op = (d : Option Endpoint) × (op.destination ≡ to d)

  -- The transport can send all that waits.
  abbrev pub IsReady : Udp Endpoint → Type 0
  IsReady t = (t.connected ≡ true) ⊎ All IsAddressed t.send_queue

  emplaced-IsReady :
      (t : Udp Endpoint) (buffer : List ℕ) (d : Option Endpoint)
      → IsReady t
      → IsReady (emplaced t buffer (to d))
  emplaced-IsReady t buffer d (inl c) = inl c
  emplaced-IsReady t buffer d (inr a) = inr (
      All-append IsAddressed t.send_queue (record { buffer = buffer; destination = to d } ∷ []) a
        ((d, refl), tt))

  ensured-IsReady : (d : Option Endpoint) (t : Udp Endpoint) → IsReady t → IsReady (ensured d t).1
  ensured-IsReady none t h = h
  ensured-IsReady (some d) t h = h

  connect_to-IsReady :
      (p : Option Endpoint) (t : Udp Endpoint) (b : Bool)
      → t.connected ≡ false
      → IsReady t
      → IsReady (connect_to p t b)
  connect_to-IsReady none t b e h = h
  connect_to-IsReady (some p) t b e (inl c) = absurd (true-ne_false (sym c ∙ e))
  connect_to-IsReady (some p) t true e (inr a) = inl refl
  connect_to-IsReady (some p) t false e (inr a) = inr a

  behind-IsAddressed :
      (ops : List (SendOp Endpoint)) → All IsAddressed ops → All IsAddressed (behind ops)
  behind-IsAddressed [] a = a
  behind-IsAddressed (op ∷ ops) (a, as') = as'

  step-IsReady : (t : Udp Endpoint) (x : Step Endpoint) → IsReady t → IsReady (step t x)
  unfolding connect write write_to ensure_destination read
  step-IsReady t (connects eps b) h =
      if_cases IsReady t.connected _ _ (λ e. h)
        (λ e. connect_to-IsReady (first_of t.peer eps) t b e h)
  step-IsReady t (writes buffer) h =
      if_cases (λ (r : ℕ × Udp Endpoint). IsReady r.1) t.connected _ _ (λ e. inl e)
        (λ e.
          emplaced-IsReady (ensured t.destination t).1 buffer (ensured t.destination t).0
            (ensured-IsReady t.destination t h))
  step-IsReady t (writes_to buffer d) h = emplaced-IsReady t buffer d h
  step-IsReady t (reads sender bytes) h = if_both IsReady (t.connected || is_empty bytes) _ _ h h
  step-IsReady t sends (inl c) = inl c
  step-IsReady t sends (inr a) = inr (behind-IsAddressed t.send_queue a)

  run-IsReady : (xs : List (Step Endpoint)) (t : Udp Endpoint) → IsReady t → IsReady (run t xs)
  run-IsReady [] t h = h
  run-IsReady (x ∷ xs) t h = run-IsReady xs (step t x) (step-IsReady t x h)

  -- Sending the op reads no null destination.
  abbrev pub IsSafe : Udp Endpoint → SendOp Endpoint → Type 0
  IsSafe t op = perform t op ≢ null_destination

  sent-IsSafe :
      (c : Bool) (op : SendOp Endpoint) (n : ℕ)
      → (c ≡ true) ⊎ IsAddressed op
      → (if c then to_peer n else sent_to op.destination n) ≢ null_destination
  sent-IsSafe true op n h e = absurd cc
  sent-IsSafe false op n (inl c) e = absurd (true-ne_false (sym c))
  sent-IsSafe false op n (inr (d, q)) e = absurd cc

  All-IsSafe :
      (t : Udp Endpoint) (ops : List (SendOp Endpoint))
      → (t.connected ≡ true) ⊎ All IsAddressed ops
      → All (IsSafe t) ops
  unfolding perform
  All-IsSafe t [] h = tt
  All-IsSafe t (op ∷ ops) (inl c) = (
    sent-IsSafe t.connected op (min (length op.buffer) udp_mss) (inl c),
    All-IsSafe t ops (inl c),
  )
  All-IsSafe t (op ∷ ops) (inr (a, b)) = (
    sent-IsSafe t.connected op (min (length op.buffer) udp_mss) (inr a),
    All-IsSafe t ops (inr b),
  )

  -- A UDP transport that can send all that waits can so after any calls but disconnect: whether it is
  -- connected or not, no op of its queue is sent to a null destination.
  pub run-IsSafeQueue :
      (xs : List (Step Endpoint)) (t : Udp Endpoint)
      → IsReady t
      → All (IsSafe (run t xs)) (run t xs).send_queue
  run-IsSafeQueue xs t h = All-IsSafe (run t xs) (run t xs).send_queue (run-IsReady xs t h)

  -- After disconnect that is not so: what was written while the transport was connected has no
  -- destination, and is sent to a null one.
  pub disconnect-strands :
      (t : Udp Endpoint) (buffer : List ℕ)
      → t.connected ≡ true
      → let r = disconnect (write t buffer).1 in
        (op : SendOp Endpoint) × (r.send_queue ≡ t.send_queue ++ op ∷ [])
        × (perform r op ≡ null_destination)
  unfolding disconnect write perform
  disconnect-strands t buffer c =
      (record { buffer = buffer; destination = no_destination }, rw c refl, refl)

  ensured-destination :
      (d : Option Endpoint) (t : Udp Endpoint) (e : Endpoint)
      → d ≡ some e
      → t.destination ≡ some e
      → (ensured d t).1.destination ≡ some e
  ensured-destination none t e h k = absurd cc
  ensured-destination (some d) t e h k = k

  connect_to-destination :
      (p : Option Endpoint) (t : Udp Endpoint) (b : Bool)
      → (connect_to p t b).destination ≡ t.destination
  connect_to-destination none t b = refl
  connect_to-destination (some p) t b = refl

  step-destination :
      (t : Udp Endpoint) (x : Step Endpoint) (d : Endpoint)
      → t.destination ≡ some d
      → (step t x).destination ≡ some d
  unfolding connect write write_to ensure_destination read
  step-destination t (connects eps b) d h =
      if_both (λ (r : Udp Endpoint). r.destination ≡ some d) t.connected _ _ h
        (connect_to-destination (first_of t.peer eps) t b ∙ h)
  step-destination t (writes buffer) d h =
      if_both (λ (r : ℕ × Udp Endpoint). r.1.destination ≡ some d) t.connected _ _ h
        (ensured-destination t.destination t d h h)
  step-destination t (writes_to buffer e) d h = h
  step-destination t (reads sender bytes) d h =
      if_both (λ (r : Udp Endpoint). r.destination ≡ some d) (t.connected || is_empty bytes) _ _ h h
  step-destination t sends d h = h

  -- The destination that a write has settled stays, whoever sends datagrams.
  pub run-destination :
      (xs : List (Step Endpoint)) (t : Udp Endpoint) (d : Endpoint)
      → t.destination ≡ some d
      → (run t xs).destination ≡ some d
  run-destination [] t d h = h
  run-destination (x ∷ xs) t d h = run-destination xs (step t x) d (step-destination t x d h)
