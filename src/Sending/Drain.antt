-- ===== src/Sending/Drain.antt =====
-- A connection whose kernel keeps taking bytes, and the errors of do_write.
use yasio.Base.{
  ℕ, zero, suc, ◌≤◌, ◌≡◌, ◌⊎◌, inl, inr, refl, ap, sym, ◌∙◌, List, [], ◌∷◌, ◌++◌, length,
  length-take, length-drop, length-append, All, Bool, true, false, not, ◌≢◌, ◌==◌, arith,
}
use yasio.Frame.{write_stage}
use yasio.Sending.{
  SendOp, Performed, accepted, refused, Sender, completion, not_send_error, call_write, poll_out,
  write_queue, do_write, Written,
}
use yasio.Sending.Stream.{IsPending, Takes, Trace, left_of, unsent, sent, all_owed, do_write-keeps}

module _ (taken : ℕ → ℕ → ℕ)
    (takes : (k n : ℕ) → (1 ≤ taken k (suc n)) × (taken k (suc n) ≤ suc n)) where
  abbrev answer : ℕ → List SendOp → Performed
  answer k [] = accepted 0
  answer k (op ∷ ops) = accepted (taken k (length (left_of op)))

  -- So many turns of the loop, in each of which the kernel takes at least one byte and
  -- at most all; with `k` more turns to come it takes `taken k n` of n bytes.
  abbrev pub pump : ℕ → Sender → Trace
  pump zero s = record { wire = []; called = []; sender = s }
  pump (suc k) s =
      let r = do_write true false s (answer k s.send_queue) in
      let later = pump k r.sender in
      record {
        wire = sent s.send_queue (answer k s.send_queue) ++ later.wire;
        called = r.completions ++ later.called;
        sender = later.sender;
      }

  taken_bounds : (k n : ℕ) → 1 ≤ n → (1 ≤ taken k n) × (taken k n ≤ n)
  taken_bounds k zero h = elim h [ ]
  taken_bounds k (suc n) h = takes k n

  answer-Takes : (k : ℕ) (ops : List SendOp) → All IsPending ops → Takes ops (answer k ops)
  answer-Takes k [] a = tt
  answer-Takes k (op ∷ ops) (h, a) =
      (taken_bounds k (length (left_of op)) (omega (arith, length-drop op.offset op.buffer))).1

  -- Where bytes wait, some are sent.
  some_sent :
      (k : ℕ) (ops : List SendOp)
      → All IsPending ops
      → (length (unsent ops) ≡ 0) ⊎ (1 ≤ length (sent ops (answer k ops)))
  some_sent k [] a = inl refl
  some_sent k (op ∷ ops) (h, a) =
      let (low, high) =
        taken_bounds k (length (left_of op)) (omega (arith, length-drop op.offset op.buffer)) in
      inr (omega (arith, length-take (taken k (length (left_of op))) (left_of op)))

  none_left : (ops : List SendOp) → All IsPending ops → length (unsent ops) ≤ 0 → ops ≡ []
  none_left [] a h = refl
  none_left (op ∷ ops) (l, a) h =
      absurd
        (omega (arith, length-append (left_of op) (unsent ops), length-drop op.offset op.buffer))

  -- Where the kernel takes at least one byte each time, and no more than it is given, as many turns as
  -- bytes wait, or more, send all of them, in order, call all the handlers that are owed, and leave the
  -- queue empty. Every op that waits has bytes left.
  pub pump-sends :
      (k : ℕ) (s : Sender)
      → All IsPending s.send_queue
      → length (unsent s.send_queue) ≤ k
      → ((pump k s).wire ≡ unsent s.send_queue)
        × ((pump k s).called ≡ all_owed s.send_queue)
        × ((pump k s).sender.send_queue ≡ [])
  pump-sends zero s a h =
      let e = none_left s.send_queue a h in (sym (ap unsent e), sym (ap all_owed e), e)
  pump-sends (suc k) s a h =
      let (bytes, handlers, b) =
        do_write-keeps true s (answer k s.send_queue) a (answer-Takes k s.send_queue a) in
      let (w, c, e) =
        pump-sends k (do_write true false s (answer k s.send_queue)).sender b
          (shorter bytes (some_sent k s.send_queue a)) in
      (
        ap (λ x. sent s.send_queue (answer k s.send_queue) ++ x) w ∙ bytes,
        ap (λ x. (do_write true false s (answer k s.send_queue)).completions ++ x) c ∙ handlers,
        e,
      )
    where
      shorter :
          sent s.send_queue (answer k s.send_queue)
              ++ unsent (do_write true false s (answer k s.send_queue)).sender.send_queue
            ≡ unsent s.send_queue
          → (length (unsent s.send_queue) ≡ 0)
            ⊎ (1 ≤ length (sent s.send_queue (answer k s.send_queue)))
          → length (unsent (do_write true false s (answer k s.send_queue)).sender.send_queue) ≤ k
      shorter e (inl z) = omega (
        arith,
        ap length e,
        length-append (sent s.send_queue (answer k s.send_queue))
            (unsent (do_write true false s (answer k s.send_queue)).sender.send_queue),
      )
      shorter e (inr z) = omega (
        arith,
        ap length e,
        length-append (sent s.send_queue (answer k s.send_queue))
            (unsent (do_write true false s (answer k s.send_queue)).sender.send_queue),
      )

-- EAGAIN, EINTR and ENOBUFS of Linux.
abbrev pub IsTransient : ℕ → Type 0
IsTransient e = (e ≡ 11) ⊎ ((e ≡ 4) ⊎ (e ≡ 105))

abbrev pub IsFatal : ℕ → Type 0
IsFatal e = (e ≢ 11) × (e ≢ 4) × (e ≢ 105)

pub not_send_error-IsTransient : (e : ℕ) → IsTransient e → not_send_error e ≡ true
unfolding not_send_error
not_send_error-IsTransient e (inl h) = ground (arith, h)
not_send_error-IsTransient e (inr (inl h)) = ground (arith, h)
not_send_error-IsTransient e (inr (inr h)) = ground (arith, h)

kind_of :
    (e : ℕ) → (IsTransient e × (not_send_error e ≡ true)) ⊎ (IsFatal e × (not_send_error e ≡ false))
unfolding not_send_error
kind_of e = ground arith

-- The queue waits. It is tried again at once after an interruption, and when the socket is writable
-- otherwise.
abbrev pub Waits : Sender → List SendOp → ℕ → Written → Type 0
Waits s ops e r =
    (r.alive ≡ true)
    × (r.sender.send_queue ≡ ops)
    × (r.completions ≡ [])
    × (r.sender.error ≡ s.error)
    × (r.sender.pollout_registered ≡ not (e == 4))
    × (r.no_wait ≡ (e == 4))

-- The head of the queue fails: UDP goes on without it, TCP is to be closed.
abbrev pub Fails : Bool → Sender → SendOp → List SendOp → ℕ → Written → Type 0
Fails true s op ops e r =
    (r.alive ≡ true)
    × (r.sender.send_queue ≡ ops)
    × (r.completions ≡ completion op.handler e op.offset)
    × (r.sender.error ≡ s.error)
    × (r.sender.pollout_registered ≡ false)
Fails false s op ops e r =
    (r.alive ≡ false)
    × (r.sender.send_queue ≡ op ∷ ops)
    × (r.completions ≡ [])
    × (r.sender.error ≡ e)
    × (r.sender.error_stage ≡ write_stage)

-- An error of the kernel at the head of the queue of an open socket: after EAGAIN, EINTR and ENOBUFS the
-- queue waits, tried again at once after EINTR and else when the socket is writable; after any other
-- error a UDP transport drops the head, whose handler is called with the error and the bytes sent
-- before, and a TCP connection is to be closed, with the error and the stage of writing on record and the
-- queue as it was.
pub do_write-refused :
    (udp : Bool) (s : Sender) (op : SendOp) (ops : List SendOp) (e : ℕ)
    → let r = do_write true udp (record s { send_queue = op ∷ ops }) (refused e) in
      (IsTransient e × Waits s (op ∷ ops) e r) ⊎ (IsFatal e × Fails udp s op ops e r)
unfolding do_write write_queue call_write poll_out
do_write-refused udp s op ops e = refused_as udp (kind_of e)
  where
    refused_as :
        (b : Bool)
        → (IsTransient e × (not_send_error e ≡ true)) ⊎ (IsFatal e × (not_send_error e ≡ false))
        → let r = do_write true b (record s { send_queue = op ∷ ops }) (refused e) in
          (IsTransient e × Waits s (op ∷ ops) e r) ⊎ (IsFatal e × Fails b s op ops e r)
    refused_as b (inl (t, q)) =
        inl (t, rw q (refl, refl, refl, refl, ground (arith, t), ground (arith, t)))
    refused_as true (inr (f, q)) = inr (f, rw q (refl, refl, refl, refl, ground (arith, f)))
    refused_as false (inr (f, q)) = inr (f, rw q (refl, refl, refl, refl, refl))
