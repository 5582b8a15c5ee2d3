-- ===== src/Channel/Step/Life.antt =====
-- A client channel over its life: the calls of its user, the resolver, and the turns of the loop.
use yasio.Base.{
  ℕ, ◌≡◌, refl, ap, sym, subst, List, [], ◌∷◌, ◌++◌, Bool, true, false, if_both, true-ne_false,
  ◌==◌, ◌||◌, Option, some, none, ◌⊎◌, ◌∙◌,
}
use yasio.Channel.{
  Dial, do_connect, dialled, handle_connect_succeed, cleanup_io, on_open, State, closed, resolving,
  connecting, opened, Event, Connection, Channel, query_done, resolve_host_failed, open_at,
  requested, closing, open_internal, close_channel, close_connection, set_port,
}
use yasio.Base.Int.{pos}
use yasio.Channel.Step.{
  Answers, process_transport, perform, process_timer, process_channel, begun, step_at, resolve_step,
  do_resolve, prepared, resolved,
}
use yasio.Channel.Step.Sound.{SoundAt, IsSound, connected_by, connected, follows, IsDial}
use yasio.Channel.Step.Turn.{
  Tells, Tells-then, perform-Tells, process_transport-Tells, process_timer-Tells,
}

-- What can happen to a channel: the calls of its user, the answer of the resolver to a query that is
-- under way, and the parts of the turns of the loop, between which calls of the user may come.
pub data Action (Endpoint : Type 0) : Type 0 where
  opens closes_channel closes_connection : Action Endpoint
  sets_port : ℕ → Action Endpoint
  answered : Option (List Endpoint) → Action Endpoint
  serves : Bool → Answers → Action Endpoint
  performs : Answers → Action Endpoint
  times : Bool → Action Endpoint

-- The resolver answers a channel that waits for it.
pub answer_at :
    {Endpoint : Type 0} → State → Channel Endpoint → Option (List Endpoint) → Channel Endpoint
answer_at resolving c a = query_done c a
answer_at closed c a = c
answer_at connecting c a = c
answer_at opened c a = c

closing-connected : (o : Option Connection) → connected_by o ≡ connected_by (closing o)
unfolding closing
closing-connected none = refl
closing-connected (some t) = refl

-- The calls of a user keep a channel sound, and no event comes of them.
module _ {Endpoint : Type 0} where
  opens-Tells :
      (s : State) (c : Channel Endpoint)
      → c.state ≡ s
      → SoundAt s c
      → IsSound c
      → Tells c ((open_at s c).1, [])
  unfolding open_at requested
  opens-Tells closed c k (n, z, w) h =
      (subst (λ s. SoundAt s (requested c)) (sym k) (n, z, λ q. refl), refl)
  opens-Tells resolving c k g h = (h, refl)
  opens-Tells connecting c k g h = (h, refl)
  opens-Tells opened c k (t, n, z, w) h =
      (subst (λ s. SoundAt s (requested c)) (sym k) (t, n, z, λ q. refl), refl)

  unasked :
      (s : State) (c : Channel Endpoint) (m : Bool)
      → SoundAt s c
      → SoundAt s (record c { open_mask = false; close_mask = m })
  unasked closed c m (n, z, w) = (n, z, λ q. elim (true-ne_false (sym q)) [ ])
  unasked resolving c m (n, i, w) = (n, i, refl)
  unasked connecting c m (n, i, w, e) = (n, i, refl, e)
  unasked opened c m (t, n, z, w) = (t, n, z, λ q. elim (true-ne_false (sym q)) [ ])

  close_channel-Tells : (c : Channel Endpoint) → IsSound c → Tells c (close_channel c, [])
  unfolding close_channel
  close_channel-Tells c h =
      if_both (λ d. Tells c (d, [])) c.close_mask c _ (h, refl)
        (unasked c.state c c.socket_open h, refl)

  closing-Sound :
      (s : State) (c : Channel Endpoint)
      → SoundAt s c
      → SoundAt s (record c { connection = closing c.connection })
  unfolding closing
  closing-Sound closed c (n, z, w) = (ap closing n, z, w)
  closing-Sound resolving c (n, i, w) = (ap closing n, i, w)
  closing-Sound connecting c (n, i, w, e) = (ap closing n, i, w, e)
  closing-Sound opened c (t, n, z, w) = (record t { close_mask = true }, ap closing n, z, w)

  close_connection-Tells : (c : Channel Endpoint) → IsSound c → Tells c (close_connection c, [])
  unfolding close_connection
  close_connection-Tells c h = (closing-Sound c.state c h, ap some (closing-connected c.connection))

  ported :
      (s : State) (c : Channel Endpoint) (port : ℕ)
      → SoundAt s c
      → SoundAt s (record c { remote_port = port; port_dirty = true })
  ported closed c port h = h
  ported resolving c port h = h
  ported connecting c port h = h
  ported opened c port h = h

  set_port-Tells : (c : Channel Endpoint) (port : ℕ) → IsSound c → Tells c (set_port c port, [])
  unfolding set_port
  set_port-Tells c port h =
      if_both (λ d. Tells c (d, [])) (port == 0 || c.remote_port == port) c _ (h, refl)
        (ported c.state c port h, refl)

  answer_at-Tells :
      (s : State) (c : Channel Endpoint) (a : Option (List Endpoint))
      → c.state ≡ s
      → SoundAt s c
      → IsSound c
      → Tells c (answer_at s c a, [])
  unfolding answer_at query_done
  answer_at-Tells closed c a k g h = (h, refl)
  answer_at-Tells connecting c a k g h = (h, refl)
  answer_at-Tells opened c a k g h = (h, refl)
  answer_at-Tells resolving c none k g h =
      (subst (λ s. SoundAt s (record c { error = resolve_host_failed })) (sym k) g, refl)
  answer_at-Tells resolving c (some eps) k g h =
      (subst (λ s. SoundAt s (record c { remote_eps = eps })) (sym k) g, refl)

-- A socket that is opened, bound and connected at once.
abbrev pub no_dial_errors : Dial
no_dial_errors = record { popen_error = none; bind_error = none; connect_error = none }

module _ {Endpoint : Type 0} (as_in : List ℕ → ℕ → Option Endpoint)
    (with_port : Endpoint → ℕ → Endpoint) where
  abbrev pub act : Channel Endpoint → Action Endpoint → Channel Endpoint × List Event
  act c opens = ((open_internal c).1, [])
  act c closes_channel = (close_channel c, [])
  act c closes_connection = (close_connection c, [])
  act c (sets_port port) = (set_port c port, [])
  act c (answered a) = (answer_at c.state c a, [])
  act c (serves stopping e) = process_transport c stopping e
  act c (performs e) = perform as_in with_port c e
  act c (times due) = process_timer c due

  abbrev pub run : Channel Endpoint → List (Action Endpoint) → Channel Endpoint × List Event
  run c [] = (c, [])
  run c (a ∷ rest) = let p = act c a in let q = run p.0 rest in (q.0, p.1 ++ q.1)

  -- The errors of the system are not 0, and process_channels does not meet a channel with a transport that
  -- was asked to open after process_transports had come to it.
  abbrev pub IsOrderly : Channel Endpoint → Action Endpoint → Type 0
  IsOrderly c (performs e) = IsDial e.dial × ((c.connection ≡ none) ⊎ (c.open_mask ≡ false))
  IsOrderly c (serves stopping e) = Unit
  IsOrderly c (times due) = Unit
  IsOrderly c opens = Unit
  IsOrderly c closes_channel = Unit
  IsOrderly c closes_connection = Unit
  IsOrderly c (sets_port port) = Unit
  IsOrderly c (answered a) = Unit

  abbrev pub AreOrderly : Channel Endpoint → List (Action Endpoint) → Type 0
  AreOrderly c [] = Unit
  AreOrderly c (a ∷ rest) = IsOrderly c a × AreOrderly (act c a).0 rest

  act-Tells :
      (c : Channel Endpoint) (a : Action Endpoint) → IsSound c → IsOrderly c a → Tells c (act c a)
  unfolding open_internal
  act-Tells c opens h e = opens-Tells c.state c refl h h
  act-Tells c closes_channel h e = close_channel-Tells c h
  act-Tells c closes_connection h e = close_connection-Tells c h
  act-Tells c (sets_port port) h e = set_port-Tells c port h
  act-Tells c (answered a) h e = answer_at-Tells c.state c a refl h h
  act-Tells c (serves stopping x) h e = process_transport-Tells c stopping x h
  act-Tells c (performs x) h (d, o) = perform-Tells as_in with_port c x h o d
  act-Tells c (times due) h e = process_timer-Tells c due h

  -- Whatever its user, the resolver and the sockets do, so long as the errors that the system reports
  -- are not 0, and process_channels does not meet a channel with a transport that was asked to open
  -- after process_transports had come to it: a sound channel stays sound, and the events tell its user
  -- whether it is connected: every on_open comes while it is not, every on_close while it is.
  pub run-Tells :
      (steps : List (Action Endpoint)) (c : Channel Endpoint)
      → IsSound c
      → AreOrderly c steps
      → Tells c (run c steps)
  run-Tells [] c h e = (h, refl)
  run-Tells (a ∷ rest) c h (e, es) =
      let t = act-Tells c a h e in
      Tells-then c (act c a) (run (act c a).0 rest) t (run-Tells rest (act c a).0 t.0 es)

  ready_to_connect : Channel Endpoint → Connection → Endpoint → List Endpoint → Channel Endpoint
  ready_to_connect c t ep eps = record c {
    state = opened;
    host_dirty = false;
    port_dirty = false;
    needs_query = false;
    remote_eps = ep ∷ eps;
    connection = some t;
  }

  opened_again :
      (c : Channel Endpoint) (t : Connection) (ep : Endpoint) (eps : List Endpoint) (e : Answers)
      → let r =
          run
            (ready_to_connect c t ep eps)
            (opens ∷ performs (record e { dial = no_dial_errors }) ∷ []) in
        r.1 ≡ on_open (pos 0) ∷ []
  unfolding ready_to_connect open_internal open_at requested perform process_channel begun step_at
      resolve_step do_resolve prepared resolved do_connect dialled handle_connect_succeed cleanup_io
  opened_again c t ep eps e = refl

  -- A channel that is open, and is asked to open again between process_transports and process_channels,
  -- where an address is at hand and connecting succeeds at once: its user is told that it is open a second
  -- time, and not that the first connection is closed.
  pub open-between :
      (c : Channel Endpoint) (t : Connection) (ep : Endpoint) (eps : List Endpoint) (e : Answers)
      → c.state ≡ opened
      → c.connection ≡ some t
      → c.host_dirty ≡ false
      → c.port_dirty ≡ false
      → c.needs_query ≡ false
      → c.remote_eps ≡ ep ∷ eps
      → let r = run c (opens ∷ performs (record e { dial = no_dial_errors }) ∷ []) in
        (r.1 ≡ on_open (pos 0) ∷ []) × (follows (connected c) r.1 ≡ none)
  unfolding ready_to_connect
  open-between c t ep eps e s k h p q a =
      let told = ap (λ d. (run d calls).1) same ∙ opened_again c t ep eps e in
      (
        told,
        ap (λ es. follows (connected c) es) told
            ∙ ap (λ o. follows (connected_by o) (on_open (pos 0) ∷ [])) k,
      )
    where
      calls : List (Action Endpoint)
      calls = opens ∷ performs (record e { dial = no_dial_errors }) ∷ []

      same : c ≡ ready_to_connect c t ep eps
      same = λ i. record c {
        state = s i;
        host_dirty = h i;
        port_dirty = p i;
        needs_query = q i;
        remote_eps = a i;
        connection = k i;
      }
