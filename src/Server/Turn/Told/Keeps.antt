-- ===== src/Server/Turn/Told/Keeps.antt =====
-- Every step of a server channel tells its user of the transports as they are.
use yasio.Base.{
  ℕ, suc, ◌⊎◌, ◌+◌, ◌≤◌, ◌<◌, List, [], ◌∷◌, ◌++◌, Bool, true, false, not, ◌==◌, ◌||◌, ◌≡◌, refl,
  sym, ap, subst, ◌∙◌, if_both, Option, some, none, if◌then◌else◌, ◌%◌, ◌^◌, arith,
}
use yasio.Base.Counts.{count, count-append, counted}
use yasio.Base.Int.{ℤ}
use yasio.Channel.{State, closed, opened, is_empty}
use yasio.Server.{
  Kind, tcp, udp, Transport, Event, on_open, packet, Server, Opening, Arrival, nothing, connection,
  datagram, NewSocket, no_socket, socket, find, open_internal, close_channel, close_at,
  close_transport, cleanup_channel, do_accept, failure, accepting, do_accept_completion, completed,
  do_dgram_accept, accepted, looked_up, established, allocate_transport, active_transport,
  handle_connect_succeed, arrived, handle_input,
}
use yasio.Server.Turn.{
  process_channel, requested, finished, serve, Step, opens, closes, closes_transport, serves,
  performs, step, run,
}
use yasio.Server.Turn.Routes.{IsRouted, Routed, routes, marked, step-Routed, IsSteadyStep}
use yasio.Server.Turn.Told.{
  Leads, Leads-append, Unique, ids, ids-append, process_transports-Leads, process_transports-fewer,
}

module _ {Endpoint : Type 0} where
  -- The transports have different numbers, all smaller than the next.
  abbrev pub IsNumbered : Server Endpoint → Type 0
  IsNumbered s =
      Unique (ids s.transports) × ((a : ℕ) → (count a (ids s.transports) ≡ 0) ⊎ (a < s.next_id))

  -- The number behind the next one does not wrap around.
  abbrev pub HasNext : Server Endpoint → Type 0
  HasNext s = suc s.next_id < 2 ^ 32

  -- What a step comes to: events that lead from the transports before it to those after it.
  abbrev pub Announces : Server Endpoint → Server Endpoint × List Event → Type 0
  Announces s (r, events) = IsNumbered r × Leads (ids s.transports) events (ids r.transports)

  Announces-nothing :
      (s r : Server Endpoint)
      → r.transports ≡ s.transports
      → r.next_id ≡ s.next_id
      → IsNumbered s
      → Announces s (r, [])
  Announces-nothing s r e n h = rw (e, n) (h, (tt, refl))

  -- A new transport.
  activated :
      (s r : Server Endpoint) (t : Transport Endpoint)
      → t.id ≡ s.next_id
      → r.transports ≡ s.transports ++ t ∷ []
      → r.next_id ≡ suc s.next_id % 2 ^ 32
      → HasNext s
      → IsNumbered s
      → Announces s (r, on_open t.id ∷ [])
  activated s r t i e n v (u, b) = (
    ((λ a. ground (arith, u a, b a, i, more a)), (λ a. ground (arith, u a, b a, i, n, v, more a))),
    ((ground (arith, b t.id, i), tt), sym (ap ids e ∙ ids-append s.transports (t ∷ []))),
  )
    where
      more :
          (a : ℕ)
          → count a (ids r.transports) ≡ count a (ids s.transports) + (if t.id == a then 1 else 0)
      more a =
          ap (count a) (ap ids e ∙ ids-append s.transports (t ∷ []))
          ∙ count-append a (ids s.transports) (t.id ∷ [])

  newest :
      (ts : List (Transport Endpoint)) (t : Transport Endpoint)
      → 1 ≤ count t.id (ids (ts ++ t ∷ []))
  newest ts t = omega (
    arith,
    ap (count t.id) (ids-append ts (t ∷ [])),
    count-append t.id (ids ts) (t.id ∷ []),
    counted t.id [],
  )

  Announces-then :
      (s m r : Server Endpoint) (es fs : List Event)
      → Announces s (m, es)
      → Announces m (r, fs)
      → Announces s (r, es ++ fs)
  Announces-then s m r es fs (h, k) (h', k') =
      (h', Leads-append es fs (ids s.transports) (ids m.transports) (ids r.transports) k k')

  Announces-from :
      (s r : Server Endpoint) (x : Server Endpoint × List Event)
      → r.transports ≡ s.transports
      → Announces r x
      → Announces s x
  Announces-from s r (m, events) e (h, k) =
      (h, subst (λ ts. Leads (ids ts) events (ids m.transports)) e k)

  -- A packet of a transport that there is.
  handed_on :
      (s : Server Endpoint) (i : ℕ) (bytes : List ℕ)
      → IsNumbered s
      → 1 ≤ count i (ids s.transports)
      → Announces s (s, packet i bytes ∷ [])
  handed_on s i bytes h k = (h, ((k, tt), refl))

  module _ (less : Endpoint → Endpoint → Bool) where
    find-ids :
        (p : Endpoint) (ts : List (Transport Endpoint)) (i : ℕ)
        → find less p (routes ts) ≡ some i
        → 1 ≤ count i (ids ts)
    find-ids p [] i h = cc
    find-ids p (t ∷ ts) i h = ground (arith, h, find-ids p ts i)

    module _ (kernel_route : Bool) where
      established-Announces :
          (s : Server Endpoint) (p : Endpoint) (c : Bool)
          → HasNext s
          → IsNumbered s
          → Announces s (established kernel_route s (allocate_transport s p c))
      unfolding handle_connect_succeed active_transport
      established-Announces s p c v h =
          let t = allocate_transport s p c in
          if_both (Announces s) (not kernel_route || s.multicast) _ _
            (activated s (active_transport s t).0 t refl refl refl v h)
            (activated s (handle_connect_succeed s t).0 t refl refl refl v h)

      established-newest :
          (s : Server Endpoint) (p : Endpoint) (c : Bool)
          → 1
            ≤ count s.next_id
                (ids (established kernel_route s (allocate_transport s p c)).0.transports)
      unfolding handle_connect_succeed active_transport
      established-newest s p c =
          let t = allocate_transport s p c in
          if_both (λ (r : Server Endpoint × List Event). 1 ≤ count s.next_id (ids r.0.transports))
            (not kernel_route || s.multicast) _ _ (newest s.transports t) (newest s.transports t)

      -- With the datagram that came.
      Receives : Server Endpoint → List ℕ → Option ℕ × Server Endpoint × List Event → Type 0
      Receives s bytes (i, r, events) =
          Announces s (r, events ++ handle_input less kernel_route i bytes)

      accepted-Receives :
          (s : Server Endpoint) (p : Endpoint) (bytes : List ℕ) (n : NewSocket)
          → HasNext s
          → IsNumbered s
          → Receives s bytes (accepted less kernel_route s p n)
      unfolding Receives
      accepted-Receives s p bytes (no_socket e) v h = Announces-nothing s s refl refl h
      accepted-Receives s p bytes (socket c) v h =
          let t = allocate_transport s p c in
          let (m, events) = established kernel_route s t in
          let (k, l) = established-Announces s p c v h in
          Announces-then s m (accepted less kernel_route s p (socket c)).1 events
            (packet s.next_id bytes ∷ []) (k, l) (k, ((established-newest s p c, tt), refl))

      looked_up-Receives :
          (o : Option ℕ) (s : Server Endpoint) (p : Endpoint) (bytes : List ℕ) (n : NewSocket)
          → ((i : ℕ) → o ≡ some i → 1 ≤ count i (ids s.transports))
          → HasNext s
          → IsNumbered s
          → Receives s bytes (looked_up less kernel_route o s p n)
      unfolding Receives
      looked_up-Receives none s p bytes n k v h = accepted-Receives s p bytes n v h
      looked_up-Receives (some i) s p bytes n k v h = handed_on s i bytes h (k i refl)

      module _ (irreflexive : (p : Endpoint) → less p p ≡ false) where
        found-ids :
            (s : Server Endpoint) (k : Kind) (p : Endpoint) (i : ℕ)
            → IsRouted less k s.transports s.transport_map
            → find less p s.transport_map ≡ some i
            → 1 ≤ count i (ids s.transports)
        found-ids s tcp p i e h =
            absurd (omega (arith, find-ids p [] i (ap (find less p) (sym e) ∙ h)))
        found-ids s udp p i (e, a, c) h = find-ids p s.transports i (ap (find less p) (sym e) ∙ h)

        arrived-Announces :
            (k : Kind) (s : Server Endpoint) (a : Arrival Endpoint)
            → Routed less irreflexive s
            → HasNext s
            → IsNumbered s
            → Announces s (arrived less kernel_route k s a)
        unfolding handle_connect_succeed active_transport do_dgram_accept Receives
        arrived-Announces tcp s nothing r v h = Announces-nothing s s refl refl h
        arrived-Announces udp s nothing r v h = Announces-nothing s s refl refl h
        arrived-Announces tcp s (connection p) r v h =
            let t = allocate_transport s p true in
            activated s (handle_connect_succeed s t).0 t refl refl refl v h
        arrived-Announces udp s (connection p) r v h = Announces-nothing s s refl refl h
        arrived-Announces tcp s (datagram p bytes n) r v h = Announces-nothing s s refl refl h
        arrived-Announces udp s (datagram p bytes n) r v h =
            if_both (Announces s) (is_empty bytes) _ _ (Announces-nothing s s refl refl h) (
              looked_up-Receives (find less p s.transport_map) s p bytes n
                (λ i. found-ids s s.kind p i r) v h)

        do_accept_completion-Announces :
            (s : Server Endpoint) (a : Arrival Endpoint)
            → Routed less irreflexive s
            → HasNext s
            → IsNumbered s
            → Announces s (do_accept_completion less kernel_route s a)
        unfolding do_accept_completion
        do_accept_completion-Announces s a r v h = at_state s.state
          where
            at_state : (st : State) → Announces s (completed less kernel_route st s a)
            at_state closed = Announces-nothing s s refl refl h
            at_state State.resolving = Announces-nothing s s refl refl h
            at_state State.connecting = Announces-nothing s s refl refl h
            at_state opened = arrived-Announces s.kind s a r v h

        IsSame : Server Endpoint → Server Endpoint → Type 0
        IsSame s r =
            (r.transports ≡ s.transports) × (r.next_id ≡ s.next_id) × Routed less irreflexive r

        do_accept-IsSame :
            (s : Server Endpoint) (o : Opening)
            → Routed less irreflexive s
            → IsSame s (do_accept s o)
        unfolding IsSame do_accept cleanup_channel
        do_accept-IsSame s o h = tried (failure s.kind o)
          where
            tried : (e : Option ℤ) → IsSame s (accepting (cleanup_channel s) e)
            tried none = (refl, refl, h)
            tried (some e) = (refl, refl, h)

        process_channel-Announces :
            (s : Server Endpoint) (o : Opening) (a : Arrival Endpoint)
            → Routed less irreflexive s
            → HasNext s
            → IsNumbered s
            → Announces s (process_channel less kernel_route s o a)
        unfolding IsSame process_channel cleanup_channel
        process_channel-Announces s o a r v h =
            if_both (Announces s) (not s.in_ops) _ _ (Announces-nothing s s refl refl h) (
              Announces-from s q (finished less kernel_route q.state q a) asked.0
                (at_state q.state))
          where
            q : Server Endpoint
            q = requested less kernel_route s o

            asked : IsSame s q
            asked =
                if_both (IsSame s) s.open_mask _ _ (do_accept-IsSame s o r)
                  (if_both (IsSame s) s.close_mask _ _ (refl, refl, r) (refl, refl, r))

            next : HasNext q
            next = subst (λ n. suc n < 2 ^ 32) (sym asked.1) v

            numbered : IsNumbered q
            numbered = rw (asked.0, asked.1) h

            at_state : (st : State) → Announces q (finished less kernel_route st q a)
            at_state closed =
                Announces-nothing q (finished less kernel_route closed q a).0 refl refl numbered
            at_state State.resolving =
                Announces-nothing q (finished less kernel_route State.resolving q a).0 refl refl
                  numbered
            at_state State.connecting =
                Announces-nothing q (finished less kernel_route State.connecting q a).0 refl refl
                  numbered
            at_state opened = do_accept_completion-Announces q a asked.2 next numbered

        close_at-ids : (i : ℕ) (ts : List (Transport Endpoint)) → ids (close_at i ts) ≡ ids ts
        unfolding close_at
        close_at-ids i [] = refl
        close_at-ids i (t ∷ ts) =
            λ j. (marked less irreflexive kernel_route (t.id == i) t).1 j ∷ close_at-ids i ts j

        pub step-Announces :
            (s : Server Endpoint) (x : Step less kernel_route)
            → Routed less irreflexive s
            → HasNext s
            → IsNumbered s
            → Announces s (step less kernel_route s x)
        unfolding open_internal close_channel close_transport serve
        step-Announces s opens r v h = Announces-nothing s (open_internal s) refl refl h
        step-Announces s closes r v h =
            if_both (λ r. Announces s (r, [])) s.close_mask _ _ (Announces-nothing s s refl refl h)
              (Announces-nothing s (record s { open_mask = false; close_mask = s.socket_open }) refl
                refl h)
        step-Announces s (closes_transport i) r v h =
            rw (close_at-ids i s.transports) (h, (tt, refl))
        step-Announces s (serves stopping late served) r v (u, b) =
            let opm : ℕ → Bool = λ i. s.open_mask || (s.close_mask || (stopping || late i)) in
            let fewer =
              process_transports-fewer less s.kind opm served s.transports s.transport_map in
            (
              ((λ c. omega (arith, u c, fewer c)), (λ c. ground (arith, b c, fewer c))),
              process_transports-Leads less s.kind opm served [] s.transports s.transport_map u,
            )
        step-Announces s (performs o a) r v h = process_channel-Announces s o a r v h

        -- Every socket that is opened for a new peer can be connected to it, and the numbers of the
        -- transports do not wrap around.
        abbrev pub AreSteady : Server Endpoint → List (Step less kernel_route) → Type 0
        AreSteady s [] = Unit
        AreSteady s (x ∷ xs) =
            IsSteadyStep less irreflexive kernel_route x
            × HasNext s
            × AreSteady (step less kernel_route s x).0 xs

        -- For a server whose map is right, whose transports are numbered, and no endpoint of which is less
        -- than itself, so long as every socket that is opened for a new peer can be connected to it and the
        -- 32-bit numbers of the transports do not wrap around: whatever its user, its peers and its sockets
        -- do, it opens each transport under a number that no open one has, hands on packets only of open
        -- transports, and closes only these; the transports that its user was told to be open are those
        -- that it has, in order, each once.
        pub run-Announces :
            (xs : List (Step less kernel_route)) (s : Server Endpoint)
            → AreSteady s xs
            → Routed less irreflexive s
            → IsNumbered s
            → Announces s (run less kernel_route s xs)
        run-Announces [] s c r h = Announces-nothing s s refl refl h
        run-Announces (x ∷ xs) s (c, v, cs) r h =
            let k = step-Announces s x r v h in
            Announces-then s (step less kernel_route s x).0
              (run less kernel_route (step less kernel_route s x).0 xs).0
              (step less kernel_route s x).1
              (run less kernel_route (step less kernel_route s x).0 xs).1 k
              (run-Announces xs (step less kernel_route s x).0 cs
                (step-Routed less irreflexive kernel_route s x c r) k.0)
