-- ===== src/Server/Turn/Routes.antt =====
-- The transport map of a UDP server: it leads from each peer to the transport of the peer.
use yasio.Base.{
  ℕ, List, [], ◌∷◌, ◌++◌, append_assoc, Bool, true, false, not, ◌||◌, All, All-append, All-dropped,
  ◌≡◌, refl, sym, ap, subst, ◌∙◌, Option, some, none, if◌then◌else◌, ◌==◌, if_both, arith,
}
use yasio.Base.Int.{ℤ}
use yasio.Channel.{State, closed, opened, is_empty}
use yasio.Server.{
  Kind, tcp, udp, Transport, Event, Server, Opening, Arrival, nothing, connection, datagram,
  NewSocket, no_socket, socket, equivalent, find, emplace_at, emplace, erase, open_internal,
  close_channel, close_at, close_transport, cleanup_channel, do_accept, do_accept_completion,
  completed, failure, accepting, do_dgram_accept, accepted, looked_up, established,
  allocate_transport, active_transport, handle_connect_succeed, arrived,
}
use yasio.Server.Turn.{
  Served, lost_with, forget, process_at, process_transports, process_channel, requested, finished,
  moved, peer_or, serve, Step, opens, closes, closes_transport, serves, performs, step, run,
}

module _ {Endpoint : Type 0} where
  abbrev pub routes : List (Transport Endpoint) → List (Endpoint × ℕ)
  routes [] = []
  routes (t ∷ ts) = (t.peer, t.id) ∷ routes ts

  routes-append : (ts us : List (Transport Endpoint)) → routes (ts ++ us) ≡ routes ts ++ routes us
  routes-append [] us = refl
  routes-append (t ∷ ts) us = ap (λ m. (t.peer, t.id) ∷ m) (routes-append ts us)

  module _ (less : Endpoint → Endpoint → Bool) where
    -- No transport of the list is one of the peer.
    abbrev pub Clear : Endpoint → List (Transport Endpoint) → Type 0
    Clear p ts = All (λ t. equivalent less p t.peer ≡ false) ts

    abbrev pub Apart : List (Transport Endpoint) → Type 0
    Apart [] = Unit
    Apart (t ∷ ts) = Clear t.peer ts × Apart ts

    abbrev pub AreConnected : List (Transport Endpoint) → Type 0
    AreConnected ts = All (λ t. t.connected ≡ true) ts

    -- The map is that of the transports of UDP, which are connected to peers that differ; TCP has none.
    abbrev pub IsRouted : Kind → List (Transport Endpoint) → List (Endpoint × ℕ) → Type 0
    IsRouted tcp ts m = m ≡ []
    IsRouted udp ts m = (m ≡ routes ts) × Apart ts × AreConnected ts

    find-Clear :
        (p : Endpoint) (ts : List (Transport Endpoint))
        → find less p (routes ts) ≡ none
        → Clear p ts
    find-Clear p [] h = tt
    find-Clear p (t ∷ ts) h = ground (arith, find-Clear p ts)

    erase-Clear :
        (p : Endpoint) (ts : List (Transport Endpoint))
        → Clear p ts
        → erase less p (routes ts) ≡ routes ts
    erase-Clear p [] h = refl
    erase-Clear p (t ∷ ts) (h, hs) = rw h (ap (λ m. (t.peer, t.id) ∷ m) (erase-Clear p ts hs))

    equivalent_sym : (p q : Endpoint) → equivalent less p q ≡ equivalent less q p
    equivalent_sym p q = ground arith

    module _ (irreflexive : (p : Endpoint) → less p p ≡ false) where
      equivalent_refl : (p : Endpoint) → equivalent less p p ≡ true
      equivalent_refl p = rw (irreflexive p) refl

      erase-routes :
          (ts us : List (Transport Endpoint)) (t : Transport Endpoint)
          → Apart (ts ++ t ∷ us)
          → (erase less t.peer (routes (ts ++ t ∷ us)) ≡ routes (ts ++ us)) × Apart (ts ++ us)
      erase-routes [] us t (h, hs) = (rw (equivalent_refl t.peer) (erase-Clear t.peer us h), hs)
      erase-routes (u ∷ ts) us t (h, hs) =
          let (apart, clear) = All-dropped (λ v. equivalent less u.peer v.peer ≡ false) ts us t h in
          let (erased, rest) = erase-routes ts us t hs in
          (
            rw (equivalent_sym t.peer u.peer ∙ apart) (ap (λ m. (u.peer, u.id) ∷ m) erased),
            (clear, rest),
          )

      forgotten :
          (k : Kind) (ts us : List (Transport Endpoint)) (t : Transport Endpoint)
          (m : List (Endpoint × ℕ))
          → IsRouted k (ts ++ t ∷ us) m
          → IsRouted k (ts ++ us) (forget less k t.peer m)
      forgotten tcp ts us t m h = h
      forgotten udp ts us t m (e, apart, c) =
          let (erased, rest) = erase-routes ts us t apart in
          (
            ap (erase less t.peer) e ∙ erased,
            rest,
            (All-dropped (λ v. v.connected ≡ true) ts us t c).1,
          )

      -- A connected transport keeps its peer.
      moved-connected :
          (a : Served Endpoint) (t : Transport Endpoint) → t.connected ≡ true → moved a t ≡ t
      moved-connected a t c =
          ap (λ b. record t { peer = if b then t.peer else peer_or a.from t.peer }) c

      process_at-IsRouted :
          (k : Kind) (done ts : List (Transport Endpoint)) (t : Transport Endpoint)
          (lost : Option ℤ) (m : List (Endpoint × ℕ))
          → IsRouted k (done ++ t ∷ ts) m
          → let r = process_at less k t lost m in IsRouted k ((done ++ r.0) ++ ts) r.1
      process_at-IsRouted k done ts t none m h =
          subst (λ us. IsRouted k us m) (sym (append_assoc done (t ∷ []) ts)) h
      process_at-IsRouted k done ts t (some e) m h =
          subst (λ us. IsRouted k us (forget less k t.peer m)) (sym (append_assoc done [] ts))
            (forgotten k done ts t m h)

      -- Where it may move, it is connected, or there is no map.
      moved-IsRouted :
          (k : Kind) (done ts : List (Transport Endpoint)) (t : Transport Endpoint)
          (a : Served Endpoint) (m : List (Endpoint × ℕ))
          → IsRouted k (done ++ t ∷ ts) m
          → IsRouted k (done ++ moved a t ∷ ts) m
      moved-IsRouted tcp done ts t a m h = h
      moved-IsRouted udp done ts t a m h =
          subst (λ u. IsRouted udp (done ++ u ∷ ts) m)
            (sym (moved-connected a t (All-dropped (λ v. v.connected ≡ true) done ts t h.2).0)) h

      pub process_transports-IsRouted :
          (k : Kind) (opm : ℕ → Bool) (served : ℕ → Served Endpoint)
          (done ts : List (Transport Endpoint)) (m : List (Endpoint × ℕ))
          → IsRouted k (done ++ ts) m
          → let r = process_transports less k opm served ts m in IsRouted k (done ++ r.0) r.1
      unfolding process_transports
      process_transports-IsRouted k opm served done [] m h = h
      process_transports-IsRouted k opm served done (t ∷ ts) m h =
          let a = served t.id in
          let u = moved a t in
          let lost = lost_with u (u.close_mask || opm t.id) a.failure in
          let (kept, m', events) = process_at less k u lost m in
          let r = process_transports less k opm served ts m' in
          subst (λ us. IsRouted k us r.1) (append_assoc done kept r.0)
            (process_transports-IsRouted k opm served (done ++ kept) ts m'
              (process_at-IsRouted k done ts u lost m (moved-IsRouted k done ts t a m h)))

      Apart-more :
          (ts : List (Transport Endpoint)) (t : Transport Endpoint)
          → Clear t.peer ts
          → Apart ts
          → Apart (ts ++ t ∷ [])
      Apart-more [] t clear apart = (tt, tt)
      Apart-more (u ∷ ts) t (c, clear) (a, apart) = (
        All-append (λ v. equivalent less u.peer v.peer ≡ false) ts (t ∷ []) a
            (equivalent_sym u.peer t.peer ∙ c, tt),
        Apart-more ts t clear apart,
      )

      add_route :
          (ts : List (Transport Endpoint)) (t : Transport Endpoint) (m : List (Endpoint × ℕ))
          → t.connected ≡ true
          → IsRouted udp ts m
          → find less t.peer m ≡ none
          → IsRouted udp (ts ++ t ∷ []) (emplace less t.peer t.id m)
      add_route ts t m c (e, apart, cs) h = (
        ap (λ o. emplace_at less o t.peer t.id m) h
            ∙ ap (λ m'. m' ++ (t.peer, t.id) ∷ []) e
            ∙ sym (routes-append ts (t ∷ [])),
        Apart-more ts t (find-Clear t.peer ts (ap (find less t.peer) (sym e) ∙ h)) apart,
        All-append (λ v. v.connected ≡ true) ts (t ∷ []) cs (c, tt),
      )

      pub established-routes :
          (kernel_route : Bool) (s : Server Endpoint) (t : Transport Endpoint)
          → let r = (established kernel_route s t).0 in
            (r.transports ≡ s.transports ++ t ∷ [])
            × (r.transport_map ≡ s.transport_map)
            × (r.kind ≡ s.kind)
      unfolding handle_connect_succeed active_transport
      established-routes kernel_route s t =
          if_both
            (λ (r : Server Endpoint × List Event).
              (r.0.transports ≡ s.transports ++ t ∷ [])
              × (r.0.transport_map ≡ s.transport_map)
              × (r.0.kind ≡ s.kind))
            (not kernel_route || s.multicast) _ _ (refl, refl, refl) (refl, refl, refl)

      IsRouted-as :
          (k k' : Kind) (ts ts' : List (Transport Endpoint)) (m m' : List (Endpoint × ℕ))
          → k ≡ k'
          → ts ≡ ts'
          → m ≡ m'
          → IsRouted k' ts' m'
          → IsRouted k ts m
      IsRouted-as k k' ts ts' m m' a b c r = rw (a, b, c) r

      abbrev pub Routed : Server Endpoint → Type 0
      Routed s = IsRouted s.kind s.transports s.transport_map

      -- A new socket can be connected to its peer.
      abbrev pub IsSteadySocket : NewSocket → Type 0
      IsSteadySocket (no_socket e) = Unit
      IsSteadySocket (socket c) = c ≡ true

      abbrev pub IsSteady : Arrival Endpoint → Type 0
      IsSteady nothing = Unit
      IsSteady (connection p) = Unit
      IsSteady (datagram p bytes n) = IsSteadySocket n

      module _ (kernel_route : Bool) where
        accepted-Routed :
            (s : Server Endpoint) (p : Endpoint) (n : NewSocket)
            → s.kind ≡ udp
            → IsSteadySocket n
            → find less p s.transport_map ≡ none
            → Routed s
            → Routed (accepted less kernel_route s p n).1
        accepted-Routed s p (no_socket e) k c h r = r
        accepted-Routed s p (socket c) k st h r =
            let t = allocate_transport s p c in
            let (ts, m, same_kind) = established-routes kernel_route s t in
            IsRouted-as _ udp _ _ _ _ (same_kind ∙ k) ts (ap (emplace less p t.id) m) (
              add_route s.transports t s.transport_map st
                (subst (λ k'. IsRouted k' s.transports s.transport_map) k r) h)

        do_dgram_accept-Routed :
            (s : Server Endpoint) (p : Endpoint) (n : NewSocket)
            → s.kind ≡ udp
            → IsSteadySocket n
            → Routed s
            → Routed (do_dgram_accept less kernel_route s p n).1
        unfolding do_dgram_accept
        do_dgram_accept-Routed s p n k c r = looked (find less p s.transport_map) refl
          where
            looked :
                (o : Option ℕ)
                → find less p s.transport_map ≡ o
                → Routed (looked_up less kernel_route o s p n).1
            looked none e = accepted-Routed s p n k c e r
            looked (some i) e = r

        arrived-Routed :
            (k : Kind) (s : Server Endpoint) (a : Arrival Endpoint)
            → s.kind ≡ k
            → IsSteady a
            → Routed s
            → Routed (arrived less kernel_route k s a).0
        unfolding handle_connect_succeed active_transport
        arrived-Routed tcp s nothing e c r = r
        arrived-Routed udp s nothing e c r = r
        arrived-Routed tcp s (connection p) e c r =
            rw e (subst (λ k'. IsRouted k' s.transports s.transport_map) e r)
        arrived-Routed udp s (connection p) e c r = r
        arrived-Routed tcp s (datagram p bytes n) e c r = r
        arrived-Routed udp s (datagram p bytes n) e c r =
            if_both (λ (x : Server Endpoint × List Event). Routed x.0) (is_empty bytes) _ _ r
              (do_dgram_accept-Routed s p n e c r)

        do_accept_completion-Routed :
            (s : Server Endpoint) (a : Arrival Endpoint)
            → IsSteady a
            → Routed s
            → Routed (do_accept_completion less kernel_route s a).0
        unfolding do_accept_completion
        do_accept_completion-Routed s a c r = at_state s.state
          where
            at_state : (st : State) → Routed (completed less kernel_route st s a).0
            at_state closed = r
            at_state State.resolving = r
            at_state State.connecting = r
            at_state opened = arrived-Routed s.kind s a refl c r

        do_accept-Routed : (s : Server Endpoint) (o : Opening) → Routed s → Routed (do_accept s o)
        unfolding do_accept
        do_accept-Routed s o r = tried (failure s.kind o)
          where
            tried : (e : Option ℤ) → Routed (accepting (cleanup_channel s) e)
            tried none = r
            tried (some e) = r

        process_channel-Routed :
            (s : Server Endpoint) (o : Opening) (a : Arrival Endpoint)
            → IsSteady a
            → Routed s
            → Routed (process_channel less kernel_route s o a).0
        unfolding process_channel cleanup_channel
        process_channel-Routed s o a c r =
            if_both (λ (x : Server Endpoint × List Event). Routed x.0) (not s.in_ops) _ _ r
              (at_state (requested less kernel_route s o).state)
          where
            asked : Routed (requested less kernel_route s o)
            asked =
                if_both Routed s.open_mask _ _ (do_accept-Routed s o r)
                  (if_both Routed s.close_mask _ _ r r)

            at_state :
                (st : State)
                → Routed (finished less kernel_route st (requested less kernel_route s o) a).0
            at_state closed = asked
            at_state State.resolving = asked
            at_state State.connecting = asked
            at_state opened =
                do_accept_completion-Routed (requested less kernel_route s o) a c asked

        -- Closing a transport touches neither its peer nor its number.
        pub marked :
            (b : Bool) (t : Transport Endpoint)
            → let u = if b then record t { close_mask = true } else t in
              (u.peer ≡ t.peer) × (u.id ≡ t.id) × (u.connected ≡ t.connected)
        marked true t = (refl, refl, refl)
        marked false t = (refl, refl, refl)

        close_at-AreConnected :
            (i : ℕ) (ts : List (Transport Endpoint))
            → AreConnected ts
            → AreConnected (close_at i ts)
        unfolding close_at
        close_at-AreConnected i [] c = tt
        close_at-AreConnected i (t ∷ ts) (c, cs) =
            ((marked (t.id == i) t).2 ∙ c, close_at-AreConnected i ts cs)

        close_at-routes :
            (i : ℕ) (ts : List (Transport Endpoint)) → routes (close_at i ts) ≡ routes ts
        unfolding close_at
        close_at-routes i [] = refl
        close_at-routes i (t ∷ ts) =
            let (p, n, c) = marked (t.id == i) t in λ j. (p j, n j) ∷ close_at-routes i ts j

        close_at-Clear :
            (i : ℕ) (p : Endpoint) (ts : List (Transport Endpoint))
            → Clear p ts
            → Clear p (close_at i ts)
        unfolding close_at
        close_at-Clear i p [] c = tt
        close_at-Clear i p (t ∷ ts) (c, cs) =
            (ap (equivalent less p) (marked (t.id == i) t).0 ∙ c, close_at-Clear i p ts cs)

        close_at-Apart : (i : ℕ) (ts : List (Transport Endpoint)) → Apart ts → Apart (close_at i ts)
        unfolding close_at
        close_at-Apart i [] a = tt
        close_at-Apart i (t ∷ ts) (c, cs) = (
          subst (λ p. Clear p (close_at i ts)) (sym (marked (t.id == i) t).0)
              (close_at-Clear i t.peer ts c),
          close_at-Apart i ts cs,
        )

        close_at-IsRouted :
            (k : Kind) (i : ℕ) (ts : List (Transport Endpoint)) (m : List (Endpoint × ℕ))
            → IsRouted k ts m
            → IsRouted k (close_at i ts) m
        close_at-IsRouted tcp i ts m r = r
        close_at-IsRouted udp i ts m (e, a, c) =
            (e ∙ sym (close_at-routes i ts), close_at-Apart i ts a, close_at-AreConnected i ts c)

        abbrev pub IsSteadyStep : Step less kernel_route → Type 0
        IsSteadyStep opens = Unit
        IsSteadyStep closes = Unit
        IsSteadyStep (closes_transport i) = Unit
        IsSteadyStep (serves stopping late served) = Unit
        IsSteadyStep (performs o a) = IsSteady a

        pub step-Routed :
            (s : Server Endpoint) (x : Step less kernel_route)
            → IsSteadyStep x
            → Routed s
            → Routed (step less kernel_route s x).0
        unfolding open_internal close_channel close_transport serve
        step-Routed s opens c r = r
        step-Routed s closes c r = if_both Routed s.close_mask _ _ r r
        step-Routed s (closes_transport i) c r =
            close_at-IsRouted s.kind i s.transports s.transport_map r
        step-Routed s (serves stopping late served) c r =
            process_transports-IsRouted s.kind
              (λ i. s.open_mask || (s.close_mask || (stopping || late i))) served [] s.transports
              s.transport_map r
        step-Routed s (performs o a) c r = process_channel-Routed s o a c r

        -- Where no endpoint is less than itself, and every socket that is opened for a new peer can be
        -- connected to it: the map of a UDP server stays the one of its transports, which are connected to
        -- peers of which no two are equivalent, and that of a TCP server stays empty, whatever else its
        -- user, its peers and its sockets do, calls between the parts of a turn of the loop included.
        pub run-Routed :
            (xs : List (Step less kernel_route)) (s : Server Endpoint)
            → All IsSteadyStep xs
            → Routed s
            → Routed (run less kernel_route s xs).0
        run-Routed [] s c r = r
        run-Routed (x ∷ xs) s (c, cs) r =
            run-Routed xs (step less kernel_route s x).0 cs (step-Routed s x c r)
