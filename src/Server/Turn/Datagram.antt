-- ===== src/Server/Turn/Datagram.antt =====
-- Which transport a datagram is handed to.
use yasio.Base.{
  ℕ, ◌+◌, List, [], ◌∷◌, ◌++◌, Any, Any-last, Bool, true, false, not, ◌||◌, eq_test, ◌≡◌, inl, inr,
  refl, sym, ap, subst, ◌∙◌, if_both, Option, some, none, if◌then◌else◌, arith,
}
use yasio.Endpoint.{Endpoint, af_inet, less-irreflexive, equal-sums}
use yasio.Endpoint
use yasio.Server.{
  Kind, tcp, udp, Transport, Event, Server, NewSocket, no_socket, socket, equivalent, find, emplace,
  allocate_transport, established, active_transport, handle_connect_succeed, accepted, looked_up,
  do_dgram_accept,
}
use yasio.Server.Turn.Routes.{IsRouted, Routed, routes}

module _ {E : Type 0} (less : E → E → Bool) (kernel_route : Bool) where
  -- A transport of the number, for a peer that the order does not tell from this one.
  abbrev pub IsFor : E → ℕ → List (Transport E) → Type 0
  IsFor p i ts = Any (λ t. (t.id ≡ i) × (equivalent less p t.peer ≡ true)) ts

  find-IsFor :
      (p : E) (ts : List (Transport E)) (i : ℕ) → find less p (routes ts) ≡ some i → IsFor p i ts
  find-IsFor p [] i h = cc
  find-IsFor p (t ∷ ts) i h = at (equivalent less p t.peer) refl (find-IsFor p ts i)
    where
      at :
          (b : Bool)
          → equivalent less p t.peer ≡ b
          → (find less p (routes ts) ≡ some i → IsFor p i ts)
          → IsFor p i (t ∷ ts)
      at true e rest = inl (ground (arith, h, e), e)
      at false e rest = inr (rest (ground (arith, h, e)))

  module _ (irreflexive : (p : E) → less p p ≡ false) where
    new-IsFor :
        (s : Server E) (p : E) (c : Bool)
        → IsFor p s.next_id (established kernel_route s (allocate_transport s p c)).0.transports
    unfolding active_transport handle_connect_succeed
    new-IsFor s p c =
        if_both (λ (r : Server E × List Event). IsFor p s.next_id r.0.transports)
          (not kernel_route || s.multicast) _ _ last last
      where
        last : IsFor p s.next_id (s.transports ++ allocate_transport s p c ∷ [])
        last =
            Any-last (λ t. (t.id ≡ s.next_id) × (equivalent less p t.peer ≡ true)) s.transports
              (allocate_transport s p c) (refl, rw (irreflexive p) refl)

    -- Where the map of a UDP server is the one of its transports, which are connected to peers that
    -- differ, and no endpoint is less than itself: a
    -- datagram that finds a transport or is given one is handed to a transport of the server for the peer
    -- that sent it, as far as the order tells peers apart.
    pub do_dgram_accept-IsFor :
        (s : Server E) (p : E) (n : NewSocket) (i : ℕ)
        → s.kind ≡ udp
        → Routed less irreflexive s
        → (do_dgram_accept less kernel_route s p n).0 ≡ some i
        → IsFor p i (do_dgram_accept less kernel_route s p n).1.transports
    unfolding do_dgram_accept
    do_dgram_accept-IsFor s p n i k r h = looked (find less p s.transport_map) refl h
      where
        looked :
            (o : Option ℕ)
            → find less p s.transport_map ≡ o
            → (looked_up less kernel_route o s p n).0 ≡ some i
            → IsFor p i (looked_up less kernel_route o s p n).1.transports
        looked (some j) e h' =
            subst (λ x. IsFor p x s.transports) same_id
              (find-IsFor p s.transports j (ap (find less p) (sym (known s.kind k r)) ∙ e))
          where
            same_id : j ≡ i
            same_id = ground (arith, h')

            known :
                (k' : Kind)
                → k' ≡ udp
                → IsRouted less k' s.transports s.transport_map
                → s.transport_map ≡ routes s.transports
            known tcp a x = cc
            known udp a x = x.0
        looked none e h' = opened_for n h'
          where
            opened_for :
                (n' : NewSocket)
                → (accepted less kernel_route s p n').0 ≡ some i
                → IsFor p i (accepted less kernel_route s p n').1.transports
            opened_for (no_socket e') h'' = cc
            opened_for (socket c) h'' =
                subst
                  (λ x.
                    IsFor p x (established kernel_route s (allocate_transport s p c)).0.transports)
                  same_id (new-IsFor s p c)
              where
                same_id : s.next_id ≡ i
                same_id = ground (arith, h'')

module _ (kernel_route : Bool) where
  first_route :
      (s : Server Endpoint) (p : Endpoint) (c : Bool)
      → s.transport_map ≡ []
      → (accepted Endpoint.less kernel_route s p (socket c)).1.transport_map ≡ (p, s.next_id) ∷ []
  unfolding active_transport handle_connect_succeed
  first_route s p c e =
      if_both
        (λ (r : Server Endpoint × List Event).
          emplace Endpoint.less p s.next_id r.0.transport_map ≡ (p, s.next_id) ∷ [])
        (not kernel_route || s.multicast) _ _ (ap (emplace Endpoint.less p s.next_id) e)
        (ap (emplace Endpoint.less p s.next_id) e)

  -- Two IPv4 peers whose sums of address and port agree share a transport: on a server whose map is
  -- empty the first is given a new transport, and the second, whatever socket there is for it, the same
  -- one, of which its user is told no more.
  pub do_dgram_accept-misroutes :
      (s : Server Endpoint) (p q : Endpoint) (c : Bool) (n : NewSocket)
      → s.transport_map ≡ []
      → p.af ≡ af_inet
      → q.af ≡ af_inet
      → p.s_addr + p.sin_port ≡ q.s_addr + q.sin_port
      → let (i, r, events) = do_dgram_accept Endpoint.less kernel_route s p (socket c) in
        (i ≡ some s.next_id) × (do_dgram_accept Endpoint.less kernel_route r q n ≡ (i, r, []))
  unfolding do_dgram_accept
  do_dgram_accept-misroutes s p q c n e a b sums =
      subst
        (λ (x : Option ℕ × Server Endpoint × List Event).
          (x.0 ≡ some s.next_id)
          × (looked_up Endpoint.less kernel_route (find Endpoint.less q x.1.transport_map) x.1 q n
              ≡ (x.0, x.1, [])))
        (sym (
          ap (λ m. looked_up Endpoint.less kernel_route (find Endpoint.less p m) s p (socket c)) e))
        (
          refl,
          ap (λ o. looked_up Endpoint.less kernel_route o x.1 q n)
              (ap (find Endpoint.less q) (first_route s p c e) ∙ found),
        )
    where
      x : Option ℕ × Server Endpoint × List Event
      x = accepted Endpoint.less kernel_route s p (socket c)

      found : find Endpoint.less q ((p, s.next_id) ∷ []) ≡ some s.next_id
      found =
          ap (λ (y : Bool). if y then some s.next_id else none)
            (equal-sums q p b a
              ∙ eq_test (q.s_addr + q.sin_port) (p.s_addr + p.sin_port) (sym sums))
