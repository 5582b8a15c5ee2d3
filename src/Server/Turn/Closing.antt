-- ===== src/Server/Turn/Closing.antt =====
-- What closing a server channel comes to.
use yasio.Base.{
  ℕ, List, [], ◌∷◌, ◌++◌, append-nil, Bool, true, false, ◌||◌, ◌≡◌, refl, sym, subst, Option, some,
  none,
}
use yasio.Base.Int.{ℤ}
use yasio.Channel.{closed}
use yasio.Server.{Kind, tcp, udp, Transport, Event, Server, Opening, Arrival, cleanup_channel}
use yasio.Server.Turn.{
  Served, moved, lost_with, process_at, process_transports, process_channel, serve, Step, serves,
  performs, run,
}
use yasio.Server.Turn.Routes.{IsRouted, Routed, process_transports-IsRouted}
use yasio.Server.Turn.Told.{Leads, ids, process_transports-Leads}
use yasio.Server.Turn.Told.Keeps.{IsNumbered}

-- What is left, and what the user was told.
abbrev pub IsClosed : {Endpoint : Type 0} → Server Endpoint → Server Endpoint × List Event → Type 0
IsClosed s x =
    (x.0.transports ≡ [])
    × (x.0.transport_map ≡ [])
    × (x.0.state ≡ closed)
    × (x.0.socket_open ≡ false)
    × (x.0.in_ops ≡ false)
    × Leads (ids s.transports) x.1 []

module _ {Endpoint : Type 0} (less : Endpoint → Endpoint → Bool) (kernel_route : Bool) where
  process_transports-all :
      (k : Kind) (served : ℕ → Served Endpoint) (ts : List (Transport Endpoint))
      (m : List (Endpoint × ℕ))
      → (process_transports less k (λ i. true) served ts m).0 ≡ []
  unfolding process_transports
  process_transports-all k served [] m = refl
  process_transports-all k served (t ∷ ts) m =
      one t.close_mask (served t.id).failure (process_transports-all k served ts)
    where
      one :
          (b : Bool) (f : Option ℤ)
          → ((m' : List (Endpoint × ℕ))
              → (process_transports less k (λ i. true) served ts m').0 ≡ [])
          → let u = moved (served t.id) t in
            let r = process_at less k u (lost_with u (b || true) f) m in
            r.0 ++ (process_transports less k (λ i. true) served ts r.1).0 ≡ []
      one true none h = h _
      one false none h = h _
      one true (some e) h = h _
      one false (some e) h = h _

  module _ (irreflexive : (p : Endpoint) → less p p ≡ false) where
    empty_map : (k : Kind) (m : List (Endpoint × ℕ)) → IsRouted less k [] m → m ≡ []
    empty_map tcp m h = h
    empty_map udp m h = h.0

    asked_to_close : Server Endpoint → Server Endpoint
    asked_to_close s = record s { close_mask = true; open_mask = false; in_ops = true }

    -- A turn of the loop with no call of the user between its parts.
    abbrev turn_of :
        Bool
        → (ℕ → Bool)
        → (ℕ → Served Endpoint)
        → Opening
        → Arrival Endpoint
        → List (Step less kernel_route)
    turn_of stopping late served o a = serves stopping late served ∷ performs o a ∷ []

    turn-IsClosed :
        (s : Server Endpoint) (stopping : Bool) (late : ℕ → Bool) (served : ℕ → Served Endpoint)
        (o : Opening) (a : Arrival Endpoint)
        → Routed less irreflexive s
        → IsNumbered s
        → IsClosed s (run less kernel_route (asked_to_close s) (turn_of stopping late served o a))
    unfolding serve process_channel cleanup_channel asked_to_close
    turn-IsClosed s stopping late served o a r h = (
      none_left,
      empty_map s.kind p.1 (
          subst (λ ts. IsRouted less s.kind ts p.1) none_left
            (process_transports-IsRouted less irreflexive s.kind (λ i. true) served [] s.transports
              s.transport_map r)),
      refl,
      refl,
      refl,
      subst (λ es. Leads (ids s.transports) es []) (sym (append-nil p.2))
          (subst (λ ts. Leads (ids s.transports) p.2 (ids ts)) none_left
            (process_transports-Leads less s.kind (λ i. true) served [] s.transports s.transport_map
              h.0)),
    )
      where
        p : List (Transport Endpoint) × List (Endpoint × ℕ) × List Event
        p = process_transports less s.kind (λ i. true) served s.transports s.transport_map

        none_left : p.0 ≡ []
        none_left = process_transports-all s.kind served s.transports s.transport_map

    -- A server channel that is to be closed, and not to be opened again, is closed in the next turn, in
    -- which no call of the user comes between its parts, and with it every transport that it has: the
    -- events of the turn tell of the end of each, and neither the map nor the list of open channels keeps
    -- anything. No endpoint is less than itself, the map is the one of the transports, which are connected
    -- to their peers, and these have different numbers.
    pub turn-closes :
        (s : Server Endpoint) (stopping : Bool) (late : ℕ → Bool) (served : ℕ → Served Endpoint)
        (o : Opening) (a : Arrival Endpoint)
        → Routed less irreflexive s
        → IsNumbered s
        → s.close_mask ≡ true
        → s.open_mask ≡ false
        → s.in_ops ≡ true
        → IsClosed s (run less kernel_route s (serves stopping late served ∷ performs o a ∷ []))
    unfolding asked_to_close
    turn-closes s stopping late served o a r h c w i =
        subst (λ q. IsClosed s (run less kernel_route q (turn_of stopping late served o a)))
          (sym asked) (turn-IsClosed s stopping late served o a r h)
      where
        asked : s ≡ asked_to_close s
        asked = λ j. record s { close_mask = c j; open_mask = w j; in_ops = i j }
