-- ===== src/Server.antt =====
-- A server channel of io_service and the transports that it accepts, from yasio/io_service.cpp: over TCP,
-- or over UDP with one transport for each peer. What the sockets answer is an argument.
pub mod Turn
use yasio.Base.{
  ℕ, zero, suc, List, [], ◌∷◌, ◌++◌, Bool, true, false, ◌==◌, not, ◌&&◌, ◌||◌, Option, some, none,
  if◌then◌else◌, ◌%◌, ◌^◌,
}
use yasio.Base.Int.{ℤ, pos, negsuc}
use yasio.Channel.{State, closed, opened, is_empty}

-- YCM_TCP or YCM_UDP of `properties_`.
pub data Kind : Type 0 where
  tcp udp : Kind

-- io_transport, with YOPM_CLOSE of its mask, and the number that the user knows it by.
pub record Transport (Endpoint : Type 0) : Type 0 where
  pub id : ℕ
  pub peer : Endpoint
  pub connected : Bool
  pub error : ℤ
  pub close_mask : Bool

-- YEK_ON_OPEN, YEK_PACKET and YEK_ON_CLOSE, each with the transport.
pub data Event : Type 0 where
  on_open : ℕ → Event
  packet : ℕ → List ℕ → Event
  on_close : ℕ → ℤ → Event

-- The channel, the transports of the service, and the number of the next one, of 32 bits. `in_ops` is whether the
-- channel is in channel_ops_.
pub record Server (Endpoint : Type 0) : Type 0 where
  pub kind : Kind
  pub multicast : Bool
  pub state : State
  pub error : ℤ
  pub open_mask : Bool
  pub close_mask : Bool
  pub socket_open : Bool
  pub in_ops : Bool
  pub connect_id : ℕ
  pub bytes_transferred : ℕ
  pub transports : List (Transport Endpoint)
  pub transport_map : List (Endpoint × ℕ)
  pub next_id : ℕ

-- The errors of popen, bind and listen, where they fail.
pub record Opening : Type 0 where
  pub popen_error : Option ℤ
  pub bind_error : Option ℤ
  pub listen_error : Option ℤ

-- What opening a socket for a peer gives: its error, or whether the socket could be connected to the peer.
pub data NewSocket : Type 0 where
  no_socket : ℤ → NewSocket
  socket : Bool → NewSocket

-- What the listening socket has: nothing, a connection, or a datagram.
pub data Arrival (Endpoint : Type 0) : Type 0 where
  nothing : Arrival Endpoint
  connection : Endpoint → Arrival Endpoint
  datagram : Endpoint → List ℕ → NewSocket → Arrival Endpoint

-- The steps of do_accept; only TCP listens.
abbrev listening : Kind → Opening → Option ℤ
listening tcp o = o.listen_error
listening udp o = none

abbrev pub failure : Kind → Opening → Option ℤ
failure k o = elim o.popen_error [
  | some e ↦ some e
  | none ↦ elim o.bind_error [ some e ↦ some e | none ↦ listening k o ]
]

module _ {Endpoint : Type 0} where
  -- std::map by the order `less`: two keys are one where neither is less.
  abbrev pub equivalent : (Endpoint → Endpoint → Bool) → Endpoint → Endpoint → Bool
  equivalent less p q = not (less p q) && not (less q p)

  module _ (less : Endpoint → Endpoint → Bool) where
    abbrev pub find : Endpoint → List (Endpoint × ℕ) → Option ℕ
    find p [] = none
    find p ((q, i) ∷ m) = if equivalent less p q then some i else find p m

    abbrev pub emplace_at : Option ℕ → Endpoint → ℕ → List (Endpoint × ℕ) → List (Endpoint × ℕ)
    emplace_at none p i m = m ++ (p, i) ∷ []
    emplace_at (some j) p i m = m

    abbrev pub emplace : Endpoint → ℕ → List (Endpoint × ℕ) → List (Endpoint × ℕ)
    emplace p i m = emplace_at (find p m) p i m

    abbrev pub erase : Endpoint → List (Endpoint × ℕ) → List (Endpoint × ℕ)
    erase p [] = []
    erase p ((q, i) ∷ m) = if equivalent less p q then erase p m else (q, i) ∷ erase p m

  -- open_internal: a server channel is never connecting.
  unfoldable pub open_internal : Server Endpoint → Server Endpoint
  open_internal s = record s {
    close_mask = false;
    open_mask = true;
    connect_id = suc s.connect_id;
    in_ops = true;
  }

  -- io_service::close(index)
  unfoldable pub close_channel : Server Endpoint → Server Endpoint
  close_channel s =
      if s.close_mask then s else record s { open_mask = false; close_mask = s.socket_open }

  -- io_service::close(transport)
  pub close_at : ℕ → List (Transport Endpoint) → List (Transport Endpoint)
  close_at i [] = []
  close_at i (t ∷ ts) = (if t.id == i then record t { close_mask = true } else t) ∷ close_at i ts

  pub close_transport : Server Endpoint → ℕ → Server Endpoint
  unfolding close_at
  close_transport s i = record s { transports = close_at i s.transports }

  -- cleanup_channel
  unfoldable pub cleanup_channel : Server Endpoint → Server Endpoint
  cleanup_channel s = record s {
    error = pos 0;
    state = closed;
    open_mask = false;
    close_mask = false;
    socket_open = false;
  }

  -- do_accept
  abbrev pub accepting : Server Endpoint → Option ℤ → Server Endpoint
  accepting s none = record s { state = opened; socket_open = true }
  accepting s (some e) = record s { socket_open = false; state = closed }

  unfoldable pub do_accept : Server Endpoint → Opening → Server Endpoint
  unfolding cleanup_channel
  do_accept s o = let c = cleanup_channel s in accepting c (failure c.kind o)

  -- allocate_transport
  abbrev pub allocate_transport : Server Endpoint → Endpoint → Bool → Transport Endpoint
  allocate_transport s p c = record {
    id = s.next_id;
    peer = p;
    connected = c;
    error = pos 0;
    close_mask = false;
  }

  -- active_transport
  unfoldable pub active_transport :
      Server Endpoint → Transport Endpoint → Server Endpoint × List Event
  active_transport s t = (
    record s { transports = s.transports ++ t ∷ []; next_id = suc s.next_id % 2 ^ 32 },
    on_open t.id ∷ [],
  )

  -- handle_connect_succeed for a transport of a server
  unfoldable pub handle_connect_succeed :
      Server Endpoint → Transport Endpoint → Server Endpoint × List Event
  unfolding active_transport
  handle_connect_succeed s t = active_transport (record s { error = pos 0 }) t

  -- Where the system routes the datagrams of a connected socket to it, and the channel is not one of
  -- multicast, the user of the transports does not.
  abbrev pub established :
      Bool → Server Endpoint → Transport Endpoint → Server Endpoint × List Event
  established kernel_route s t =
      if not kernel_route || s.multicast then active_transport s t else handle_connect_succeed s t

  module _ (less : Endpoint → Endpoint → Bool) (kernel_route : Bool) where
    -- do_dgram_accept, behind the lookup
    abbrev pub accepted :
        Server Endpoint → Endpoint → NewSocket → Option ℕ × Server Endpoint × List Event
    accepted s p (no_socket e) = (none, s, [])
    accepted s p (socket c) =
        let t = allocate_transport s p c in
        let (r, events) = established kernel_route s t in
        (some t.id, record r { transport_map = emplace less p t.id r.transport_map }, events)

    abbrev pub looked_up :
        Option ℕ → Server Endpoint → Endpoint → NewSocket → Option ℕ × Server Endpoint × List Event
    looked_up (some i) s p n = (some i, s, [])
    looked_up none s p n = accepted s p n

    unfoldable pub do_dgram_accept :
        Server Endpoint → Endpoint → NewSocket → Option ℕ × Server Endpoint × List Event
    unfolding handle_connect_succeed active_transport
    do_dgram_accept s p n = looked_up (find less p s.transport_map) s p n

    -- io_transport_udp::handle_input
    abbrev pub handle_input : Option ℕ → List ℕ → List Event
    handle_input none bytes = []
    handle_input (some i) bytes = packet i bytes ∷ []

    abbrev pub received :
        Server Endpoint → Endpoint → List ℕ → NewSocket → Server Endpoint × List Event
    received s p bytes n =
        let (i, r, events) = do_dgram_accept s p n in (r, events ++ handle_input i bytes)

    -- do_accept_completion; a datagram without bytes is none.
    abbrev pub arrived : Kind → Server Endpoint → Arrival Endpoint → Server Endpoint × List Event
    arrived k s nothing = (s, [])
    arrived tcp s (connection p) = handle_connect_succeed s (allocate_transport s p true)
    arrived udp s (connection p) = (s, [])
    arrived tcp s (datagram p bytes n) = (s, [])
    arrived udp s (datagram p bytes n) = if is_empty bytes then (s, []) else received s p bytes n

    abbrev pub completed : State → Server Endpoint → Arrival Endpoint → Server Endpoint × List Event
    completed closed s a = (s, [])
    completed State.resolving s a = (s, [])
    completed State.connecting s a = (s, [])
    completed opened s a = arrived s.kind s a

    unfoldable pub do_accept_completion :
        Server Endpoint → Arrival Endpoint → Server Endpoint × List Event
    unfolding do_dgram_accept handle_connect_succeed
    do_accept_completion s a = completed s.state s a
