-- ===== src/Udp.antt =====
-- io_transport_udp of yasio/io_service.cpp: where its datagrams go. What connect, disconnect and the
-- sockets answer is an argument.
pub mod Addressed
use yasio.Base.{
  ℕ, ◌-◌, List, [], ◌∷◌, ◌++◌, length, min, Bool, true, false, not, ◌&&◌, ◌||◌, Option, some, none,
  if◌then◌else◌,
}
use yasio.Base.Int.{ℤ, pos, negsuc}
use yasio.Channel.{is_empty}

-- io_send_op has no destination; io_sendto_op has one, which may be unspecified.
pub data Destination (Endpoint : Type 0) : Type 0 where
  no_destination : Destination Endpoint
  to : Option Endpoint → Destination Endpoint

pub record SendOp (Endpoint : Type 0) : Type 0 where
  pub buffer : List ℕ
  pub destination : Destination Endpoint

-- An endpoint that is AF_UNSPEC is none. `connected` also says which primitives are set.
pub record Udp (Endpoint : Type 0) : Type 0 where
  pub connected : Bool
  pub peer : Option Endpoint
  pub destination : Option Endpoint
  pub send_queue : List (SendOp Endpoint)

-- What `write_cb_` does: it sends so many bytes to the peer of the socket, or to an endpoint, or reads a
-- destination that is null.
pub data Sending (Endpoint : Type 0) : Type 0 where
  to_peer : ℕ → Sending Endpoint
  to_endpoint : Option Endpoint → ℕ → Sending Endpoint
  null_destination : Sending Endpoint

-- yasio__udp_mss
abbrev pub udp_mss : ℕ
udp_mss = 65507

module _ {Endpoint : Type 0} where
  abbrev pub first_of : Option Endpoint → List Endpoint → Option Endpoint
  first_of (some p) eps = some p
  first_of none [] = none
  first_of none (e ∷ eps) = some e

  abbrev pub remote_endpoint : Udp Endpoint → Option Endpoint → Option Endpoint
  remote_endpoint t socket_peer = if not t.connected then t.peer else socket_peer

  abbrev pub ensured : Option Endpoint → Udp Endpoint → Option Endpoint × Udp Endpoint
  ensured (some d) t = (some d, t)
  ensured none t = (t.peer, record t { destination = t.peer })

  pub ensure_destination : Udp Endpoint → Option Endpoint × Udp Endpoint
  ensure_destination t = ensured t.destination t

  -- connect, where `accepted` says whether the socket could be connected.
  abbrev pub connect_to : Option Endpoint → Udp Endpoint → Bool → Udp Endpoint
  connect_to none t accepted = t
  connect_to (some p) t accepted = record t { peer = some p; connected = accepted }

  pub connect : Udp Endpoint → List Endpoint → Bool → Udp Endpoint
  connect t remote_eps accepted =
      if t.connected then t else connect_to (first_of t.peer remote_eps) t accepted

  abbrev pub configure_remote :
      Udp Endpoint → Endpoint → Bool → Bool → List Endpoint → Bool → Udp Endpoint
  configure_remote t p multicast client remote_eps accepted =
      let r = record t { peer = some p } in
      if t.connected
      then t
      else (if not multicast || not client then connect r remote_eps accepted else r)

  pub disconnect : Udp Endpoint → Udp Endpoint
  disconnect t = record t { connected = false }

  abbrev pub emplaced : Udp Endpoint → List ℕ → Destination Endpoint → Udp Endpoint
  emplaced t buffer d = record t {
    send_queue = t.send_queue ++ record { buffer = buffer; destination = d } ∷ [];
  }

  pub write_to : Udp Endpoint → List ℕ → Option Endpoint → ℕ × Udp Endpoint
  write_to t buffer d = (length buffer, emplaced t buffer (to d))

  pub write : Udp Endpoint → List ℕ → ℕ × Udp Endpoint
  unfolding write_to ensure_destination
  write t buffer =
      let (d, r) = ensure_destination t in
      if t.connected then (length buffer, emplaced t buffer no_destination) else write_to r buffer d

  -- io_service::write and write_to, which take what is open and not empty.
  abbrev pub service_write : Bool → Udp Endpoint → List ℕ → ℤ × Udp Endpoint
  service_write is_open t buffer =
      let (n, r) = write t buffer in
      if is_open then (if not (is_empty buffer) then (pos n, r) else (pos 0, t)) else (negsuc 0, t)

  abbrev pub service_write_to : Bool → Udp Endpoint → List ℕ → Option Endpoint → ℤ × Udp Endpoint
  service_write_to is_open t buffer d =
      let (n, r) = write_to t buffer d in
      if is_open then (if not (is_empty buffer) then (pos n, r) else (pos 0, t)) else (negsuc 0, t)

  -- perform, by the primitives that set_primitives has chosen.
  abbrev pub sent_to : Destination Endpoint → ℕ → Sending Endpoint
  sent_to no_destination n = null_destination
  sent_to (to d) n = to_endpoint d n

  pub perform : Udp Endpoint → SendOp Endpoint → Sending Endpoint
  perform t op =
      let n = min (length op.buffer) udp_mss in
      if t.connected then to_peer n else sent_to op.destination n

  -- `read_cb_`: recvfrom records who sent.
  pub read : Udp Endpoint → Endpoint → List ℕ → Udp Endpoint
  read t sender bytes = if t.connected || is_empty bytes then t else record t { peer = some sender }
