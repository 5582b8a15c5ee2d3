-- ===== src/Server/Turn.antt =====
-- The turn of the loop around a server channel: process_transports and process_channels.
pub mod Routes
pub mod Told
pub mod Closing
pub mod Datagram
use yasio.Base.{
  ℕ, List, [], ◌∷◌, ◌++◌, map, Bool, true, false, not, ◌||◌, Option, some, none, if◌then◌else◌,
}
use yasio.Base.Int.{ℤ, pos}
use yasio.Channel.{State, closed, opened, same, shutdown_by_localhost}
use yasio.Server.{
  Kind, tcp, udp, Transport, Event, on_open, packet, on_close, Server, Opening, Arrival, erase,
  open_internal, close_channel, close_transport, cleanup_channel, do_accept, do_accept_completion,
}

-- What do_read and do_write of a transport come to: the packets that are handed on, the peer that recvfrom
-- has read the last datagram from, if it has one, and the error that the connection is lost by, if it is.
pub record Served (Endpoint : Type 0) : Type 0 where
  pub packets : List (List ℕ)
  pub from : Option Endpoint
  pub failure : Option ℤ

module _ {Endpoint : Type 0} where
  abbrev pub lost_with : Transport Endpoint → Bool → Option ℤ → Option ℤ
  lost_with t opm (some e) = some e
  lost_with t opm none =
      if not opm
      then none
      else some (if same t.error (pos 0) then shutdown_by_localhost else t.error)

  -- A transport that is not connected takes the address of the last datagram for its peer.
  abbrev pub peer_or : Option Endpoint → Endpoint → Endpoint
  peer_or none p = p
  peer_or (some q) p = q

  abbrev pub moved : Served Endpoint → Transport Endpoint → Transport Endpoint
  moved a t = record t { peer = if t.connected then t.peer else peer_or a.from t.peer }

  module _ (less : Endpoint → Endpoint → Bool) where
    -- handle_close
    abbrev pub forget : Kind → Endpoint → List (Endpoint × ℕ) → List (Endpoint × ℕ)
    forget tcp p m = m
    forget udp p m = erase less p m

    -- The transports that stay, the map, and the events. `opm` is what the channel and the service ask of
    -- each transport when the loop comes to it.
    abbrev pub process_at :
        Kind
        → Transport Endpoint
        → Option ℤ
        → List (Endpoint × ℕ)
        → List (Transport Endpoint) × List (Endpoint × ℕ) × List Event
    process_at k t none m = (t ∷ [], m, [])
    process_at k t (some e) m = ([], forget k t.peer m, on_close t.id e ∷ [])

    unfoldable pub process_transports :
        Kind
        → (ℕ → Bool)
        → (ℕ → Served Endpoint)
        → List (Transport Endpoint)
        → List (Endpoint × ℕ)
        → List (Transport Endpoint) × List (Endpoint × ℕ) × List Event
    process_transports k opm served [] m = ([], m, [])
    process_transports k opm served (t ∷ ts) m =
        let a = served t.id in
        let u = moved a t in
        let (kept, m', events) =
          process_at k u (lost_with u (u.close_mask || opm t.id) a.failure) m in
        let (rest, m'', more) = process_transports k opm served ts m' in
        (kept ++ rest, m'', map (λ b. packet t.id b) a.packets ++ events ++ more)

    module _ (kernel_route : Bool) where
      -- The branch of process_channels for servers.
      abbrev pub requested : Server Endpoint → Opening → Server Endpoint
      requested s o =
          if s.open_mask then do_accept s o else (if s.close_mask then cleanup_channel s else s)

      abbrev pub finished :
          State → Server Endpoint → Arrival Endpoint → Server Endpoint × List Event
      finished opened s a = do_accept_completion less kernel_route s a
      finished closed s a = (record s { bytes_transferred = 0; in_ops = false }, [])
      finished State.resolving s a = (record s { bytes_transferred = 0; in_ops = false }, [])
      finished State.connecting s a = (record s { bytes_transferred = 0; in_ops = false }, [])

      unfoldable pub process_channel :
          Server Endpoint → Opening → Arrival Endpoint → Server Endpoint × List Event
      unfolding do_accept cleanup_channel do_accept_completion
      process_channel s o a =
          if not s.in_ops then (s, []) else (let r = requested s o in finished r.state r a)

      -- process_transports in a turn of io_service::run; `stopping` is stop_flag_, and `late` says which
      -- transports the loop comes to after the user has asked the channel to open or to close, with a call
      -- that comes while it runs.
      unfoldable pub serve :
          Server Endpoint → Bool → (ℕ → Bool) → (ℕ → Served Endpoint) → Server Endpoint × List Event
      unfolding process_transports
      serve s stopping late served =
          let (ts, m, events) =
            process_transports s.kind (λ i. s.open_mask || (s.close_mask || (stopping || late i)))
              served s.transports s.transport_map in
          (record s { transports = ts; transport_map = m }, events)

      -- What the user and the sockets do. A turn of the loop serves the transports and then performs what
      -- the channel is asked, and calls of the user may come between.
      pub data Step : Type 0 where
        opens : Step
        closes : Step
        closes_transport : ℕ → Step
        serves : Bool → (ℕ → Bool) → (ℕ → Served Endpoint) → Step
        performs : Opening → Arrival Endpoint → Step

      abbrev pub step : Server Endpoint → Step → Server Endpoint × List Event
      step s opens = (open_internal s, [])
      step s closes = (close_channel s, [])
      step s (closes_transport i) = (close_transport s i, [])
      step s (serves stopping late served) = serve s stopping late served
      step s (performs o a) = process_channel s o a

      abbrev pub run : Server Endpoint → List Step → Server Endpoint × List Event
      run s [] = (s, [])
      run s (x ∷ xs) =
          let (r, events) = step s x in let (end, more) = run r xs in (end, events ++ more)
