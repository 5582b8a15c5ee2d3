-- ===== src/Tests/Server.antt =====
-- A UDP server of yasio/io_service.cpp with two peers.
use yasio.Base.{ℕ, Bool, All, inl, ◌≡◌, refl, List, [], ◌∷◌, true, false, none, some, ltb, arith}
use yasio.Base.Int.{pos}
use yasio.Channel.{closed, opened}
use yasio.Endpoint.{Endpoint, af_inet}
use yasio.Endpoint
use yasio.Server.{
  open_internal, close_channel, cleanup_channel, active_transport, handle_connect_succeed,
  do_accept, do_accept_completion, Server, udp, Opening, nothing, datagram, socket, do_dgram_accept,
}
use yasio.Server.Turn.{
  process_transports, process_channel, serve, Served, Step, opens, closes, serves, performs, run,
}
use yasio.Server.Turn.Routes.{Routed, IsSteadyStep, run-Routed}
use yasio.Server.Turn.Told.Keeps.{IsNumbered, Announces, AreSteady, run-Announces}
use yasio.Server.Turn.Closing.{IsClosed, turn-closes}
use yasio.Server.Turn.Datagram.{IsFor, do_dgram_accept-IsFor, do_dgram_accept-misroutes}

-- Peers are numbers here.
abbrev server : Server ℕ
server = record {
  kind = udp;
  multicast = false;
  state = closed;
  error = pos 0;
  open_mask = false;
  close_mask = false;
  socket_open = false;
  in_ops = false;
  connect_id = 0;
  bytes_transferred = 0;
  transports = [];
  transport_map = [];
  next_id = 1;
}

abbrev quiet : ℕ → Served ℕ
quiet i = record { packets = []; from = none; failure = none }

abbrev not_late : ℕ → Bool
not_late i = false

abbrev no_errors : Opening
no_errors = record { popen_error = none; bind_error = none; listen_error = none }

irreflexive : (p : ℕ) → ltb p p ≡ false
irreflexive p = ground arith

abbrev steps : List (Step ltb true)
steps =
    opens
    ∷ serves false not_late quiet
    ∷ performs no_errors nothing
    ∷ serves false not_late quiet
    ∷ performs no_errors (datagram 7 (1 ∷ 2 ∷ []) (socket true))
    ∷ serves false not_late quiet
    ∷ performs no_errors (datagram 8 (3 ∷ []) (socket true))
    ∷ closes
    ∷ serves false not_late quiet
    ∷ performs no_errors nothing
    ∷ []

server-IsNumbered : IsNumbered server
server-IsNumbered = ((λ a. omega arith), (λ a. inl refl))

steps-IsSteady : All (IsSteadyStep ltb irreflexive true) steps
steps-IsSteady = (tt, (tt, (tt, (tt, (refl, (tt, (refl, (tt, (tt, (tt, tt))))))))))

run-Routed_example : Routed ltb irreflexive (run ltb true server steps).0
run-Routed_example = run-Routed ltb irreflexive true steps server steps-IsSteady (refl, tt, tt)

steps-AreSteady : AreSteady ltb true irreflexive server steps
unfolding open_internal close_channel cleanup_channel active_transport handle_connect_succeed
    do_accept do_accept_completion do_dgram_accept process_transports process_channel serve
steps-AreSteady = (
  tt,
  omega arith,
  (
    tt,
    omega arith,
    (
      tt,
      omega arith,
      (
        tt,
        omega arith,
        (
          refl,
          omega arith,
          (
            tt,
            omega arith,
            (refl, omega arith, (tt, omega arith, (tt, omega arith, (tt, omega arith, tt)))),
          ),
        ),
      ),
    ),
  ),
)

run-Announces_example : Announces server (run ltb true server steps)
run-Announces_example =
    run-Announces ltb true irreflexive steps server steps-AreSteady (refl, tt, tt) server-IsNumbered

-- The server with one transport.
abbrev at_work : Server ℕ
at_work = record server {
  state = opened;
  socket_open = true;
  in_ops = true;
  close_mask = true;
  transports =
      record { id = 1; peer = 7; connected = true; error = pos 0; close_mask = false } ∷ [];
  transport_map = (7, 1) ∷ [];
  next_id = 2;
}

at_work-IsNumbered : IsNumbered at_work
at_work-IsNumbered = ((λ a. ground arith), (λ a. ground arith))

turn-closes_example :
    IsClosed at_work
      (run ltb true at_work (serves false not_late quiet ∷ performs no_errors nothing ∷ []))
turn-closes_example =
    turn-closes ltb true irreflexive at_work false not_late quiet no_errors nothing
      (refl, (tt, tt), (refl, tt)) at_work-IsNumbered refl refl refl

do_dgram_accept-IsFor_example :
    IsFor ltb true 7 1 (do_dgram_accept ltb true at_work 7 (socket true)).1.transports
unfolding do_dgram_accept
do_dgram_accept-IsFor_example =
    do_dgram_accept-IsFor ltb true irreflexive at_work 7 (socket true) 1 refl
      (refl, (tt, tt), (refl, tt)) refl

-- 1.0.0.127 at port 5 and 1.0.0.126 at port 6, as they lie in memory.
abbrev first_peer : Endpoint
first_peer = record { af = af_inet; s_addr = 16777343; sin_port = 5; bytes = [] }

abbrev second_peer : Endpoint
second_peer = record { af = af_inet; s_addr = 16777342; sin_port = 6; bytes = [] }

abbrev over_ipv4 : Server Endpoint
over_ipv4 = record {
  kind = udp;
  multicast = false;
  state = opened;
  error = pos 0;
  open_mask = false;
  close_mask = false;
  socket_open = true;
  in_ops = true;
  connect_id = 1;
  bytes_transferred = 0;
  transports = [];
  transport_map = [];
  next_id = 1;
}

do_dgram_accept-misroutes_example :
    let (i, r, events) = do_dgram_accept Endpoint.less true over_ipv4 first_peer (socket true) in
    (i ≡ some 1) × (do_dgram_accept Endpoint.less true r second_peer (socket true) ≡ (i, r, []))
do_dgram_accept-misroutes_example =
    do_dgram_accept-misroutes true over_ipv4 first_peer second_peer true (socket true) refl refl
      refl refl
