-- ===== src/Tests/Channel.antt =====
-- A client channel of yasio/io_service.cpp that opens, connects and is closed.
use yasio.Base.{ℕ, inl, ◌≡◌, refl, List, [], ◌∷◌, true, false, Option, some, none}
use yasio.Base.Int.{pos}
use yasio.Channel.{Channel, Connection, on_open, opened, closed, ready, in_progress}
use yasio.Channel.{
  closing, set_port, requested, open_at, open_internal, close_channel, close_connection, cleanup_io,
  handle_connect_failed, handle_connect_succeed, query_done, dialled, do_connect,
  do_connect_completion, timeout_at, on_timeout, handle_close,
}
use yasio.Channel.Step.Sound.{follows, connected}
use yasio.Channel.Step.{
  Answers, resolved, transport_at, process_transport, take_host, take_port, prepared, query,
  do_resolve, resolve_step, step_at, begun, process_channel, perform, process_timer,
}
use yasio.Channel.Step.Resolve.{Resolves, do_resolve-Resolves}
use yasio.Channel.Step.Turn.{Tells}
use yasio.Channel.Step.Life.{
  Action, opens, closes_channel, serves, performs, times, run, run-Tells, no_dial_errors,
  open-between,
}

-- An endpoint is a host and a port here, and each host is an address.
abbrev Endpoint : Type 0
Endpoint = List ℕ × ℕ

abbrev as_in : List ℕ → ℕ → Option Endpoint
as_in host port = some (host, port)

abbrev with_port : Endpoint → ℕ → Endpoint
with_port e port = (e.0, port)

abbrev channel : Channel Endpoint
channel = record {
  state = closed;
  error = pos 0;
  open_mask = false;
  close_mask = false;
  socket_open = false;
  in_ops = false;
  timer_armed = false;
  connect_id = 0;
  host_dirty = true;
  port_dirty = true;
  needs_query = false;
  remote_host = 127 ∷ 1 ∷ [];
  remote_port = 80;
  remote_eps = [];
  connection = none;
}

-- connect is under way at first, and then done.
abbrev dialling : Answers
dialling = record {
  io_ok = true;
  io_error = pos 0;
  addresses_expired = false;
  dial = record { popen_error = none; bind_error = none; connect_error = some in_progress };
  ready = ready (pos 0);
  timer_due = false;
}

abbrev steps : List (Action Endpoint)
steps =
    opens
    ∷ serves false dialling
    ∷ performs dialling
    ∷ times false
    ∷ serves false dialling
    ∷ performs dialling
    ∷ closes_channel
    ∷ serves false dialling
    ∷ performs dialling
    ∷ []

run-Tells_example : Tells channel (run as_in with_port channel steps)
unfolding closing set_port requested open_at open_internal close_channel close_connection cleanup_io
    handle_connect_failed handle_connect_succeed query_done dialled do_connect do_connect_completion
    timeout_at on_timeout handle_close resolved transport_at process_transport take_host take_port
    prepared query do_resolve resolve_step step_at begun process_channel perform process_timer
run-Tells_example =
    run-Tells as_in with_port steps channel (refl, refl, λ q. q)
      (
        tt,
        (
          tt,
          (
            ((tt, tt, refl), inl refl),
            (tt, (tt, (((tt, tt, refl), inl refl), (tt, (tt, (((tt, tt, refl), inl refl), tt)))))),
          ),
        ),
      )

-- The channel when it is open, with a transport.
abbrev transport : Connection
transport = record { error = pos 0; close_mask = false }

abbrev at_work : Channel Endpoint
at_work = record channel {
  state = opened;
  socket_open = true;
  host_dirty = false;
  port_dirty = false;
  remote_eps = (127 ∷ 1 ∷ [], 80) ∷ [];
  connection = some transport;
}

open-between_example :
    let r =
      run as_in with_port at_work
        (opens ∷ performs (record dialling { dial = no_dial_errors }) ∷ []) in
    (r.1 ≡ on_open (pos 0) ∷ []) × (follows (connected at_work) r.1 ≡ none)
open-between_example =
    open-between as_in with_port at_work transport (127 ∷ 1 ∷ [], 80) [] dialling refl refl refl
      refl refl refl

do_resolve-Resolves_example :
    Resolves as_in with_port channel (do_resolve as_in with_port channel false)
do_resolve-Resolves_example = do_resolve-Resolves as_in with_port channel false
