-- ===== src/Channel.antt =====
-- A client channel of io_service, with a plain TCP transport: opening, resolving, connecting and
-- closing, from yasio/io_service.cpp. What sockets, resolver and timers answer is an argument.
pub mod Step
use yasio.Base.{
  ℕ, zero, suc, List, [], ◌∷◌, ◌++◌, map, Bool, true, false, ◌==◌, not, ◌&&◌, ◌||◌, Option, some,
  none, if◌then◌else◌,
}
use yasio.Base.Int.{ℤ, pos, negsuc}

-- io_base::state
pub data State : Type 0 where
  closed resolving connecting opened : State

-- The errors of yasio::errc and of the sockets.
abbrev pub in_progress : ℤ
in_progress = pos 115

abbrev pub timed_out : ℤ
timed_out = pos 110

abbrev pub resolve_host_failed : ℤ
resolve_host_failed = negsuc 25

abbrev pub no_available_address : ℤ
no_available_address = negsuc 24

abbrev pub shutdown_by_localhost : ℤ
shutdown_by_localhost = negsuc 23

abbrev pub same : ℤ → ℤ → Bool
same (pos a) (pos b) = a == b
same (negsuc a) (negsuc b) = a == b
same (pos a) (negsuc b) = false
same (negsuc a) (pos b) = false

-- YEK_ON_OPEN and YEK_ON_CLOSE, with their status.
pub data Event : Type 0 where
  on_open on_close : ℤ → Event

-- The transport of the channel: its error, and YOPM_CLOSE in its mask.
pub record Connection : Type 0 where
  pub error : ℤ
  pub close_mask : Bool

-- io_channel. The masks are the bits of `opmask_` and `properties_`; `in_ops` is whether the channel
-- is in channel_ops_, and `timer_armed` whether its timer is in the timer queue.
pub record Channel (Endpoint : Type 0) : Type 0 where
  pub state : State
  pub error : ℤ
  pub open_mask : Bool
  pub close_mask : Bool
  pub socket_open : Bool
  pub in_ops : Bool
  pub timer_armed : Bool
  pub connect_id : ℕ
  pub host_dirty : Bool
  pub port_dirty : Bool
  pub needs_query : Bool
  pub remote_host : List ℕ
  pub remote_port : ℕ
  pub remote_eps : List Endpoint
  pub connection : Option Connection

-- What do_connect meets: the error of popen, of bind, and of connect, where they fail.
pub record Dial : Type 0 where
  pub popen_error : Option ℤ
  pub bind_error : Option ℤ
  pub connect_error : Option ℤ

-- What do_connect_completion meets: no event on the socket, or its SO_ERROR.
pub data Ready : Type 0 where
  not_ready : Ready
  ready : ℤ → Ready

abbrev pub is_empty : {A : Type 0} → List A → Bool
is_empty [] = true
is_empty (x ∷ xs) = false

-- The error that is left of bind: EPERM is none.
abbrev bind_failure : Option ℤ → Option ℤ
bind_failure none = none
bind_failure (some e) = if same e (pos 1) then none else some e

abbrev or_else : Option ℤ → Option ℤ → Option ℤ
or_else none other = other
or_else (some e) other = some e

unfoldable pub closing : Option Connection → Option Connection
closing none = none
closing (some t) = some (record t { close_mask = true })

module _ {Endpoint : Type 0} where
  -- io_channel::set_port; 0 is no port.
  unfoldable pub set_port : Channel Endpoint → ℕ → Channel Endpoint
  set_port c port =
      if port == 0 || c.remote_port == port
      then c
      else record c { remote_port = port; port_dirty = true }

  -- open_internal
  unfoldable pub requested : Channel Endpoint → Channel Endpoint
  requested c = record c {
    close_mask = false;
    open_mask = true;
    connect_id = suc c.connect_id;
    in_ops = true;
  }

  unfoldable pub open_at : State → Channel Endpoint → Bool × Channel Endpoint
  open_at connecting c = (false, c)
  open_at resolving c = (false, c)
  open_at closed c = (true, requested c)
  open_at opened c = (true, requested c)

  unfoldable pub open_internal : Channel Endpoint → Bool × Channel Endpoint
  open_internal c = open_at c.state c

  -- io_service::close(index)
  unfoldable pub close_channel : Channel Endpoint → Channel Endpoint
  close_channel c =
      if c.close_mask then c else record c { open_mask = false; close_mask = c.socket_open }

  -- io_service::close(transport)
  unfoldable pub close_connection : Channel Endpoint → Channel Endpoint
  close_connection c = record c { connection = closing c.connection }

  -- cleanup_io and cleanup_channel
  unfoldable pub cleanup_io : Channel Endpoint → Bool → Channel Endpoint
  cleanup_io c clear_mask = record c {
    error = pos 0;
    state = closed;
    open_mask = not clear_mask && c.open_mask;
    close_mask = not clear_mask && c.close_mask;
    socket_open = false;
  }

  unfoldable pub handle_connect_failed : Channel Endpoint → ℤ → Channel Endpoint × List Event
  handle_connect_failed c e = (cleanup_io c true, on_open e ∷ [])

  -- handle_connect_succeed and active_transport
  unfoldable pub handle_connect_succeed : Channel Endpoint → Channel Endpoint × List Event
  handle_connect_succeed c = (
    record c {
      error = pos 0;
      state = opened;
      connection = some (record { error = pos 0; close_mask = false });
    },
    on_open (pos 0) ∷ [],
  )

  -- start_query; the answer of the resolver comes later.
  abbrev pub start_query : Channel Endpoint → Channel Endpoint
  start_query c = record c { error = in_progress }

  unfoldable pub query_done : Channel Endpoint → Option (List Endpoint) → Channel Endpoint
  query_done c (some eps) = record c { remote_eps = eps }
  query_done c none = record c { error = resolve_host_failed }

  -- do_connect behind bind: connect is not called where bind failed.
  unfoldable pub dialled : Channel Endpoint → Option ℤ → Channel Endpoint × List Event
  dialled c none = handle_connect_succeed c
  dialled c (some e) =
      if same e in_progress || same e (pos 11)
      then (record c { error = in_progress; timer_armed = true }, [])
      else handle_connect_failed c e

  -- do_connect; a socket that is open is closed first.
  unfoldable pub do_connect : Channel Endpoint → Dial → Channel Endpoint × List Event
  do_connect c d = popened d.popen_error
    where
      dialling : Channel Endpoint
      dialling = record (if c.socket_open then cleanup_io c true else c) { state = connecting }

      popened : Option ℤ → Channel Endpoint × List Event
      popened (some e) = handle_connect_failed dialling e
      popened none =
          dialled (record dialling { socket_open = true })
            (or_else (bind_failure d.bind_error) d.connect_error)

  -- do_connect_completion; `due` is whether the timer has expired, in which case cancel leaves it.
  unfoldable pub do_connect_completion :
      Channel Endpoint → Ready → Bool → Channel Endpoint × List Event
  do_connect_completion c not_ready due = (c, [])
  do_connect_completion c (ready e) due =
      let (r, events) =
        if same e (pos 0) then handle_connect_succeed c else handle_connect_failed c e in
      (record r { timer_armed = r.timer_armed && due }, events)

  -- The callback of the timer that do_connect set.
  unfoldable pub timeout_at : State → Channel Endpoint → Channel Endpoint × List Event
  timeout_at opened c = (c, [])
  timeout_at closed c = handle_connect_failed c timed_out
  timeout_at resolving c = handle_connect_failed c timed_out
  timeout_at connecting c = handle_connect_failed c timed_out

  unfoldable pub on_timeout : Channel Endpoint → Channel Endpoint × List Event
  on_timeout c = timeout_at c.state (record c { timer_armed = false })

  -- handle_close
  unfoldable pub handle_close : Channel Endpoint → Connection → Channel Endpoint × List Event
  handle_close c t =
      (cleanup_io (record c { connection = none; close_mask = false }) false, on_close t.error ∷ [])
