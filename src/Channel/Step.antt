-- ===== src/Channel/Step.antt =====
-- do_resolve, process_channels, process_transports and process_timers of yasio/io_service.cpp for one
-- client channel. A turn of the loop is the last three, and calls of the user may come between them.
pub mod Sound
pub mod Resolve
pub mod Turn
pub mod Life
use yasio.Base.{
  ℕ, zero, suc, List, [], ◌∷◌, ◌++◌, map, Bool, true, false, ◌==◌, not, ◌&&◌, ◌||◌, Option, some,
  none, if◌then◌else◌,
}
use yasio.Base.Int.{ℤ, pos, negsuc}
use yasio.Channel.{
  State, closed, resolving, connecting, opened, in_progress, no_available_address,
  shutdown_by_localhost, same, Event, Connection, Channel, Dial, Ready, not_ready, ready, is_empty,
  start_query, do_connect, do_connect_completion, handle_connect_failed, handle_close, on_timeout,
  query_done, open_internal, close_channel, close_connection, set_port,
}

-- What a turn of the loop meets.
pub record Answers : Type 0 where
  pub io_ok : Bool
  pub io_error : ℤ
  pub addresses_expired : Bool
  pub dial : Dial
  pub ready : Ready
  pub timer_due : Bool

-- The branch of process_channels for a channel that resolves, behind do_resolve.
unfoldable pub resolved :
    {Endpoint : Type 0} → Dial → Bool × Channel Endpoint → Channel Endpoint × List Event
resolved d (true, r) = do_connect r d
resolved d (false, r) =
    if same r.error in_progress then (r, []) else handle_connect_failed r r.error

module _ {Endpoint : Type 0} where
  -- The transport in the loop of process_transports: it is closed when its IO failed, or when the
  -- transport, the channel or the service is to be closed or opened anew.
  unfoldable pub transport_at :
      Channel Endpoint → Bool → Answers → Option Connection → Channel Endpoint × List Event
  transport_at c stopping e none = (c, [])
  transport_at c stopping e (some t) =
      let asked = t.close_mask || (c.open_mask || (c.close_mask || stopping)) in
      if e.io_ok
      then if asked
        then handle_close c
            (record t { error = if same t.error (pos 0) then shutdown_by_localhost else t.error })
        else (c, [])
      else handle_close c (record t { error = e.io_error })

  unfoldable pub process_transport :
      Channel Endpoint → Bool → Answers → Channel Endpoint × List Event
  process_transport c stopping e = transport_at c stopping e c.connection

module _ {Endpoint : Type 0} (as_in : List ℕ → ℕ → Option Endpoint)
    (with_port : Endpoint → ℕ → Endpoint) where
  -- The two flags of do_resolve: the address is taken from the host again, and the port set.
  unfoldable pub take_host : Channel Endpoint → Channel Endpoint
  take_host c = taken (as_in c.remote_host c.remote_port)
    where
      taken : Option Endpoint → Channel Endpoint
      taken (some ep) = record c { host_dirty = false; needs_query = false; remote_eps = ep ∷ [] }
      taken none = record c { host_dirty = false; needs_query = true; remote_eps = [] }

  unfoldable pub take_port : Channel Endpoint → Channel Endpoint
  take_port c = record c {
    port_dirty = false;
    remote_eps = map (λ ep. with_port ep c.remote_port) c.remote_eps;
  }

  unfoldable pub prepared : Channel Endpoint → Channel Endpoint
  prepared c =
      let c1 = if c.host_dirty then take_host c else c in if c1.port_dirty then take_port c1 else c1

  -- No address is left: a query is started, unless one was.
  unfoldable pub query : Channel Endpoint → Channel Endpoint
  query c =
      if is_empty c.remote_host
      then record c { error = no_available_address }
      else if same c.error (pos 0)
      then start_query c
      else c

  -- do_resolve: whether an address is there; `expired` is whether the addresses queried are too old.
  unfoldable pub do_resolve : Channel Endpoint → Bool → Bool × Channel Endpoint
  do_resolve c expired =
      let c2 = prepared c in
      if is_empty c2.remote_eps
      then (false, query c2)
      else if not c2.needs_query || same c2.error in_progress || not expired
      then (true, c2)
      else (false, query (record c2 { remote_eps = [] }))

  unfoldable pub resolve_step : Channel Endpoint → Answers → Channel Endpoint × List Event
  resolve_step c e = resolved e.dial (do_resolve c e.addresses_expired)

  unfoldable pub step_at : State → Channel Endpoint → Answers → Channel Endpoint × List Event
  unfolding resolve_step
  step_at resolving c e = resolve_step c e
  step_at connecting c e = do_connect_completion c e.ready e.timer_due
  step_at closed c e = (c, [])
  step_at opened c e = (c, [])

  -- A channel that is to be opened begins by resolving.
  unfoldable pub begun : Channel Endpoint → Channel Endpoint
  begun c = if c.open_mask then record c { open_mask = false; state = resolving } else c

  -- One channel in the loop of process_channels.
  unfoldable pub process_channel : Channel Endpoint → Answers → Channel Endpoint × List Event
  process_channel c e =
      let b = begun c in
      let (r, events) = step_at b.state b e in
      (record r { in_ops = same r.error in_progress }, events)

  -- The loop of process_channels comes to the channels of channel_ops_.
  unfoldable pub perform : Channel Endpoint → Answers → Channel Endpoint × List Event
  unfolding process_channel
  perform c e = if c.in_ops then process_channel c e else (c, [])

-- process_timers, for the timer of the channel.
unfoldable pub process_timer :
    {Endpoint : Type 0} → Channel Endpoint → Bool → Channel Endpoint × List Event
process_timer c due = if c.timer_armed && due then on_timeout c else (c, [])
