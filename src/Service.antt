-- ===== src/Service.antt =====
-- The life of an io_service, from yasio/io_service.cpp: start, stop, the end of the loop, and the end of
-- the service. The loop runs in a thread of its own or in the caller of start.
pub mod Life
use yasio.Base.{
  ℕ, ◌-◌, ◌^◌, List, [], ◌∷◌, ◌++◌, map, Bool, true, false, ◌==◌, not, ◌&&◌, ◌||◌, if◌then◌else◌,
}
use yasio.Base.Int.{pos}
use yasio.EventQueue.{DualQueue, dispatch, count, clear, emplace}

-- io_service::state
pub data Phase : Type 0 where
  uninitialized idle running at_exiting : Phase

-- stop_flag_
pub data Flag : Type 0 where
  no_flag stop_flag finalize_flag : Flag

-- worker_ and worker_id_: no thread, a thread that runs, one that has ended and is to be joined, or the
-- caller of start.
pub data Worker : Type 0 where
  no_worker running_thread ended_thread caller_thread : Worker

-- What `close` reads and writes of a channel.
pub record Masks : Type 0 where
  pub open_mask : Bool
  pub close_mask : Bool
  pub socket_open : Bool

pub record Service (Event : Type 0) : Type 0 where
  pub phase : Phase
  pub stop : Flag
  pub worker : Worker
  pub no_new_thread : Bool
  pub deferred_event : Bool
  pub has_callback : Bool
  pub channels : List Masks
  pub transports : List ℕ
  pub pool : List ℕ
  pub timers : List ℕ
  pub events : DualQueue Event

-- A call of stop comes back with the events that it has handed on, waits for the worker, or ends the
-- program.
pub data Outcome (Event : Type 0) : Type 0 where
  done : Service Event → List Event → Outcome Event
  waits : Service Event → Outcome Event
  terminated : Outcome Event

abbrev pub is_set : Flag → Bool
is_set no_flag = false
is_set stop_flag = true
is_set finalize_flag = true

-- io_service::close(index)
pub close_channel : Masks → Masks
close_channel c =
    if c.close_mask then c else record c { open_mask = false; close_mask = c.socket_open }

abbrev pub is_empty : List ℕ → Bool
is_empty [] = true
is_empty (t ∷ ts) = false

abbrev pub ended : Worker → Worker
ended running_thread = ended_thread
ended no_worker = no_worker
ended ended_thread = ended_thread
ended caller_thread = caller_thread

-- process_transports: the transports that stay. One goes where IO has failed for it, or where it, its
-- channel or stop_flag_ asks to.
unfoldable pub process_transports : Flag → (ℕ → Bool) → (ℕ → Bool) → List ℕ → List ℕ
process_transports f lost asked [] = []
process_transports f lost asked (t ∷ ts) =
    let rest = process_transports f lost asked ts in
    if lost t || (asked t || is_set f) then rest else t ∷ rest

module _ {Event : Type 0} where
  -- start, up to the loop.
  abbrev pub started : Service Event → Service Event
  started s = record s {
    phase = running;
    worker = if s.no_new_thread then caller_thread else running_thread;
  }

  abbrev pub start_at : Phase → Service Event → Bool → Service Event
  start_at idle s callback = started (record s { has_callback = s.has_callback || callback })
  start_at uninitialized s callback = s
  start_at running s callback = s
  start_at at_exiting s callback = s

  pub start : Service Event → Bool → Service Event
  start s callback = start_at s.phase s callback

  pub handle_worker_exit : Service Event → Service Event
  handle_worker_exit s = record s { phase = at_exiting }

  -- Their memory goes back to the pool.
  pub clear_transports : Service Event → Service Event
  clear_transports s = record s { transports = []; pool = s.pool ++ s.transports }

  -- dispatch(INT_MAX), where there is a callback.
  abbrev pub last_dispatch : Service Event → List Event × DualQueue Event
  last_dispatch s =
      if s.deferred_event && (not (count s.events == 0) && s.has_callback)
      then (let (r, q) = dispatch s.events (pos (2 ^ 31 - 1)) in (r.0, q))
      else ([], s.events)

  -- handle_stop behind the join.
  abbrev pub cleared : Service Event → List Event × DualQueue Event → Outcome Event
  cleared s (events, q) =
      done
        (record (clear_transports (record s { events = q })) {
          timers = [];
          stop = no_flag;
          worker = no_worker;
          phase = idle;
        })
        events

  abbrev pub stopped_at : Phase → Service Event → Outcome Event
  stopped_at at_exiting s = cleared s (last_dispatch s)
  stopped_at uninitialized s = done s []
  stopped_at idle s = done s []
  stopped_at running s = done s []

  -- A thread that has ended without leaving the loop leaves no events to be dispatched.
  abbrev pub joined_at : Phase → Service Event → Service Event
  joined_at at_exiting s = record s { worker = no_worker }
  joined_at uninitialized s =
      handle_worker_exit (record s { worker = no_worker; events = clear s.events })
  joined_at idle s = handle_worker_exit (record s { worker = no_worker; events = clear s.events })
  joined_at running s =
      handle_worker_exit (record s { worker = no_worker; events = clear s.events })

  abbrev pub in_worker : Flag → Service Event → Outcome Event
  in_worker finalize_flag s = terminated
  in_worker stop_flag s = done s []
  in_worker no_flag s = done s []

  -- handle_stop; `by_worker` is whether the worker's thread calls it.
  abbrev pub handle_stop_at : Worker → Bool → Service Event → Outcome Event
  handle_stop_at no_worker by_worker s = stopped_at s.phase s
  handle_stop_at caller_thread by_worker s = stopped_at s.phase s
  handle_stop_at running_thread true s = in_worker s.stop s
  handle_stop_at running_thread false s = waits s
  handle_stop_at ended_thread true s = in_worker s.stop s
  handle_stop_at ended_thread false s = let j = joined_at s.phase s in stopped_at j.phase j

  pub handle_stop : Bool → Service Event → Outcome Event
  unfolding handle_worker_exit clear_transports
  handle_stop by_worker s = handle_stop_at s.worker by_worker s

  -- do_stop
  abbrev pub flagged : Phase → Flag → Bool → Service Event → Outcome Event
  flagged running f by_worker s =
      handle_stop by_worker (record s { stop = f; channels = map close_channel s.channels })
  flagged uninitialized f by_worker s = done (record s { stop = f }) []
  flagged idle f by_worker s = done (record s { stop = f }) []
  flagged at_exiting f by_worker s = done (record s { stop = f }) []

  abbrev pub do_stop_at : Phase → Flag → Bool → Service Event → Outcome Event
  do_stop_at uninitialized f by_worker s = done s []
  do_stop_at idle f by_worker s = done s []
  do_stop_at running f by_worker s =
      if is_set s.stop then handle_stop by_worker s else flagged running f by_worker s
  do_stop_at at_exiting f by_worker s =
      if is_set s.stop then handle_stop by_worker s else flagged at_exiting f by_worker s

  pub do_stop : Flag → Bool → Service Event → Outcome Event
  unfolding handle_stop close_channel
  do_stop f by_worker s = do_stop_at s.phase f by_worker s

  abbrev pub finalize_at : Phase → Service Event → Service Event
  finalize_at idle s = record s {
    channels = [];
    has_callback = false;
    pool = [];
    phase = uninitialized;
  }
  finalize_at uninitialized s = s
  finalize_at running s = s
  finalize_at at_exiting s = s

  abbrev pub finalize : Service Event → Service Event
  finalize s = finalize_at s.phase s

  abbrev pub put_events : DualQueue Event → List Event → DualQueue Event
  put_events q [] = q
  put_events q (e ∷ es) = put_events (emplace q e) es

  abbrev pub leave : Service Event → Service Event
  leave s = record (handle_worker_exit s) { worker = ended s.worker }

  -- The condition of the loop.
  pub loop_end : Service Event → Service Event
  unfolding handle_worker_exit
  loop_end s = if not (is_set s.stop) || not (is_empty s.transports) then s else leave s

  -- A poll that fails, but not with EBADF: `continue`.
  abbrev pub poll_failed : Service Event → Service Event
  poll_failed s = loop_end s

  -- A turn of the loop: the transports that IO has failed for, those that they themselves or their
  -- channels ask to close, those that are opened, and the events that come.
  pub turn : Service Event → (ℕ → Bool) → (ℕ → Bool) → List ℕ → List Event → Service Event
  unfolding loop_end
  turn s lost asked opened es = loop_end (record s {
    transports = process_transports s.stop lost asked s.transports ++ opened;
    events = put_events s.events es;
  })
