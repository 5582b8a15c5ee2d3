-- ===== src/Watcher/Poll.antt =====
-- poll_io_watcher of yasio/impl/poll_io_watcher.hpp.
use yasio.Base.{ℕ, Bool, List, [], ◌∷◌, map, ◌==◌, ◌&&◌, if◌then◌else◌}
use yasio.Base.Int.{ℤ, pos, ltb_ℤ, ◌-ℤ◌}
use yasio.Watcher.{Events, no_events, read_event, minus, both, any, changed}

-- A pollfd, for its `events` or for its `revents`.
pub record PollFd : Type 0 where
  pub fd : ℕ
  pub events : Events

pub record PollWatcher : Type 0 where
  pub events : List PollFd
  pub revents : List PollFd

-- pollfd_mod. An entry without events is not kept.
abbrev pub entry : ℕ → Events → List PollFd → List PollFd
entry fd events rest = if any events then record { fd = fd; events = events } ∷ rest else rest

unfoldable pub pollfd_mod : List PollFd → ℕ → Events → Events → List PollFd
pollfd_mod [] fd added removed = entry fd (minus added removed) []
pollfd_mod (p ∷ ps) fd added removed =
    let rest = pollfd_mod ps fd added removed in
    if p.fd == fd then entry p.fd (changed p.events added removed) ps else p ∷ rest

unfoldable pub mod_event : PollWatcher → ℕ → Events → Events → PollWatcher
unfolding pollfd_mod
mod_event w fd added removed = record w { events = pollfd_mod w.events fd added removed }

-- The entry that find_if finds, 0 where there is none.
unfoldable pub find_events : List PollFd → ℕ → Events
find_events [] fd = no_events
find_events (p ∷ ps) fd = if p.fd == fd then p.events else find_events ps fd

unfoldable pub is_ready : PollWatcher → ℕ → Events → Events
unfolding find_events
is_ready w fd events = both (find_events w.revents fd) events

-- What poll answers where `ready` says how the descriptors are: an event that was asked for, and an
-- error in any case. Its bit `error` is any of POLLERR, POLLHUP and POLLNVAL.
abbrev pub answered : (ℕ → Events) → PollFd → PollFd
answered ready p = record p {
  events = record {
    read = p.events.read && (ready p.fd).read;
    write = p.events.write && (ready p.fd).write;
    error = (ready p.fd).error;
  };
}

-- A poll that fails reports nothing.
abbrev pub reported : Bool → (ℕ → Events) → PollFd → PollFd
reported failed ready p = if failed then record p { events = no_events } else answered ready p

-- poll_io, where `poll` returns `num_events`; the wakeup of the interrupter is not counted.
unfoldable pub poll_io : PollWatcher → ℕ → (ℕ → Events) → ℤ → ℤ × PollWatcher
unfolding is_ready
poll_io w interrupter ready num_events =
    let r = record w { revents = map (reported (ltb_ℤ num_events (pos 0)) ready) w.events } in
    let woken = ltb_ℤ (pos 0) num_events && any (is_ready r interrupter read_event) in
    (if woken then num_events -ℤ pos 1 else num_events, r)
