-- ===== src/Watcher/Epoll.antt =====
-- epoll_io_watcher of yasio/impl/epoll_io_watcher.hpp. Whether epoll_ctl accepts a change, and what
-- epoll_wait writes, are arguments.
use yasio.Base.{
  ℕ, zero, suc, List, [], ◌∷◌, ◌++◌, length, replicate, ◌-◌, Bool, ltb, ◌==◌, ◌&&◌, Option, some,
  none, if◌then◌else◌, min,
}
use yasio.Watcher.{Events, no_events, read_event, both, any, changed}
use yasio.Watcher.Poll.{PollFd}

-- `events` is the map from descriptors to masks; `revents` is the array that epoll_wait writes, of which
-- the first `nrevents` are of the last call.
pub record EpollWatcher : Type 0 where
  pub events : List PollFd
  pub max_events : ℕ
  pub revents : List PollFd
  pub nrevents : ℕ

-- events_.find
unfoldable pub lookup : List PollFd → ℕ → Option Events
lookup [] fd = none
lookup (p ∷ ps) fd = if p.fd == fd then some p.events else lookup ps fd

unfoldable pub assign : List PollFd → ℕ → Events → List PollFd
assign [] fd events = record { fd = fd; events = events } ∷ []
assign (p ∷ ps) fd events =
    if p.fd == fd then record p { events = events } ∷ ps else p ∷ assign ps fd events

unfoldable pub erase : List PollFd → ℕ → List PollFd
erase [] fd = []
erase (p ∷ ps) fd = if p.fd == fd then ps else p ∷ erase ps fd

abbrev pub registered_events : Option Events → Events
registered_events none = no_events
registered_events (some events) = events

unfoldable pub modified : List PollFd → ℕ → Events → Bool → List PollFd
unfolding assign erase
modified m fd underlying accepted =
    if any underlying then (if accepted then assign m fd underlying else m) else erase m fd

unfoldable pub mod_event : EpollWatcher → ℕ → Events → Events → Bool → EpollWatcher
unfolding lookup modified
mod_event w fd added removed accepted =
    let underlying = changed (registered_events (lookup w.events fd)) added removed in
    let m = modified w.events fd underlying accepted in
    record w { events = m; max_events = min (length m) 128 }

-- The slot that find_if ends at among the first n, or the one behind them.
unfoldable pub find_slot : ℕ → List PollFd → ℕ → Option PollFd
find_slot zero [] fd = none
find_slot zero (p ∷ ps) fd = some p
find_slot (suc n) [] fd = none
find_slot (suc n) (p ∷ ps) fd = if p.fd == fd then some p else find_slot n ps fd

abbrev pub slot_events : Option PollFd → Events
slot_events none = no_events
slot_events (some p) = p.events

unfoldable pub is_ready : EpollWatcher → ℕ → Events → Events
unfolding find_slot
is_ready w fd events = both (slot_events (find_slot w.nrevents w.revents fd)) events

-- poll_io, where epoll_wait writes `reported` into the array, which was filled with zeros.
abbrev pub blank : PollFd
blank = record { fd = 0; events = no_events }

unfoldable pub poll_io : EpollWatcher → ℕ → List PollFd → ℕ × EpollWatcher
unfolding is_ready
poll_io w interrupter reported =
    let n = length reported in
    let r = record w { revents = reported ++ replicate (w.max_events - n) blank; nrevents = n } in
    let woken = ltb 0 n && any (is_ready r interrupter read_event) in
    (if woken then n - 1 else n, r)
