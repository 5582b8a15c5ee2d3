-- ===== src/Tests/Watcher.antt =====
-- The watchers of yasio/impl on two descriptors.
use yasio.Base.{All, refl, ◌<◌, arith, ℕ, ◌≡◌, List, [], ◌∷◌, true, ◌==◌, if◌then◌else◌}
use yasio.Watcher.{Events, no_events, read_event}
use yasio.Watcher.Poll
use yasio.Watcher.Select
use yasio.Watcher.Epoll.{lookup, registered_events}
use yasio.Watcher.Interests.{
  Change, watched, poll_after, select_after, epoll_after, no_polled, no_selected, no_epolled,
  set_events, fd_setsize, mod_event-agree,
}

abbrev both_events : Events
both_events = record { read = true; write = true; error = true }

-- The last call first: 5 was watched for reading and writing, then 7 for reading, and 5 no more for writing.
abbrev changes : List Change
changes =
    record {
      fd = 5;
      added = no_events;
      removed = record no_events { write = true };
      accepted = true;
    }
    ∷ record { fd = 7; added = read_event; removed = no_events; accepted = true }
    ∷ record { fd = 5; added = both_events; removed = no_events; accepted = true }
    ∷ []

abbrev ready : ℕ → Events
ready k = if k == 5 then both_events else no_events

small : All (λ c. c.fd < fd_setsize) changes
small = (omega arith, (omega arith, (omega arith, tt)))

mod_event-agree_example :
    (Poll.find_events (poll_after no_polled changes).events 5 ≡ watched changes 5)
    × (registered_events (lookup (epoll_after no_epolled changes).events 5) ≡ watched changes 5)
    × (set_events (select_after no_selected changes).events 5 ≡ watched changes 5)
mod_event-agree_example = mod_event-agree changes 5 small (refl, (refl, (refl, tt)))
