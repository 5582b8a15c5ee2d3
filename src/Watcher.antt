-- ===== src/Watcher.antt =====
-- The watchers of yasio/impl: poll_io_watcher.hpp, select_io_watcher.hpp and epoll_io_watcher.hpp, and
-- what they have in common: the events that each descriptor is watched for.
pub mod Poll
pub mod Select
pub mod Epoll
pub mod Interests
pub mod Ready
use yasio.Base.{ℕ, Bool, true, false, not, ◌&&◌, ◌||◌}

-- A mask of socket_event: `read`, `write` and `error` are its bits.
pub record Events : Type 0 where
  pub read : Bool
  pub write : Bool
  pub error : Bool

abbrev pub no_events : Events
no_events = record { read = false; write = false; error = false }

abbrev pub read_event : Events
read_event = record { read = true; write = false; error = false }

-- `a | b`, `a & ~b` and `a & b`, and whether a mask is not 0.
abbrev pub plus : Events → Events → Events
plus a b = record {
  read = a.read || b.read;
  write = a.write || b.write;
  error = a.error || b.error;
}

abbrev pub minus : Events → Events → Events
minus a b = record {
  read = a.read && not b.read;
  write = a.write && not b.write;
  error = a.error && not b.error;
}

abbrev pub both : Events → Events → Events
both a b = record {
  read = a.read && b.read;
  write = a.write && b.write;
  error = a.error && b.error;
}

abbrev pub any : Events → Bool
any a = a.read || (a.write || a.error)

-- What a call of mod_event makes of the events of one descriptor.
abbrev pub changed : Events → Events → Events → Events
changed old added removed = minus (plus old added) removed
