-- ===== src/Watcher/Select.antt =====
-- select_io_watcher of yasio/impl/select_io_watcher.hpp. An fd_set is a function; a descriptor of
-- FD_SETSIZE or more, which FD_SET must not be given, is not told apart.
use yasio.Base.{ℕ, suc, Bool, true, false, ltb, ◌==◌, ◌&&◌, ◌||◌, if◌then◌else◌}
use yasio.Base.Int.{ℤ, pos, ltb_ℤ, ◌-ℤ◌}
use yasio.Watcher.{Events, read_event, any}

-- The three sets of `events_` or of `revents_`.
pub record FdSets : Type 0 where
  pub read_op : ℕ → Bool
  pub write_op : ℕ → Bool
  pub except_op : ℕ → Bool

pub record SelectWatcher : Type 0 where
  pub events : FdSets
  pub revents : FdSets
  pub max_descriptor : ℕ

-- FD_SET and FD_CLR, where the bit is in the mask.
abbrev pub fd_put : Bool → (ℕ → Bool) → ℕ → Bool → ℕ → Bool
fd_put asked s fd v k = if asked then (if fd == k then v else s k) else s k

abbrev pub put_sets : FdSets → ℕ → Events → Bool → FdSets
put_sets s fd mask v = record {
  read_op = fd_put mask.read s.read_op fd v;
  write_op = fd_put mask.write s.write_op fd v;
  except_op = fd_put mask.error s.except_op fd v;
}

unfoldable pub mod_event : SelectWatcher → ℕ → Events → Events → SelectWatcher
mod_event w fd added removed = record w {
  events = put_sets (put_sets w.events fd added true) fd removed false;
  max_descriptor = if any added && ltb w.max_descriptor (suc fd) then suc fd else w.max_descriptor;
}

unfoldable pub is_ready : SelectWatcher → ℕ → Events → Events
is_ready w fd events = record {
  read = events.read && w.revents.read_op fd;
  write = events.write && w.revents.write_op fd;
  error = events.error && w.revents.except_op fd;
}

-- poll_io, where `select` returns `num_events` and `ready` says how the descriptors are. The third set
-- is not given to `select`, and stays a copy, as all three do where `select` fails.
unfoldable pub poll_io : SelectWatcher → ℕ → (ℕ → Events) → ℤ → ℤ × SelectWatcher
unfolding is_ready
poll_io w interrupter ready num_events =
    let failed = ltb_ℤ num_events (pos 0) in
    let r = record w {
      revents = record w.events {
        read_op = λ k. w.events.read_op k && (failed || (ltb k w.max_descriptor && (ready k).read));
        write_op =
            λ k. w.events.write_op k && (failed || (ltb k w.max_descriptor && (ready k).write));
      };
    } in
    let woken = ltb_ℤ (pos 0) num_events && any (is_ready r interrupter read_event) in
    (if woken then num_events -ℤ pos 1 else num_events, r)
