-- ===== src/Watcher/Ready.antt =====
-- is_ready of the three watchers of yasio/impl, after poll_io.
use yasio.Base.{
  ℕ, zero, suc, ◌≡◌, inl, inr, refl, ap, List, [], ◌∷◌, ◌++◌, length, replicate, Bool-cases, ◌==◌,
  ◌&&◌,
}
use yasio.Base.Int.{ℤ}
use yasio.Watcher.{Events, both}
use yasio.Watcher.Poll
use yasio.Watcher.Poll.{PollFd, reported}
use yasio.Watcher.Select
use yasio.Watcher.Epoll
use yasio.Watcher.Epoll.{EpollWatcher, lookup, registered_events, find_slot, slot_events, blank}
use yasio.Watcher.Interests.{Change, watched, select_after, no_selected, select_after-watched}

-- Errors are reported by select_io_watcher where they are watched for, whether there are any or not.
pub select_error-watched :
    (cs : List Change) (ready : ℕ → Events) (interrupter k : ℕ) (n : ℤ) (asked : Events)
    → (Select.is_ready
        (Select.poll_io (select_after no_selected cs) interrupter ready n).1
        k
        asked).error
      ≡ asked.error && (watched cs k).error
unfolding Select.is_ready Select.poll_io
select_error-watched cs ready interrupter k n asked =
    ap (λ (e : Events). asked.error && e.error) (select_after-watched cs k)

find_slot-reported :
    (reported : List PollFd) (m k : ℕ)
    → slot_events (find_slot (length reported) (reported ++ replicate m blank) k)
      ≡ registered_events (lookup reported k)
unfolding find_slot lookup
find_slot-reported [] zero k = refl
find_slot-reported [] (suc m) k = refl
find_slot-reported (p ∷ ps) m k = elim (Bool-cases (p.fd == k)) [
  | inl q ↦ rw q refl
  | inr q ↦ rw q (find_slot-reported ps m k)
]

-- epoll_io_watcher finds a descriptor ready for what epoll_wait has reported of it in the last poll,
-- and for nothing where it was not reported.
pub epoll_is_ready-reported :
    (w : EpollWatcher) (interrupter k : ℕ) (reported : List PollFd) (asked : Events)
    → Epoll.is_ready (Epoll.poll_io w interrupter reported).1 k asked
      ≡ both (registered_events (lookup reported k)) asked
unfolding Epoll.is_ready Epoll.poll_io
epoll_is_ready-reported w interrupter k reported asked =
    ap (λ e. both e asked) (find_slot-reported reported _ k)
