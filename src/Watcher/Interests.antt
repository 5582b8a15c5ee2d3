-- ===== src/Watcher/Interests.antt =====
-- mod_event of the three watchers of yasio/impl against a table of the events that each descriptor is
-- watched for.
use yasio.Base.{
  ℕ, ◌≡◌, ◌≢◌, ◌⊎◌, inl, inr, refl, ap, sym, subst, ◌∙◌, List, [], ◌∷◌, All, Bool, true, false,
  Bool-cases, ◌==◌, eq_of_test, apart_test, apart_of_test, ◌&&◌, ◌||◌, not, if◌then◌else◌, Option,
  some, none, ◌<◌, arith,
}
use yasio.Watcher.{Events, no_events, any, changed}
use yasio.Watcher.Poll
use yasio.Watcher.Poll.{PollFd, PollWatcher, pollfd_mod}
use yasio.Watcher.Select
use yasio.Watcher.Select.{FdSets, SelectWatcher, put_sets}
use yasio.Watcher.Epoll
use yasio.Watcher.Epoll.{EpollWatcher, lookup, assign, erase, modified, registered_events}

-- A call of mod_event, and whether epoll_ctl accepts the change that it makes.
pub record Change : Type 0 where
  pub fd : ℕ
  pub added : Events
  pub removed : Events
  pub accepted : Bool

-- The table, after one call and after a sequence of calls, the last one first.
abbrev pub watched_after : (ℕ → Events) → Change → ℕ → Events
watched_after t c k = if c.fd == k then changed (t k) c.added c.removed else t k

abbrev pub watched : List Change → ℕ → Events
watched [] k = no_events
watched (c ∷ cs) k = watched_after (watched cs) c k

no_bits : (a : Events) → any a ≡ false → a ≡ no_events
no_bits a h = ground arith

cons_either :
    (b : Bool) (p : PollFd) (xs ys : List PollFd)
    → p ∷ (if b then xs else ys) ≡ (if b then p ∷ xs else p ∷ ys)
cons_either true p xs ys = refl
cons_either false p xs ys = refl

-- pollfd_mod keeps the same list as the map of epoll_io_watcher.
pollfd_mod-modified :
    (ps : List PollFd) (fd : ℕ) (added removed : Events)
    → pollfd_mod ps fd added removed
      ≡ modified ps fd (changed (registered_events (lookup ps fd)) added removed) true
unfolding pollfd_mod modified assign erase lookup
pollfd_mod-modified [] fd added removed = refl
pollfd_mod-modified (p ∷ ps) fd added removed = elim (Bool-cases (p.fd == fd)) [
  | inl q ↦ rw q refl
  | inr q ↦ rw q (
      ap (◌∷◌ p) (pollfd_mod-modified ps fd added removed)
      ∙ cons_either (any (changed (registered_events (lookup ps fd)) added removed)) p _ _)
]

-- Each descriptor has one entry at most.
abbrev Apart : ℕ → PollFd → Type 0
Apart fd p = p.fd ≢ fd

abbrev pub IsDistinct : List PollFd → Type 0
IsDistinct [] = Unit
IsDistinct (p ∷ ps) = All (Apart p.fd) ps × IsDistinct ps

module _ (fd : ℕ) where
  assign-Apart :
      (ps : List PollFd) (k : ℕ) (e : Events)
      → fd ≢ k
      → All (Apart k) ps
      → All (Apart k) (assign ps fd e)
  unfolding assign
  assign-Apart [] k e n a = (n, tt)
  assign-Apart (p ∷ ps) k e n (a, as_) = elim (Bool-cases (p.fd == fd)) [
    | inl q ↦ rw q (a, as_)
    | inr q ↦ rw q (a, assign-Apart ps k e n as_)
  ]

  assign-IsDistinct : (ps : List PollFd) (e : Events) → IsDistinct ps → IsDistinct (assign ps fd e)
  unfolding assign
  assign-IsDistinct [] e d = (tt, tt)
  assign-IsDistinct (p ∷ ps) e (a, d) = elim (Bool-cases (p.fd == fd)) [
    | inl q ↦ rw q (a, d)
    | inr q ↦ rw q (
      assign-Apart ps p.fd e (λ e'. apart_of_test p.fd fd q (sym e')) a,
      assign-IsDistinct ps e d,
    )
  ]

  erase-Apart : (ps : List PollFd) (k : ℕ) → All (Apart k) ps → All (Apart k) (erase ps fd)
  unfolding erase
  erase-Apart [] k a = tt
  erase-Apart (p ∷ ps) k (a, as_) = elim (Bool-cases (p.fd == fd)) [
    | inl q ↦ rw q as_
    | inr q ↦ rw q (a, erase-Apart ps k as_)
  ]

  erase-IsDistinct : (ps : List PollFd) → IsDistinct ps → IsDistinct (erase ps fd)
  unfolding erase
  erase-IsDistinct [] d = tt
  erase-IsDistinct (p ∷ ps) (a, d) = elim (Bool-cases (p.fd == fd)) [
    | inl q ↦ rw q d
    | inr q ↦ rw q (erase-Apart ps p.fd a, erase-IsDistinct ps d)
  ]

  lookup-Apart : (ps : List PollFd) → All (Apart fd) ps → lookup ps fd ≡ none
  unfolding lookup
  lookup-Apart [] a = refl
  lookup-Apart (p ∷ ps) (a, as_) = ground (arith, lookup-Apart ps as_)

  lookup-assign :
      (ps : List PollFd) (e : Events) (k : ℕ)
      → lookup (assign ps fd e) k ≡ (if fd == k then some e else lookup ps k)
  unfolding assign lookup
  lookup-assign [] e k = refl
  lookup-assign (p ∷ ps) e k = ground (arith, lookup-assign ps e k)

  lookup-erase :
      (ps : List PollFd) (k : ℕ)
      → IsDistinct ps
      → lookup (erase ps fd) k ≡ (if fd == k then none else lookup ps k)
  unfolding erase lookup
  lookup-erase [] k d = ground arith
  lookup-erase (p ∷ ps) k (a, d) = elim (Bool-cases (p.fd == fd)) [
    | inl q ↦ rw q (here (eq_of_test p.fd fd q) (Bool-cases (fd == k)))
    | inr q ↦ rw q (beyond (apart_of_test p.fd fd q) (lookup-erase ps k d) (Bool-cases (fd == k)))
  ]
    where
      here :
          p.fd ≡ fd
          → ((fd == k) ≡ true) ⊎ ((fd == k) ≡ false)
          → lookup ps k
            ≡ (if fd == k then none else if p.fd == k then some p.events else lookup ps k)
      here e (inl t) = rw t (
          ap (lookup ps) (sym (eq_of_test fd k t))
          ∙ lookup-Apart ps (subst (λ (n : ℕ). All (Apart n) ps) e a))
      here e (inr t) = rw t (rw (apart_test p.fd k (λ u. apart_of_test fd k t (sym e ∙ u))) refl)

      beyond :
          p.fd ≢ fd
          → lookup (erase ps fd) k ≡ (if fd == k then none else lookup ps k)
          → ((fd == k) ≡ true) ⊎ ((fd == k) ≡ false)
          → (if p.fd == k then some p.events else lookup (erase ps fd) k)
            ≡ (if fd == k then none else if p.fd == k then some p.events else lookup ps k)
      beyond n r (inl t) =
          rw t (rw (apart_test p.fd k (λ u. n (u ∙ sym (eq_of_test fd k t)))) (rw t at r))
      beyond n r (inr t) = rw t (ap (λ o. if p.fd == k then some p.events else o) (rw t at r))

  modified-IsDistinct :
      (ps : List PollFd) (e : Events) → IsDistinct ps → IsDistinct (modified ps fd e true)
  unfolding modified
  modified-IsDistinct ps e d = elim (Bool-cases (any e)) [
    | inl q ↦ rw q (assign-IsDistinct ps e d)
    | inr q ↦ rw q (erase-IsDistinct ps d)
  ]

  lookup-modified :
      (ps : List PollFd) (e : Events) (k : ℕ)
      → IsDistinct ps
      → registered_events (lookup (modified ps fd e true) k)
        ≡ (if fd == k then e else registered_events (lookup ps k))
  unfolding modified
  lookup-modified ps e k d = elim (Bool-cases (any e)) [
    | inl q ↦ rw q (rw (lookup-assign ps e k) (either (fd == k) (some e)))
    | inr q ↦ rw q (
        rw (lookup-erase ps k d) (
          either (fd == k) none
          ∙ ap (λ o. if fd == k then o else registered_events (lookup ps k)) (sym (no_bits e q))))
  ]
    where
      either :
          (b : Bool) (o : Option Events)
          → registered_events (if b then o else lookup ps k)
            ≡ (if b then registered_events o else registered_events (lookup ps k))
      either true o = refl
      either false o = refl

-- The lists of poll_io_watcher and of epoll_io_watcher, where epoll_ctl accepts every change, and the
-- sets of select_io_watcher, after a sequence of calls, the last one first.
abbrev pub poll_after : PollWatcher → List Change → PollWatcher
poll_after w [] = w
poll_after w (c ∷ cs) = Poll.mod_event (poll_after w cs) c.fd c.added c.removed

abbrev pub epoll_after : EpollWatcher → List Change → EpollWatcher
epoll_after w [] = w
epoll_after w (c ∷ cs) = Epoll.mod_event (epoll_after w cs) c.fd c.added c.removed c.accepted

-- The same, where epoll_ctl accepts everything.
abbrev accepting_after : EpollWatcher → List Change → EpollWatcher
accepting_after w [] = w
accepting_after w (c ∷ cs) = Epoll.mod_event (accepting_after w cs) c.fd c.added c.removed true

abbrev pub select_after : SelectWatcher → List Change → SelectWatcher
select_after w [] = w
select_after w (c ∷ cs) = Select.mod_event (select_after w cs) c.fd c.added c.removed

abbrev pub set_events : FdSets → ℕ → Events
set_events s k = record { read = s.read_op k; write = s.write_op k; error = s.except_op k }

-- The watchers before any call.
abbrev pub no_polled : PollWatcher
no_polled = record { events = []; revents = [] }

abbrev pub no_epolled : EpollWatcher
no_epolled = record { events = []; max_events = 0; revents = []; nrevents = 0 }

abbrev pub no_sets : FdSets
no_sets = record { read_op = λ k. false; write_op = λ k. false; except_op = λ k. false }

abbrev pub no_selected : SelectWatcher
no_selected = record { events = no_sets; revents = no_sets; max_descriptor = 0 }

table_step :
    (t u : ℕ → Events) (c : Change) (k : ℕ)
    → ((n : ℕ) → t n ≡ u n)
    → (if c.fd == k then changed (t c.fd) c.added c.removed else t k) ≡ watched_after u c k
table_step t u c k same = elim (Bool-cases (c.fd == k)) [
  | inl q ↦ rw q (ap (λ e. changed e c.added c.removed) (ap t (eq_of_test c.fd k q) ∙ same k))
  | inr q ↦ rw q (same k)
]

accepting_after-watched :
    (cs : List Change)
    → IsDistinct (accepting_after no_epolled cs).events
      × ((k : ℕ)
          → registered_events (lookup (accepting_after no_epolled cs).events k) ≡ watched cs k)
unfolding Epoll.mod_event lookup
accepting_after-watched [] = (tt, λ k. refl)
accepting_after-watched (c ∷ cs) =
    let (d, same) = accepting_after-watched cs in
    let ps = (accepting_after no_epolled cs).events in
    let e = changed (registered_events (lookup ps c.fd)) c.added c.removed in
    (
      modified-IsDistinct c.fd ps e d,
      λ k.
          lookup-modified c.fd ps e k d
          ∙ table_step (λ n. registered_events (lookup ps n)) (watched cs) c k same,
    )

poll_after-accepting_after :
    (cs : List Change) → (poll_after no_polled cs).events ≡ (accepting_after no_epolled cs).events
unfolding Epoll.mod_event Poll.mod_event
poll_after-accepting_after [] = refl
poll_after-accepting_after (c ∷ cs) =
    ap (λ ps. pollfd_mod ps c.fd c.added c.removed) (poll_after-accepting_after cs)
    ∙ pollfd_mod-modified (accepting_after no_epolled cs).events c.fd c.added c.removed

find_events-lookup :
    (ps : List PollFd) (k : ℕ) → Poll.find_events ps k ≡ registered_events (lookup ps k)
unfolding Poll.find_events lookup
find_events-lookup [] k = refl
find_events-lookup (p ∷ ps) k = elim (Bool-cases (p.fd == k)) [
  | inl q ↦ rw q refl
  | inr q ↦ rw q (find_events-lookup ps k)
]

put_bit :
    (added removed old : Bool)
    → (if removed then false else if added then true else old) ≡ (old || added) && not removed
put_bit added removed old = ground arith

same_bit :
    (added removed old : Bool)
    → (if removed then if added then old else old else if added then old else old) ≡ old
same_bit added removed old = ground arith

put_sets-changed :
    (s : FdSets) (c : Change) (k : ℕ)
    → set_events (put_sets (put_sets s c.fd c.added true) c.fd c.removed false) k
      ≡ watched_after (set_events s) c k
put_sets-changed s c k = elim (Bool-cases (c.fd == k)) [
  | inl q ↦ rw q λ i. record {
    read = put_bit c.added.read c.removed.read (s.read_op k) i;
    write = put_bit c.added.write c.removed.write (s.write_op k) i;
    error = put_bit c.added.error c.removed.error (s.except_op k) i;
  }
  | inr q ↦ rw q λ i. record {
    read = same_bit c.added.read c.removed.read (s.read_op k) i;
    write = same_bit c.added.write c.removed.write (s.write_op k) i;
    error = same_bit c.added.error c.removed.error (s.except_op k) i;
  }
]

pub select_after-watched :
    (cs : List Change) (k : ℕ) → set_events (select_after no_selected cs).events k ≡ watched cs k
unfolding Select.mod_event
select_after-watched [] k = refl
select_after-watched (c ∷ cs) k =
    put_sets-changed (select_after no_selected cs).events c k
    ∙ ap (λ e. if c.fd == k then changed e c.added c.removed else e) (select_after-watched cs k)

epoll_after-accepting :
    (w : EpollWatcher) (cs : List Change)
    → All (λ c. c.accepted ≡ true) cs
    → epoll_after w cs ≡ accepting_after w cs
unfolding Epoll.mod_event
epoll_after-accepting w [] h = refl
epoll_after-accepting w (c ∷ cs) (h, hs) =
    λ i. Epoll.mod_event (epoll_after-accepting w cs hs i) c.fd c.added c.removed (h i)

pub poll_after-watched :
    (cs : List Change) (k : ℕ) → Poll.find_events (poll_after no_polled cs).events k ≡ watched cs k
poll_after-watched cs k =
    ap (λ ps. Poll.find_events ps k) (poll_after-accepting_after cs)
    ∙ find_events-lookup (accepting_after no_epolled cs).events k
    ∙ (accepting_after-watched cs).1 k

-- FD_SETSIZE
abbrev pub fd_setsize : ℕ
fd_setsize = 1024

-- The three watchers watch for the same events after any calls of mod_event for descriptors below
-- FD_SETSIZE of which epoll_ctl accepts each change: those of the table.
pub mod_event-agree :
    (cs : List Change) (k : ℕ)
    → All (λ c. c.fd < fd_setsize) cs
    → All (λ c. c.accepted ≡ true) cs
    → (Poll.find_events (poll_after no_polled cs).events k ≡ watched cs k)
      × (registered_events (lookup (epoll_after no_epolled cs).events k) ≡ watched cs k)
      × (set_events (select_after no_selected cs).events k ≡ watched cs k)
mod_event-agree cs k small accepted = (
  poll_after-watched cs k,
  ap (λ w. registered_events (lookup w.events k)) (epoll_after-accepting no_epolled cs accepted)
      ∙ (accepting_after-watched cs).1 k,
  select_after-watched cs k,
)
