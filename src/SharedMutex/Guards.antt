-- ===== src/SharedMutex/Guards.antt =====
-- shared_lock of yasio/shared_mutex.hpp, over mutexes that are shared_mutex: a guard that holds a shared
-- lock and gives it back when it is destroyed.

pub mod Shares
pub mod Places
pub mod Counted
use yasio.Base.{
  ◌⊎◌, inl, inr, ℕ, zero, suc, List, [], ◌∷◌, Bool, true, false, not, ◌&&◌, ◌||◌, ◌==◌, ltb, length,
  Option, some, none, if◌then◌else◌,
}
use yasio.Base.Counts.{count, removed}
use yasio.SharedMutex.{lock_shared, try_lock_shared, unlock_shared}

-- The word of each mutex, by the pointer to the mutex.
abbrev pub Memory : Type 0
Memory = ℕ → ℕ

abbrev pub put : Memory → ℕ → ℕ → Memory
put memory p v k = if p == k then v else memory k

pub record SharedLock : Type 0 where
  pub pmtx : Option ℕ
  pub owns : Bool

pub data Errc : Type 0 where
  operation_not_permitted resource_deadlock_would_occur : Errc

-- How a call ends: it returns, waits at the gate, throws, or goes through a pointer that is null.
pub data Answer : Type 0 where
  done waits null_pointer : Answer
  throws : Errc → Answer

abbrev pub empty : SharedLock
empty = record { pmtx = none; owns = false }

abbrev pub guard : ℕ → Bool → SharedLock
guard p b = record { pmtx = some p; owns = b }

-- What lock_shared comes to for a guard that does not own its mutex.
abbrev pub entered : ℕ → Memory → Option ℕ → Answer × SharedLock × Memory
entered p memory none = (waits, guard p false, memory)
entered p memory (some state) = (done, guard p true, put memory p state)

abbrev pub tried : ℕ → Memory → Bool × ℕ → Answer × SharedLock × Memory
tried p memory (b, state) = (done, guard p b, put memory p state)

-- `_Pmtx->unlock_shared()`
abbrev pub unlock_at : Option ℕ → Memory → Answer × Memory
unlock_at none memory = (null_pointer, memory)
unlock_at (some p) memory = (done, put memory p (unlock_shared (memory p)).0)

-- The constructors that lock, and that try to.
abbrev pub construct : ℕ → Memory → Answer × SharedLock × Memory
construct p memory = entered p memory (lock_shared (memory p))

abbrev pub construct_try : ℕ → Memory → Answer × SharedLock × Memory
construct_try p memory = tried p memory (try_lock_shared (memory p))

-- The destructor, and the first lines of a move assignment.
abbrev pub let_go : SharedLock → Memory → Answer × Memory
let_go g memory = if g.owns then unlock_at g.pmtx memory else (done, memory)

-- `_Validate`, and the mutex that a lock goes to.
abbrev pub validate : SharedLock → Errc ⊎ ℕ
validate g = elim g.pmtx [
  | none ↦ inl operation_not_permitted
  | some p ↦ if g.owns then inl resource_deadlock_would_occur else inr p
]

abbrev pub lock : SharedLock → Memory → Answer × SharedLock × Memory
lock g memory = elim (validate g) [ inl e ↦ (throws e, g, memory) | inr p ↦ construct p memory ]

abbrev pub try_lock : SharedLock → Memory → Answer × SharedLock × Memory
try_lock g memory = elim (validate g) [
  | inl e ↦ (throws e, g, memory)
  | inr p ↦ construct_try p memory
]

abbrev pub unlock : SharedLock → Memory → Answer × SharedLock × Memory
unlock g memory = elim g.pmtx [
  | none ↦ (throws operation_not_permitted, g, memory)
  | some p ↦
      if not g.owns
      then (throws operation_not_permitted, g, memory)
      else (done, guard p false, put memory p (unlock_shared (memory p)).0)
]

-- `release` gives the mutex and leaves the guard empty.
abbrev pub release : SharedLock → Option ℕ × SharedLock
release g = (g.pmtx, empty)

abbrev pub at : ℕ → List SharedLock → SharedLock
at i [] = empty
at zero (g ∷ gs) = g
at (suc i) (g ∷ gs) = at i gs

abbrev pub put_guard : ℕ → SharedLock → List SharedLock → List SharedLock
put_guard i h [] = []
put_guard zero h (g ∷ gs) = h ∷ gs
put_guard (suc i) h (g ∷ gs) = g ∷ put_guard i h gs

-- The guards, a new one in front; where one was destroyed there is an empty one. `released` are the mutexes
-- of which a guard has left a shared lock to its user.
pub record State : Type 0 where
  pub guards : List SharedLock
  pub released : List ℕ
  pub memory : Memory

-- What the user does with guards; a mutex is adopted only by one who has a shared lock of it.
pub data Use : Type 0 where
  constructs constructs_deferred constructs_try adopts : ℕ → Use
  destroys locks tries unlocks releases moves : ℕ → Use
  assigns swaps : ℕ → ℕ → Use

-- A new guard is there once its constructor has returned.
abbrev pub added : State → Answer × SharedLock × Memory → Answer × State
added s (done, g, m) = (done, record s { guards = g ∷ s.guards; memory = m })
added s (waits, g, m) = (waits, s)
added s (null_pointer, g, m) = (null_pointer, s)
added s (throws e, g, m) = (throws e, s)

abbrev pub set : ℕ → State → Answer × SharedLock × Memory → Answer × State
set i s (a, g, m) = (a, record s { guards = put_guard i g s.guards; memory = m })

abbrev pub left : Option ℕ → List ℕ → List ℕ
left none ps = ps
left (some p) ps = p ∷ ps

-- The share goes to the user, where the guard owned one.
abbrev pub released_to : List ℕ → SharedLock → List ℕ
released_to ps g = if g.owns then left (release g).0 ps else ps

-- The assignment reads the guard on its right after it has let go of the mutex on its left, and empties
-- it at last.
abbrev pub move_assign : ℕ → ℕ → List SharedLock → List SharedLock
move_assign i j gs = put_guard j empty (put_guard i (at j gs) gs)

abbrev pub swap : ℕ → ℕ → List SharedLock → List SharedLock
swap i j gs = put_guard j (at i gs) (put_guard i (at j gs) gs)

abbrev pub assigned : ℕ → ℕ → State → Answer × Memory → Answer × State
assigned i j s (a, m) = (a, record s { guards = move_assign i j s.guards; memory = m })

-- The guards that a use is of are there, and a mutex is adopted that has been released.
abbrev pub is_there : ℕ → State → Bool
is_there i s = ltb i (length s.guards)

abbrev pub is_usable : Use → State → Bool
is_usable (constructs p) s = true
is_usable (constructs_deferred p) s = true
is_usable (constructs_try p) s = true
is_usable (adopts p) s = ltb 0 (count p s.released)
is_usable (destroys i) s = is_there i s
is_usable (locks i) s = is_there i s
is_usable (tries i) s = is_there i s
is_usable (unlocks i) s = is_there i s
is_usable (releases i) s = is_there i s
is_usable (moves i) s = is_there i s
is_usable (assigns i j) s = is_there i s && is_there j s
is_usable (swaps i j) s = is_there i s && is_there j s

abbrev pub emptied : Answer × Memory → Answer × SharedLock × Memory
emptied (a, m) = (a, empty, m)

abbrev pub perform : Use → State → Answer × State
perform (constructs p) s = added s (construct p s.memory)
perform (constructs_deferred p) s = added s (done, guard p false, s.memory)
perform (constructs_try p) s = added s (construct_try p s.memory)
perform (adopts p) s =
    (done, record s { guards = guard p true ∷ s.guards; released = removed p s.released })
perform (destroys i) s = set i s (emptied (let_go (at i s.guards) s.memory))
perform (locks i) s = set i s (lock (at i s.guards) s.memory)
perform (tries i) s = set i s (try_lock (at i s.guards) s.memory)
perform (unlocks i) s = set i s (unlock (at i s.guards) s.memory)
perform (releases i) s = (
  done,
  record s {
    guards = put_guard i (release (at i s.guards)).1 s.guards;
    released = released_to s.released (at i s.guards);
  },
)
perform (moves i) s = (done, record s { guards = at i s.guards ∷ put_guard i empty s.guards })
perform (assigns i j) s = assigned i j s (let_go (at i s.guards) s.memory)
perform (swaps i j) s = (done, record s { guards = swap i j s.guards })

abbrev pub step : Use → State → Answer × State
step u s = if is_usable u s then perform u s else (done, s)

abbrev pub run : List Use → State → List Answer × State
run [] s = ([], s)
run (u ∷ us) s = let (a, s') = step u s in let (answers, s'') = run us s' in (a ∷ answers, s'')
