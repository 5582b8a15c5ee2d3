-- ===== src/Timers.antt =====
-- highp_timer and the timer queue of io_service: yasio/io_service.hpp and yasio/io_service.cpp.
-- Times are nanoseconds of the steady clock, durations are microseconds and not negative.
pub mod Lookup
pub mod Queue
pub mod Sorted
pub mod Process
use yasio.Base.{
  ℕ, zero, suc, ◌+◌, ◌-◌, ◌*◌, ◌/◌, List, [], ◌∷◌, ◌++◌, Bool, true, false, ltb, leb, ◌==◌, not,
  ◌&&◌, Option, some, none, if◌then◌else◌,
}
use yasio.Base.Int.{ℤ, pos, negsuc}

-- highp_timer
pub record Control : Type 0 where
  pub duration : ℕ
  pub expire_time : ℕ

-- timer_impl_t: the timer and its callback, both known by numbers.
pub record TimerImpl : Type 0 where
  pub timer : ℕ
  pub callback : ℕ

-- `queue` is timer_queue_ from its back to its front; `control` are the timers; `current_time` is
-- the time that the loop took last, and `now` that of the clock.
pub record Timers : Type 0 where
  pub queue : List TimerImpl
  pub control : ℕ → Control
  pub current_time : ℕ
  pub now : ℕ

abbrev pub set_control : Timers → ℕ → Control → Timers
set_control s t c = record s { control = λ k. if k == t then c else s.control k }

-- expires_from_now(duration) and expires_from_now()
pub expires_from_now : Timers → ℕ → ℕ → Timers
expires_from_now s t d = set_control s t (record { duration = d; expire_time = s.now + d * 1000 })

pub expires_again : Timers → ℕ → Timers
expires_again s t = expires_from_now s t (s.control t).duration

-- wait_duration: the cast to microseconds cuts towards zero.
pub wait_duration : Timers → ℕ → ℤ
wait_duration s t =
    let e = (s.control t).expire_time in
    if leb s.current_time e
    then pos ((e - s.current_time) / 1000)
    else let late = (s.current_time - e) / 1000 in if late == 0 then pos 0 else negsuc (late - 1)

abbrev is_positive : ℤ → Bool
is_positive (pos n) = ltb 0 n
is_positive (negsuc n) = false

pub expired : Timers → ℕ → Bool
expired s t = not (is_positive (wait_duration s t))

-- find_timer
pub find_timer : List TimerImpl → ℕ → Option TimerImpl
find_timer [] t = none
find_timer (x ∷ xs) t = if x.timer == t then some x else find_timer xs t

-- std::sort by expire_time, the earliest at the back.
pub insert_timer : (ℕ → Control) → TimerImpl → List TimerImpl → List TimerImpl
insert_timer c x [] = x ∷ []
insert_timer c x (y ∷ ys) =
    if leb (c x.timer).expire_time (c y.timer).expire_time
    then x ∷ y ∷ ys
    else y ∷ insert_timer c x ys

pub sort_timers : (ℕ → Control) → List TimerImpl → List TimerImpl
sort_timers c [] = []
sort_timers c (x ∷ xs) = insert_timer c x (sort_timers c xs)

-- The callback of the timer is replaced where it stands.
pub replace_callback : List TimerImpl → ℕ → ℕ → List TimerImpl
replace_callback [] t cb = []
replace_callback (x ∷ xs) t cb =
    if x.timer == t then record x { callback = cb } ∷ xs else x ∷ replace_callback xs t cb

pub erase_timer : List TimerImpl → ℕ → List TimerImpl
erase_timer [] t = []
erase_timer (x ∷ xs) t = if x.timer == t then xs else x ∷ erase_timer xs t

abbrev is_first : List TimerImpl → ℕ → Bool
is_first [] t = false
is_first (x ∷ xs) t = t == x.timer

abbrev has_timers : List TimerImpl → Bool
has_timers [] = false
has_timers (x ∷ xs) = true

abbrev found : Option TimerImpl → Bool
found none = false
found (some x) = true

-- schedule_timer, and whether it wakes the loop up.
pub schedule_timer : Timers → ℕ → ℕ → Timers × Bool
schedule_timer s t cb =
    let q =
      if found (find_timer s.queue t)
      then replace_callback s.queue t cb
      else record { timer = t; callback = cb } ∷ s.queue in
    let sorted = sort_timers s.control q in (record s { queue = sorted }, is_first sorted t)

-- remove_timer, and whether it wakes the loop up.
pub remove_timer : Timers → ℕ → Timers × Bool
remove_timer s t =
    let q = erase_timer s.queue t in
    if found (find_timer s.queue t)
    then (record s { queue = sort_timers s.control q }, has_timers q)
    else (s, false)

-- highp_timer::cancel
abbrev pub cancel : Timers → ℕ → Timers × Bool
cancel s t = if expired s t then (s, false) else remove_timer s t

-- get_timeout: the time the loop may wait, at most until the first timer is due.
abbrev pub get_timeout : Timers → ℕ → ℤ
get_timeout s usec = timeout_of s s.queue usec
  where
    at_most : ℕ → ℤ → ℤ
    at_most usec (pos d) = if ltb d usec then pos d else pos usec
    at_most usec (negsuc d) = negsuc d

    timeout_of : Timers → List TimerImpl → ℕ → ℤ
    timeout_of s [] usec = pos usec
    timeout_of s (x ∷ xs) usec = at_most usec (wait_duration s x.timer)

-- What the loop of process_timers has done: the state, the timers whose callbacks were called, how
-- many asked to wait again, and whether it came to its end.
pub record Processed : Type 0 where
  pub timers : Timers
  pub called : List TimerImpl
  pub repeats : ℕ
  pub finished : Bool

module _ (call : ℕ → Timers → Bool × Timers) where
  -- A timer that has expired: its callback is called with the timer taken out, and the timer goes
  -- to the back again where the callback returns false.
  pub fire : TimerImpl → Timers → Bool × Timers
  fire x s =
      let (once, r) = call x.callback s in
      let again = expires_again r x.timer in
      (once, if once then r else record again { queue = x ∷ r.queue })

  -- One turn of the loop, on the queue; `next` are the turns after it.
  pub turn :
      (Timers → List TimerImpl → ℕ → Processed)
      → Timers
      → List TimerImpl
      → ℕ
      → List TimerImpl
      → Processed
  unfolding fire
  turn next s done n [] = record { timers = s; called = done; repeats = n; finished = true }
  turn next s done n (x ∷ xs) =
      let (once, r) = fire x (record s { queue = xs }) in
      if expired s x.timer
      then next r (done ++ x ∷ []) (if once then n else suc n)
      else record { timers = s; called = done; repeats = n; finished = true }

  pub process_loop : ℕ → Timers → List TimerImpl → ℕ → Processed
  unfolding turn
  process_loop zero s done n = record { timers = s; called = done; repeats = n; finished = false }
  process_loop (suc fuel) s done n = turn (λ r d k. process_loop fuel r d k) s done n s.queue

  pub process_timers : ℕ → Timers → Processed
  process_timers fuel s =
      let p = process_loop fuel s [] 0 in
      if p.repeats == 0 then p else record p {
        timers = record p.timers { queue = sort_timers p.timers.control p.timers.queue };
      }
