-- ===== src/Tests/Timers.antt =====
-- The timer queue of yasio/io_service.cpp with two timers.
use yasio.Base.{
  ℕ, ◌≡◌, List, [], ◌∷◌, ◌++◌, All, Bool, true, ◌==◌, some, none, if◌then◌else◌, arith,
}
use yasio.Timers.{
  Control, TimerImpl, Timers, find_timer, schedule_timer, remove_timer, process_timers,
}
use yasio.Timers.Lookup.{IsDistinct}
use yasio.Timers.Queue.{IsQueue, schedule_timer-lookup, remove_timer-lookup}
use yasio.Timers.Process.{call, HasEnded, Ends, process_timers-due}

-- Timer 1 expires at 5000, and every other one at 90000.
abbrev controls : ℕ → Control
controls k =
    if k == 1
    then record { duration = 5; expire_time = 5000 }
    else record { duration = 90; expire_time = 90000 }

abbrev first : TimerImpl
first = record { timer = 1; callback = 7 }

abbrev second : TimerImpl
second = record { timer = 2; callback = 8 }

abbrev timers : Timers
timers = record { queue = first ∷ second ∷ []; control = controls; current_time = 6000; now = 6000 }

-- Each callback runs once, and takes 10 nanoseconds.
abbrev once : ℕ → Bool
once cb = true

abbrev spent : ℕ → ℕ
spent cb = 10

distinct : IsDistinct timers.queue
distinct = (((λ e. omega (arith, e)), tt), (tt, tt))

process_timers-due_example :
    let p = process_timers (call once spent) 4 timers in
    (left : List TimerImpl) × (p.finished ≡ true)
    × (p.called ++ left ≡ first ∷ second ∷ [])
    × All (HasEnded once spent timers) p.called
    × Ends once spent timers p.called left
process_timers-due_example =
    process_timers-due once spent 4 timers (omega arith) (omega arith, (omega arith, tt))
      ((omega arith, tt), (tt, tt)) (omega arith)

schedule_timer-lookup_example :
    IsQueue (schedule_timer timers 3 9).0
    × ((k : ℕ)
        → find_timer (schedule_timer timers 3 9).0.queue k ≡ (
            if 3 == k
            then some (record { timer = 3; callback = 9 })
            else find_timer timers.queue k))
schedule_timer-lookup_example = schedule_timer-lookup timers 3 9 distinct

remove_timer-lookup_example :
    IsQueue (remove_timer timers 2).0
    × ((k : ℕ)
        → find_timer (remove_timer timers 2).0.queue k
          ≡ (if 2 == k then none else find_timer timers.queue k))
remove_timer-lookup_example = remove_timer-lookup timers 2 (((omega arith, tt), (tt, tt)), distinct)
