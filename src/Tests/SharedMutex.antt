-- ===== src/Tests/SharedMutex.antt =====
-- Two threads at a shared_mutex of yasio/shared_mutex.hpp.
use yasio.Base.{ℕ, ◌≡◌, inl, refl, List, [], ◌∷◌, ◌≢◌, All, arith}
use yasio.SharedMutex.{
  lock_shared, try_lock_shared, unlock_shared, no_writer_no_max_readers, with_readers,
}
use yasio.SharedMutex.Threads.{
  outside, Call, enters, passes, enters_shared, leaves_shared, run, IsSafe, run-IsSafe,
}
use yasio.SharedMutex.Guards.{
  Use, State, constructs, moves, constructs_try, releases, assigns, locks, destroys, done, throws,
  null_pointer, resource_deadlock_would_occur,
}
use yasio.SharedMutex.Guards.{run as run_guards}
use yasio.SharedMutex.Guards.Counted.{IsCounted, run-IsCounted}

-- A reader, and a writer that waits for it.
abbrev calls : List (ℕ × Call)
calls =
    (0, enters_shared)
    ∷ (1, enters)
    ∷ (1, passes)
    ∷ (0, leaves_shared)
    ∷ (1, passes)
    ∷ (0, enters_shared)
    ∷ []

run-IsSafe_example : IsSafe (run calls (outside ∷ outside ∷ [], 0))
run-IsSafe_example =
    run-IsSafe calls (outside ∷ outside ∷ []) 0 ((omega arith, omega arith, omega arith), inl refl)

-- A guard that locks mutex 7, a second that takes its lock over, a third that tries the same mutex and
-- releases it; the first goes.
abbrev guard_uses : List Use
guard_uses =
    constructs 7 ∷ moves 0 ∷ constructs_try 7 ∷ releases 0 ∷ assigns 2 1 ∷ locks 2 ∷ destroys 2 ∷ []

abbrev unlocked : State
unlocked = record { guards = []; released = []; memory = λ p. 0 }

run-IsCounted_example :
    All (λ a. a ≢ null_pointer) (run_guards guard_uses unlocked).0
    × IsCounted 7 0 (run_guards guard_uses unlocked).1
run-IsCounted_example =
    run-IsCounted 7 0 guard_uses unlocked ((omega arith, omega arith, omega arith), tt)

-- The second lock of a guard throws.
guards_answer :
    (run_guards guard_uses unlocked).0
    ≡ done ∷ done ∷ done ∷ done ∷ done ∷ throws resource_deadlock_would_occur ∷ done ∷ []
unfolding lock_shared try_lock_shared unlock_shared no_writer_no_max_readers with_readers
guards_answer = refl

-- What was released is left.
guards_leave : (run_guards guard_uses unlocked).1.released ≡ 7 ∷ []
unfolding lock_shared try_lock_shared unlock_shared no_writer_no_max_readers with_readers
guards_leave = refl
