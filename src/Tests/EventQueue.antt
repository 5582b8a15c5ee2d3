-- ===== src/Tests/EventQueue.antt =====
-- The queue of yasio/impl/concurrent_queue.hpp on a short run.
use yasio.Base.{ℕ, ◌≡◌, List, [], ◌∷◌, ◌++◌}
use yasio.Base.Int.{pos}
use yasio.EventQueue.{DualQueue}
use yasio.EventQueue.Order.{Step, emplaces, consumes, pending, run, run-pending}

-- An event waits, and two are put in, with a call of consume for one event between them.
abbrev events : DualQueue ℕ
events = record { queue = []; deal = 1 ∷ [] }

abbrev steps : List (Step ℕ)
steps = emplaces 2 ∷ consumes (pos 1) ∷ emplaces 3 ∷ []

run-pending_example : (run events steps).0 ++ pending (run events steps).1 ≡ 1 ∷ 2 ∷ 3 ∷ []
run-pending_example = run-pending steps events

abbrev two_sides : DualQueue ℕ
two_sides = record { queue = 2 ∷ 3 ∷ []; deal = 1 ∷ [] }
