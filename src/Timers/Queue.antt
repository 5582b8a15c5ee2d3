-- ===== src/Timers/Queue.antt =====
-- schedule_timer and remove_timer of yasio/io_service.cpp: the queue as a map from timers to their
-- callbacks.
use yasio.Base.{
  eq_of_test, ℕ, ◌≡◌, inl, inr, refl, subst, ◌∙◌, List, ◌∷◌, All, Bool-cases, ◌==◌, if◌then◌else◌,
  some, none,
}
use yasio.Timers.{
  TimerImpl, Timers, find_timer, replace_callback, erase_timer, found, schedule_timer, remove_timer,
}
use yasio.Timers.Sorted.{IsSorted, sort_timers-IsSorted}
use yasio.Timers.Lookup.{
  find_timer-Apart, not_found, replace_callback-IsDistinct, erase_timer-IsDistinct,
  replace_callback-find, erase_timer-find, Apart, IsDistinct, sort_timers-find,
  sort_timers-IsDistinct,
}

-- What the queue must be between two operations.
abbrev pub IsQueue : Timers → Type 0
IsQueue s = IsSorted s.control s.queue × IsDistinct s.queue

-- Where each timer is in the queue at most once, `schedule_timer` binds the timer to its callback,
-- whether it was in the queue or not, and leaves every other timer the one it had; the queue is
-- sorted after it, with each timer in it at most once.
pub schedule_timer-lookup :
    (s : Timers) (t cb : ℕ)
    → IsDistinct s.queue
    → IsQueue (schedule_timer s t cb).0
      × ((k : ℕ)
          → find_timer (schedule_timer s t cb).0.queue k
            ≡ (if t == k then some (record { timer = t; callback = cb }) else find_timer s.queue k))
unfolding schedule_timer find_timer
schedule_timer-lookup s t cb d = elim (Bool-cases (found (find_timer s.queue t))) [
  | inl q ↦ rw q (
    (
      sort_timers-IsSorted s.control (replace_callback s.queue t cb),
      sort_timers-IsDistinct s.control (replace_callback s.queue t cb)
          (replace_callback-IsDistinct s.queue t cb d),
    ),
    λ k.
        sort_timers-find s.control (replace_callback s.queue t cb) k
          (replace_callback-IsDistinct s.queue t cb d)
        ∙ replace_callback-find s.queue t cb k q,
  )
  | inr q ↦ rw q (
    (
      sort_timers-IsSorted s.control (record { timer = t; callback = cb } ∷ s.queue),
      sort_timers-IsDistinct s.control (record { timer = t; callback = cb } ∷ s.queue)
          (not_found s.queue t q, d),
    ),
    λ k.
        sort_timers-find s.control (record { timer = t; callback = cb } ∷ s.queue) k
          (not_found s.queue t q, d),
  )
]

absent :
    (xs : List TimerImpl) (t k : ℕ)
    → All (Apart t) xs
    → find_timer xs k ≡ (if t == k then none else find_timer xs k)
absent xs t k a = elim (Bool-cases (t == k)) [
  | inl p ↦ rw p (find_timer-Apart xs k (subst (λ (n : ℕ). All (Apart n) xs) (eq_of_test t k p) a))
  | inr p ↦ rw p refl
]

-- From a sorted queue that has each timer at most once, `remove_timer` takes the timer out and no
-- other, and the queue stays as it was in this.
pub remove_timer-lookup :
    (s : Timers) (t : ℕ)
    → IsQueue s
    → IsQueue (remove_timer s t).0
      × ((k : ℕ)
          → find_timer (remove_timer s t).0.queue k
            ≡ (if t == k then none else find_timer s.queue k))
unfolding remove_timer
remove_timer-lookup s t (o, d) = elim (Bool-cases (found (find_timer s.queue t))) [
  | inl q ↦ rw q (
    (
      sort_timers-IsSorted s.control (erase_timer s.queue t),
      sort_timers-IsDistinct s.control (erase_timer s.queue t) (erase_timer-IsDistinct s.queue t d),
    ),
    λ k.
        sort_timers-find s.control (erase_timer s.queue t) k (erase_timer-IsDistinct s.queue t d)
        ∙ erase_timer-find s.queue t k d,
  )
  | inr q ↦ rw q ((o, d), λ k. absent s.queue t k (not_found s.queue t q))
]
