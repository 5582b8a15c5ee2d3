-- ===== src/Timers/Sorted.antt =====
-- sort_timers of yasio/io_service.hpp.
use yasio.Base.{ℕ, ◌≤◌, inl, inr, List, [], ◌∷◌, All, Bool-cases, leb, leb→le, leb_false→lt, arith}
use yasio.Timers.{Control, TimerImpl, insert_timer, sort_timers}

module _ (c : ℕ → Control) where
  -- The times at which the timers expire, in the order of the list.
  abbrev pub ends : TimerImpl → ℕ
  ends x = (c x.timer).expire_time

  abbrev pub IsSorted : List TimerImpl → Type 0
  IsSorted [] = Unit
  IsSorted (x ∷ xs) = All (λ y. ends x ≤ ends y) xs × IsSorted xs

  All-le :
      (a b : ℕ) (xs : List TimerImpl) → a ≤ b → All (λ y. b ≤ ends y) xs → All (λ y. a ≤ ends y) xs
  All-le a b [] h p = tt
  All-le a b (x ∷ xs) h (p, ps) = (omega (arith, p), All-le a b xs h ps)

  pub All-insert_timer {κ} :
      (P : TimerImpl → Type κ) (x : TimerImpl) (xs : List TimerImpl)
      → P x
      → All P xs
      → All P (insert_timer c x xs)
  unfolding insert_timer
  All-insert_timer P x [] h p = (h, tt)
  All-insert_timer P x (y ∷ ys) h (p, ps) = elim (Bool-cases (leb (ends x) (ends y))) [
    | inl q ↦ rw q (h, (p, ps))
    | inr q ↦ rw q (p, All-insert_timer P x ys h ps)
  ]

  pub All-sort_timers {κ} :
      (P : TimerImpl → Type κ) (xs : List TimerImpl) → All P xs → All P (sort_timers c xs)
  unfolding sort_timers
  All-sort_timers P [] p = tt
  All-sort_timers P (x ∷ xs) (h, p) =
      All-insert_timer P x (sort_timers c xs) h (All-sort_timers P xs p)

  insert_timer-IsSorted :
      (x : TimerImpl) (xs : List TimerImpl) → IsSorted xs → IsSorted (insert_timer c x xs)
  unfolding insert_timer
  insert_timer-IsSorted x [] s = (tt, tt)
  insert_timer-IsSorted x (y ∷ ys) (p, s) = elim (Bool-cases (leb (ends x) (ends y))) [
    | inl q ↦ rw q ((leb→le _ _ q, All-le (ends x) (ends y) ys (leb→le _ _ q) p), (p, s))
    | inr q ↦ rw q (
      All-insert_timer (λ z. ends y ≤ ends z) x ys (omega (arith, leb_false→lt _ _ q)) p,
      insert_timer-IsSorted x ys s,
    )
  ]

  pub sort_timers-IsSorted : (xs : List TimerImpl) → IsSorted (sort_timers c xs)
  unfolding sort_timers
  sort_timers-IsSorted [] = tt
  sort_timers-IsSorted (x ∷ xs) =
      insert_timer-IsSorted x (sort_timers c xs) (sort_timers-IsSorted xs)
