-- ===== src/SharedMutex/Guards/Counted.antt =====
-- What users of guards of yasio/shared_mutex.hpp come to: each shared lock is of one guard, or released.
use yasio.Base.{
  inl, inr, ℕ, ◌+◌, ◌<◌, ◌≡◌, ◌≢◌, refl, List, [], ◌∷◌, Bool, true, false, length, if_cases, Option,
  some, none, All, arith,
}
use yasio.Base.Counts.{count, count-removed}
use yasio.SharedMutex.Words.{IsWord}
use yasio.SharedMutex.Guards.{
  Memory, SharedLock, Answer, done, waits, null_pointer, throws, empty, guard, construct,
  construct_try, let_go, lock, try_lock, unlock, at, put_guard, State, Use, perform, step, run,
  added, set, released_to, assigned, emptied, is_usable, constructs, constructs_deferred,
  constructs_try, adopts, destroys, locks, tries, unlocks, releases, moves, assigns, swaps,
}
use yasio.SharedMutex.Guards.Shares.{
  IsGuard, share, shares, Keeps, Loses, construct-Keeps, construct_try-Keeps, let_go-Loses,
  lock-Keeps, try_lock-Keeps, unlock-Keeps,
}
use yasio.SharedMutex.Guards.Places.{
  at-IsGuard, put_guard-All, shares-put_guard, shares-move_assign, shares-swap,
}

module _ (m w : ℕ) where
  -- The word of the mutex counts the guards that own it, and the shared locks that guards have released.
  abbrev pub IsCounted : State → Type 0
  IsCounted s =
      IsWord (s.memory m) w (shares m s.guards + count m s.released) × All IsGuard s.guards

  -- Nothing goes through a null pointer, and the count is right.
  abbrev IsFine : Answer × State → Type 0
  IsFine (a, s) = (a ≢ null_pointer) × IsCounted s

  -- What is left when the guard at a place does not count.
  abbrev others : ℕ → State → ℕ
  others i s = shares m (put_guard i empty s.guards) + count m s.released

  before :
      (i : ℕ) (s : State)
      → i < length s.guards
      → IsCounted s
      → Keeps m w (others i s) (done, at i s.guards, s.memory)
  before i s h (word, sound) = (
    ground (arith, word, shares-put_guard m i empty s.guards h),
    at-IsGuard i s.guards sound,
    λ e. absurd (ground (arith, e)),
  )

  set-IsFine :
      (i : ℕ) (s : State) (x : Answer × SharedLock × Memory)
      → i < length s.guards
      → IsCounted s
      → Keeps m w (others i s) x
      → IsFine (set i s x)
  set-IsFine i s (a, g, memory) h (word, sound) (word', sound', n) = (
    n,
    (
      ground
          (arith, word', shares-put_guard m i empty s.guards h, shares-put_guard m i g s.guards h),
      put_guard-All i g s.guards sound' sound,
    ),
  )

  added-IsFine :
      (s : State) (x : Answer × SharedLock × Memory)
      → IsCounted s
      → Keeps m w (shares m s.guards + count m s.released) x
      → IsFine (added s x)
  added-IsFine s (done, g, memory) (word, sound) (word', sound', n) =
      (n, (ground (arith, word'), (sound', sound)))
  added-IsFine s (waits, g, memory) counted (word', sound', n) = (n, counted)
  added-IsFine s (null_pointer, g, memory) counted (word', sound', n) = absurd (n refl)
  added-IsFine s (throws e, g, memory) counted (word', sound', n) = (n, counted)

  let_go-Keeps :
      (g : SharedLock) (r : ℕ) (memory : Memory)
      → Keeps m w r (done, g, memory)
      → Loses m w r (let_go g memory)
  let_go-Keeps g r memory k = let_go-Loses m w g.pmtx g.owns r memory k

  emptied-Keeps : (r : ℕ) (x : Answer × Memory) → Loses m w r x → Keeps m w r (emptied x)
  emptied-Keeps r (a, memory) (word, n) = (ground (arith, word), inl refl, n)

  -- The guard's share goes to the user.
  share-released_to :
      (o : Option ℕ) (b : Bool) (ps : List ℕ)
      → IsGuard (record { pmtx = o; owns = b })
      → count m (released_to ps (record { pmtx = o; owns = b }))
        ≡ count m ps + share m (record { pmtx = o; owns = b })
  share-released_to none true ps (inl e) = absurd (ground (arith, e))
  share-released_to none true ps (inr n) = absurd (n refl)
  share-released_to none false ps h = omega arith
  share-released_to (some p) true ps h = ground arith
  share-released_to (some p) false ps h = omega arith

  assigned-IsFine :
      (i j : ℕ) (s : State) (x : Answer × Memory)
      → i < length s.guards
      → j < length s.guards
      → IsCounted s
      → Loses m w (others i s) x
      → IsFine (assigned i j s x)
  assigned-IsFine i j s (a, memory) hi hj (word, sound) (word', n) = (
    n,
    (
      ground (arith, word', shares-move_assign m i j s.guards hi hj),
      put_guard-All j empty _ (inl refl)
          (put_guard-All i _ s.guards (at-IsGuard j s.guards sound) sound),
    ),
  )

  -- What a guard at a place does.
  on-IsFine :
      (i : ℕ) (s : State) (f : SharedLock → Memory → Answer × SharedLock × Memory)
      → ((r : ℕ)
          → Keeps m w r (done, at i s.guards, s.memory)
          → Keeps m w r (f (at i s.guards) s.memory))
      → i < length s.guards
      → IsCounted s
      → IsFine (set i s (f (at i s.guards) s.memory))
  on-IsFine i s f keeps h c =
      set-IsFine i s (f (at i s.guards) s.memory) h c (keeps (others i s) (before i s h c))

  perform-IsFine : (u : Use) (s : State) → is_usable u s ≡ true → IsCounted s → IsFine (perform u s)
  perform-IsFine (constructs p) s h c =
      added-IsFine s (construct p s.memory) c (construct-Keeps m w p _ s.memory c.0)
  perform-IsFine (constructs_deferred p) s h c =
      added-IsFine s (done, guard p false, s.memory) c
        (ground (arith, c), inl refl, λ e. absurd (ground (arith, e)))
  perform-IsFine (constructs_try p) s h c =
      added-IsFine s (construct_try p s.memory) c (construct_try-Keeps m w p _ s.memory c.0)
  perform-IsFine (adopts p) s h (word, sound) = (
    λ e. absurd (ground (arith, e)),
    (
      ground (arith, word, count-removed p m s.released (ground (arith, h))),
      (inr (λ e. absurd (ground (arith, e))), sound),
    ),
  )
  perform-IsFine (destroys i) s h c =
      on-IsFine i s (λ g memory. emptied (let_go g memory))
        (λ r k.
          emptied-Keeps r (let_go (at i s.guards) s.memory)
            (let_go-Keeps (at i s.guards) r s.memory k))
        (ground (arith, h)) c
  perform-IsFine (locks i) s h c =
      on-IsFine i s lock (λ r. lock-Keeps m w (at i s.guards).pmtx (at i s.guards).owns r s.memory)
        (ground (arith, h)) c
  perform-IsFine (tries i) s h c =
      on-IsFine i s try_lock
        (λ r. try_lock-Keeps m w (at i s.guards).pmtx (at i s.guards).owns r s.memory)
        (ground (arith, h)) c
  perform-IsFine (unlocks i) s h c =
      on-IsFine i s unlock
        (λ r. unlock-Keeps m w (at i s.guards).pmtx (at i s.guards).owns r s.memory)
        (ground (arith, h)) c
  perform-IsFine (releases i) s h (word, sound) = (
    λ e. absurd (ground (arith, e)),
    (
      ground (
        arith,
        word,
        shares-put_guard m i empty s.guards (ground (arith, h)),
        share-released_to (at i s.guards).pmtx (at i s.guards).owns s.released
            (at-IsGuard i s.guards sound),
      ),
      put_guard-All i empty s.guards (inl refl) sound,
    ),
  )
  perform-IsFine (moves i) s h (word, sound) = (
    λ e. absurd (ground (arith, e)),
    (
      ground (arith, word, shares-put_guard m i empty s.guards (ground (arith, h))),
      (at-IsGuard i s.guards sound, put_guard-All i empty s.guards (inl refl) sound),
    ),
  )
  perform-IsFine (assigns i j) s h c =
      assigned-IsFine i j s (let_go (at i s.guards) s.memory) (ground (arith, h))
        (ground (arith, h)) c
        (let_go-Keeps (at i s.guards) (others i s) s.memory (before i s (ground (arith, h)) c))
  perform-IsFine (swaps i j) s h (word, sound) = (
    λ e. absurd (ground (arith, e)),
    (
      ground (arith, word, shares-swap m i j s.guards (ground (arith, h)) (ground (arith, h))),
      put_guard-All j _ _ (at-IsGuard i s.guards sound)
          (put_guard-All i _ s.guards (at-IsGuard j s.guards sound) sound),
    ),
  )

  step-IsFine : (u : Use) (s : State) → IsCounted s → IsFine (step u s)
  step-IsFine u s c =
      if_cases IsFine (is_usable u s) _ _ (λ h. perform-IsFine u s h c)
        (λ h. (λ e. absurd (ground (arith, e)), c))

  -- Whatever users do with guards, no guard goes through a pointer that is null, and the word of a mutex
  -- is, but for its write bit, the number of the guards that own it and of the shared locks that guards
  -- have released: each shared lock is given back once, by the last guard it was moved to.
  pub run-IsCounted :
      (us : List Use) (s : State)
      → IsCounted s
      → All (λ a. a ≢ null_pointer) (run us s).0 × IsCounted (run us s).1
  run-IsCounted [] s c = (tt, c)
  run-IsCounted (u ∷ us) s c =
      let (n, c') = step-IsFine u s c in
      let (ns, c'') = run-IsCounted us (step u s).1 c' in ((n, ns), c'')
