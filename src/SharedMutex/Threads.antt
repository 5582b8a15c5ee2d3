-- ===== src/SharedMutex/Threads.antt =====
-- Threads that share one shared_mutex of yasio/shared_mutex.hpp.
use yasio.Base.{
  ℕ, zero, suc, ◌⊎◌, ◌+◌, ◌-◌, ◌%◌, ◌^◌, ◌≤◌, ◌≡◌, ap, List, [], ◌∷◌, Bool, true, false, not, ◌&&◌,
  ◌==◌, if_cases, bit_and, Option, some, none, arith,
}
use yasio.SharedMutex.{
  n_readers, with_readers, lock_enters, lock_passes, try_lock, unlock, lock_shared, try_lock_shared,
  unlock_shared,
}
use yasio.SharedMutex.Words.{
  IsWord, no_writer-word, no_readers-word, no_writer_no_readers-word, no_writer_no_max_readers-word,
  with_readers-word, write_entered-word, reader_bits,
}

-- Where a thread is: `entered` has the write bit, and waits for the readers at the second gate.
pub data Phase : Type 0 where
  outside entered exclusive shared : Phase

-- What a thread does. A call of lock is `enters` and `passes`.
pub data Call : Type 0 where
  enters passes tries leaves enters_shared tries_shared leaves_shared : Call

abbrev pub waits : Phase → ℕ → Phase → Option ℕ → Phase × ℕ
waits p state q none = (p, state)
waits p state q (some state') = (q, state')

abbrev pub tried : Phase → Bool × ℕ → Phase × ℕ
tried q (true, state) = (q, state)
tried q (false, state) = (outside, state)

-- A thread that waits stays where it is, and one unlocks only what it has locked.
abbrev pub call : Call → Phase → ℕ → Phase × ℕ
call enters outside state = waits outside state entered (lock_enters state)
call enters entered state = (entered, state)
call enters exclusive state = (exclusive, state)
call enters shared state = (shared, state)
call passes outside state = (outside, state)
call passes entered state = waits entered state exclusive (lock_passes state)
call passes exclusive state = (exclusive, state)
call passes shared state = (shared, state)
call tries outside state = tried exclusive (try_lock state)
call tries entered state = (entered, state)
call tries exclusive state = (exclusive, state)
call tries shared state = (shared, state)
call leaves outside state = (outside, state)
call leaves entered state = (entered, state)
call leaves exclusive state = (outside, (unlock state).0)
call leaves shared state = (shared, state)
call enters_shared outside state = waits outside state shared (lock_shared state)
call enters_shared entered state = (entered, state)
call enters_shared exclusive state = (exclusive, state)
call enters_shared shared state = (shared, state)
call tries_shared outside state = tried shared (try_lock_shared state)
call tries_shared entered state = (entered, state)
call tries_shared exclusive state = (exclusive, state)
call tries_shared shared state = (shared, state)
call leaves_shared outside state = (outside, state)
call leaves_shared entered state = (entered, state)
call leaves_shared exclusive state = (exclusive, state)
call leaves_shared shared state = (outside, (unlock_shared state).0)

-- The thread at a place calls, if there is one.
abbrev pub act : ℕ → Call → List Phase × ℕ → List Phase × ℕ
act i c ([], state) = ([], state)
act zero c (p ∷ ps, state) = let (p', state') = call c p state in (p' ∷ ps, state')
act (suc i) c (p ∷ ps, state) = let (ps', state') = act i c (ps, state) in (p ∷ ps', state')

abbrev pub run : List (ℕ × Call) → List Phase × ℕ → List Phase × ℕ
run [] s = s
run ((i, c) ∷ xs) s = run xs (act i c s)

-- What a thread counts for: the write bit, the lock, and a shared lock.
abbrev pub writes : Phase → ℕ
writes outside = 0
writes entered = 1
writes exclusive = 1
writes shared = 0

abbrev pub excludes : Phase → ℕ
excludes outside = 0
excludes entered = 0
excludes exclusive = 1
excludes shared = 0

abbrev pub reads : Phase → ℕ
reads outside = 0
reads entered = 0
reads exclusive = 0
reads shared = 1

abbrev pub total : (Phase → ℕ) → List Phase → ℕ
total f [] = 0
total f (p ∷ ps) = f p + total f ps

-- The word says how many there are, and who has the lock alone is alone.
abbrev pub IsShared : ℕ → ℕ → ℕ → ℕ → Type 0
IsShared state w x r = IsWord state w r × ((x ≡ 0) ⊎ (r ≡ 0))

abbrev Keeps : ℕ → ℕ → ℕ → Phase × ℕ → Type 0
Keeps w x r (p, state) = IsShared state (w + writes p) (x + excludes p) (r + reads p)

module _ (state w x r : ℕ) (le : x ≤ w) where
  enters-Keeps :
      Keeps w x r (outside, state) → Keeps w x r (waits outside state entered (lock_enters state))
  unfolding lock_enters
  enters-Keeps (word, alone) = rw (no_writer-word state (w + 0) (r + 0) word) (
      if_cases (λ o. Keeps w x r (waits outside state entered o)) (w + 0 == 0) _ _
        (λ e.
          ground (
            arith,
            e,
            le,
            alone,
            write_entered-word state (w + 0) (r + 0) word (ground (arith, e)),
          ))
        (λ e. (word, alone)))

  passes-Keeps :
      Keeps w x r (entered, state) → Keeps w x r (waits entered state exclusive (lock_passes state))
  unfolding lock_passes
  passes-Keeps (word, alone) = rw (no_readers-word state (w + 1) (r + 0) word) (
      if_cases (λ o. Keeps w x r (waits entered state exclusive o)) (r + 0 == 0) _ _
        (λ e. ground (arith, e, le, word)) (λ e. (word, alone)))

  tries-Keeps : Keeps w x r (outside, state) → Keeps w x r (tried exclusive (try_lock state))
  unfolding try_lock
  tries-Keeps (word, alone) = rw (no_writer_no_readers-word state (w + 0) (r + 0) word) (
      if_cases (λ o. Keeps w x r (tried exclusive o)) (not ((w + 0 == 0) && (r + 0 == 0))) _ _
        (λ e. (word, alone)) (λ e. ground (arith, e, le, word)))

  leaves-Keeps : Keeps w x r (exclusive, state) → Keeps w x r (outside, (unlock state).0)
  leaves-Keeps (word, alone) = ground (arith, word, le, alone)

  -- A reader more, where neither a writer nor the most readers are.
  one_more :
      Keeps w x r (outside, state)
      → not ((w + 0 == 0) && not (r + 0 == n_readers)) ≡ false
      → Keeps w x r (shared, with_readers state (bit_and state n_readers + 1))
  one_more (word, alone) e = rw (reader_bits state (w + 0) (r + 0) word) (
      ground (
        arith,
        e,
        le,
        alone,
        word,
        with_readers-word state (w + 0) (r + 0) word (r + 0 + 1) (ground (arith, e, word)),
      ))

  enters_shared-Keeps :
      Keeps w x r (outside, state) → Keeps w x r (waits outside state shared (lock_shared state))
  unfolding lock_shared
  enters_shared-Keeps k = rw (no_writer_no_max_readers-word state (w + 0) (r + 0) k.0) (
      if_cases (λ o. Keeps w x r (waits outside state shared o))
        ((w + 0 == 0) && not (r + 0 == n_readers)) _ _ (λ e. one_more k (ap not e)) (λ e. k))

  tries_shared-Keeps :
      Keeps w x r (outside, state) → Keeps w x r (tried shared (try_lock_shared state))
  unfolding try_lock_shared
  tries_shared-Keeps k = rw (no_writer_no_max_readers-word state (w + 0) (r + 0) k.0) (
      if_cases (λ o. Keeps w x r (tried shared o)) (not ((w + 0 == 0) && not (r + 0 == n_readers)))
        _ _ (λ e. k) (λ e. one_more k e))

  leaves_shared-Keeps : Keeps w x r (shared, state) → Keeps w x r (outside, (unlock_shared state).0)
  unfolding unlock_shared with_readers
  leaves_shared-Keeps (word, alone) = rw (reader_bits state (w + 0) (r + 1) word) (
      ground (
        arith,
        word,
        alone,
        with_readers-word state (w + 0) (r + 1) word ((r + 1 + (2 ^ 32 - 1)) % 2 ^ 32)
            (omega (arith, word)),
      ))

call-Keeps :
    (c : Call) (p : Phase) (state w x r : ℕ)
    → x ≤ w
    → Keeps w x r (p, state)
    → Keeps w x r (call c p state)
call-Keeps enters outside state w x r le h = enters-Keeps state w x r le h
call-Keeps enters entered state w x r le h = h
call-Keeps enters exclusive state w x r le h = h
call-Keeps enters shared state w x r le h = h
call-Keeps passes outside state w x r le h = h
call-Keeps passes entered state w x r le h = passes-Keeps state w x r le h
call-Keeps passes exclusive state w x r le h = h
call-Keeps passes shared state w x r le h = h
call-Keeps tries outside state w x r le h = tries-Keeps state w x r le h
call-Keeps tries entered state w x r le h = h
call-Keeps tries exclusive state w x r le h = h
call-Keeps tries shared state w x r le h = h
call-Keeps leaves outside state w x r le h = h
call-Keeps leaves entered state w x r le h = h
call-Keeps leaves exclusive state w x r le h = leaves-Keeps state w x r le h
call-Keeps leaves shared state w x r le h = h
call-Keeps enters_shared outside state w x r le h = enters_shared-Keeps state w x r le h
call-Keeps enters_shared entered state w x r le h = h
call-Keeps enters_shared exclusive state w x r le h = h
call-Keeps enters_shared shared state w x r le h = h
call-Keeps tries_shared outside state w x r le h = tries_shared-Keeps state w x r le h
call-Keeps tries_shared entered state w x r le h = h
call-Keeps tries_shared exclusive state w x r le h = h
call-Keeps tries_shared shared state w x r le h = h
call-Keeps leaves_shared outside state w x r le h = h
call-Keeps leaves_shared entered state w x r le h = h
call-Keeps leaves_shared exclusive state w x r le h = h
call-Keeps leaves_shared shared state w x r le h = leaves_shared-Keeps state w x r le h

total-le : (ps : List Phase) → total excludes ps ≤ total writes ps
total-le [] = omega arith
total-le (outside ∷ ps) = omega (arith, total-le ps)
total-le (entered ∷ ps) = omega (arith, total-le ps)
total-le (exclusive ∷ ps) = omega (arith, total-le ps)
total-le (shared ∷ ps) = omega (arith, total-le ps)

one-le : (p : Phase) → excludes p ≤ writes p
one-le outside = omega arith
one-le entered = omega arith
one-le exclusive = omega arith
one-le shared = omega arith

abbrev KeepsAll : ℕ → ℕ → ℕ → List Phase × ℕ → Type 0
KeepsAll w x r (ps, state) =
    IsShared state (w + total writes ps) (x + total excludes ps) (r + total reads ps)

act-KeepsAll :
    (i : ℕ) (c : Call) (ps : List Phase) (state w x r : ℕ)
    → x ≤ w
    → KeepsAll w x r (ps, state)
    → KeepsAll w x r (act i c (ps, state))
act-KeepsAll zero c [] state w x r le h = h
act-KeepsAll (suc i) c [] state w x r le h = h
act-KeepsAll zero c (p ∷ ps) state w x r le h = ground (
  arith,
  call-Keeps c p state (w + total writes ps) (x + total excludes ps) (r + total reads ps)
      (omega (arith, le, total-le ps)) (ground (arith, h)),
)
act-KeepsAll (suc i) c (p ∷ ps) state w x r le h = ground (
  arith,
  act-KeepsAll i c ps state (w + writes p) (x + excludes p) (r + reads p)
      (omega (arith, le, one-le p)) (ground (arith, h)),
)

-- What holds of the threads and the word from the start on.
abbrev pub IsSafe : List Phase × ℕ → Type 0
IsSafe (ps, state) = IsShared state (total writes ps) (total excludes ps) (total reads ps)

-- Whatever the threads call, in whatever order: at most one has the lock alone or is about to, and
-- while one has it alone, none has a shared lock; the word of the mutex is the number of those that
-- share it, with the write bit where one has it alone or is about to.
pub run-IsSafe :
    (xs : List (ℕ × Call)) (ps : List Phase) (state : ℕ)
    → IsSafe (ps, state)
    → IsSafe (run xs (ps, state))
run-IsSafe [] ps state h = h
run-IsSafe ((i, c) ∷ xs) ps state h =
    let (ps', state') = act i c (ps, state) in
    run-IsSafe xs ps' state'
      (ground (arith, act-KeepsAll i c ps state 0 0 0 (omega arith) (ground (arith, h))))
