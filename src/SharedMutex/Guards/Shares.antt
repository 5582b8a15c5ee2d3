-- ===== src/SharedMutex/Guards/Shares.antt =====
-- The shared locks that the guards of yasio/shared_mutex.hpp own, and the word of the mutex.
use yasio.Base.{
  ◌⊎◌, inl, inr, ℕ, suc, ◌+◌, ◌-◌, ◌%◌, ◌^◌, ◌≡◌, ◌≢◌, refl, sym, subst, List, [], ◌∷◌, Bool, true,
  false, not, ◌&&◌, ◌==◌, if_cases, bit_and, Option, some, none, arith,
}
use yasio.Base.Counts.{count}
use yasio.SharedMutex.{n_readers, with_readers, lock_shared, try_lock_shared, unlock_shared}
use yasio.SharedMutex.Words.{IsWord, no_writer_no_max_readers-word, with_readers-word, reader_bits}
use yasio.SharedMutex.Guards.{
  Memory, SharedLock, Answer, done, null_pointer, guard, entered, tried, unlock_at, construct,
  construct_try, let_go, lock, try_lock, unlock,
}

-- A guard that owns a lock has a mutex.
abbrev pub IsGuard : SharedLock → Type 0
IsGuard g = (g.owns ≡ false) ⊎ (g.pmtx ≢ none)

module _ (m : ℕ) where
  -- What a guard has of the mutex `m`.
  abbrev share_of : Option ℕ → Bool → ℕ
  share_of none b = 0
  share_of (some p) false = 0
  share_of (some p) true = count m (p ∷ [])

  abbrev pub share : SharedLock → ℕ
  share g = share_of g.pmtx g.owns

  abbrev pub shares : List SharedLock → ℕ
  shares [] = 0
  shares (g ∷ gs) = share g + shares gs

module _ (m w : ℕ) where
  -- A reader more for the word, where the mutex lets one in.
  abbrev Gains : ℕ → Option ℕ → Type 0
  Gains r none = Unit
  Gains r (some state) = IsWord state w (suc r)

  one_more :
      (state r : ℕ)
      → IsWord state w r
      → ((w == 0) && not (r == n_readers)) ≡ true
      → IsWord (with_readers state (bit_and state n_readers + 1)) w (suc r)
  one_more state r word e =
      rw (reader_bits state w r word) (
        ground (arith, e, word, with_readers-word state w r word (r + 1) (ground (arith, e, word))))

  lock_shared-Gains : (state r : ℕ) → IsWord state w r → Gains r (lock_shared state)
  unfolding lock_shared
  lock_shared-Gains state r word = rw (no_writer_no_max_readers-word state w r word) (
      if_cases (Gains r) ((w == 0) && not (r == n_readers)) _ _ (λ e. one_more state r word e)
        (λ e. tt))

  one_less : (state r : ℕ) → IsWord state w (suc r) → IsWord (unlock_shared state).0 w r
  unfolding unlock_shared
  one_less state r word = rw (reader_bits state w (suc r) word) (
      ground (
        arith,
        word,
        with_readers-word state w (suc r) word ((suc r + (2 ^ 32 - 1)) % 2 ^ 32)
            (omega (arith, word)),
      ))

  -- The word counts the readers that are not the guard's, and those that are.
  abbrev pub Keeps : ℕ → Answer × SharedLock × Memory → Type 0
  Keeps r (a, g, memory) = IsWord (memory m) w (r + share m g) × IsGuard g × (a ≢ null_pointer)

  entered-Keeps :
      (p r : ℕ) (memory : Memory) (o : Option ℕ)
      → IsWord (memory m) w r
      → (p ≡ m → Gains r o)
      → Keeps r (entered p memory o)
  entered-Keeps p r memory none word gains =
      (ground (arith, word), inl refl, λ e. absurd (ground (arith, e)))
  entered-Keeps p r memory (some state) word gains = (
    ground (arith, word, gains),
    inr (λ e. absurd (ground (arith, e))),
    λ e. absurd (ground (arith, e)),
  )

  pub construct-Keeps :
      (p r : ℕ) (memory : Memory) → IsWord (memory m) w r → Keeps r (construct p memory)
  construct-Keeps p r memory word =
      entered-Keeps p r memory (lock_shared (memory p)) word
        (λ e. lock_shared-Gains (memory p) r (subst (λ k. IsWord (memory k) w r) (sym e) word))

  -- The same of a try that may fail.
  abbrev Tries : ℕ → Bool × ℕ → Type 0
  Tries r (true, state) = IsWord state w (suc r)
  Tries r (false, state) = IsWord state w r

  try_lock_shared-Tries : (state r : ℕ) → IsWord state w r → Tries r (try_lock_shared state)
  unfolding try_lock_shared
  try_lock_shared-Tries state r word = rw (no_writer_no_max_readers-word state w r word) (
      if_cases (Tries r) (not ((w == 0) && not (r == n_readers))) _ _ (λ e. word)
        (λ e. one_more state r word (ground (arith, e))))

  tried-Keeps :
      (p r : ℕ) (memory : Memory) (o : Bool × ℕ)
      → IsWord (memory m) w r
      → (p ≡ m → Tries r o)
      → Keeps r (tried p memory o)
  tried-Keeps p r memory (true, state) word tries = (
    ground (arith, word, tries),
    inr (λ e. absurd (ground (arith, e))),
    λ e. absurd (ground (arith, e)),
  )
  tried-Keeps p r memory (false, state) word tries =
      (ground (arith, word, tries), inl refl, λ e. absurd (ground (arith, e)))

  pub construct_try-Keeps :
      (p r : ℕ) (memory : Memory) → IsWord (memory m) w r → Keeps r (construct_try p memory)
  construct_try-Keeps p r memory word =
      tried-Keeps p r memory (try_lock_shared (memory p)) word
        (λ e. try_lock_shared-Tries (memory p) r (subst (λ k. IsWord (memory k) w r) (sym e) word))

  -- One share less.
  abbrev pub Loses : ℕ → Answer × Memory → Type 0
  Loses r (a, memory) = IsWord (memory m) w r × (a ≢ null_pointer)

  unlock_at-Loses :
      (p r : ℕ) (memory : Memory)
      → IsWord (memory m) w (r + share m (guard p true))
      → Loses r (unlock_at (some p) memory)
  unlock_at-Loses p r memory word = (
    if_cases (λ k. IsWord k w r) (p == m) _ _
        (λ e. one_less (memory p) r (
          subst (λ k. IsWord (memory k) w (suc r)) {x = m} {y = p} (ground (arith, e))
            (ground (arith, e, word))))
        (λ e. ground (arith, e, word)),
    λ e. absurd (ground (arith, e)),
  )

  pub let_go-Loses :
      (o : Option ℕ) (b : Bool) (r : ℕ) (memory : Memory)
      → Keeps r (done, record { pmtx = o; owns = b }, memory)
      → Loses r (let_go (record { pmtx = o; owns = b }) memory)
  let_go-Loses none true r memory (word, inl e, n) = absurd (ground (arith, e))
  let_go-Loses none true r memory (word, inr e, n) = absurd (e refl)
  let_go-Loses none false r memory (word, sound, n) = (ground (arith, word), n)
  let_go-Loses (some p) true r memory (word, sound, n) = unlock_at-Loses p r memory word
  let_go-Loses (some p) false r memory (word, sound, n) = (ground (arith, word), n)

  pub lock-Keeps :
      (o : Option ℕ) (b : Bool) (r : ℕ) (memory : Memory)
      → Keeps r (done, record { pmtx = o; owns = b }, memory)
      → Keeps r (lock (record { pmtx = o; owns = b }) memory)
  lock-Keeps none b r memory (word, sound, n) = (word, sound, λ e. absurd (ground (arith, e)))
  lock-Keeps (some p) true r memory (word, sound, n) =
      (word, sound, λ e. absurd (ground (arith, e)))
  lock-Keeps (some p) false r memory (word, sound, n) =
      construct-Keeps p r memory (ground (arith, word))

  pub try_lock-Keeps :
      (o : Option ℕ) (b : Bool) (r : ℕ) (memory : Memory)
      → Keeps r (done, record { pmtx = o; owns = b }, memory)
      → Keeps r (try_lock (record { pmtx = o; owns = b }) memory)
  try_lock-Keeps none b r memory (word, sound, n) = (word, sound, λ e. absurd (ground (arith, e)))
  try_lock-Keeps (some p) true r memory (word, sound, n) =
      (word, sound, λ e. absurd (ground (arith, e)))
  try_lock-Keeps (some p) false r memory (word, sound, n) =
      construct_try-Keeps p r memory (ground (arith, word))

  pub unlock-Keeps :
      (o : Option ℕ) (b : Bool) (r : ℕ) (memory : Memory)
      → Keeps r (done, record { pmtx = o; owns = b }, memory)
      → Keeps r (unlock (record { pmtx = o; owns = b }) memory)
  unlock-Keeps none b r memory (word, sound, n) = (word, sound, λ e. absurd (ground (arith, e)))
  unlock-Keeps (some p) true r memory (word, sound, n) =
      let (word', n') = unlock_at-Loses p r memory word in (ground (arith, word'), inl refl, n')
  unlock-Keeps (some p) false r memory (word, sound, n) =
      (word, sound, λ e. absurd (ground (arith, e)))
