-- ===== src/SharedMutex/Wakeups.antt =====
-- The waits of shared_mutex of yasio/shared_mutex.hpp, and who is woken up.
use yasio.Base.{
  ℕ, suc, ◌+◌, ◌-◌, ◌%◌, ◌^◌, ◌≡◌, refl, ap, sym, ◌∙◌, Bool, true, false, not, ◌&&◌, ◌==◌, bit_and,
  Option, some, none, if◌then◌else◌, arith,
}
use yasio.SharedMutex.{
  n_readers, nobody, one_at_gate1, one_at_gate2, with_readers, lock_enters, lock_passes,
  lock_shared, unlock_shared,
}
use yasio.SharedMutex.Words.{
  IsWord, no_writer-word, no_readers-word, no_writer_no_max_readers-word, with_readers-word,
  reader_bits,
}

abbrev pub blocked : Option ℕ → Bool
blocked none = true
blocked (some state) = false

blocked-if : (b : Bool) (x : ℕ) → blocked (if b then some x else none) ≡ not b
blocked-if true x = refl
blocked-if false x = refl

module _ (state w r : ℕ) (word : IsWord state w r) where
  lock_enters-blocked : blocked (lock_enters state) ≡ not (w == 0)
  unfolding lock_enters
  lock_enters-blocked = blocked-if _ _ ∙ ap not (no_writer-word state w r word)

  lock_passes-blocked : blocked (lock_passes state) ≡ not (r == 0)
  unfolding lock_passes
  lock_passes-blocked = blocked-if _ _ ∙ ap not (no_readers-word state w r word)

  lock_shared-blocked : blocked (lock_shared state) ≡ not ((w == 0) && not (r == n_readers))
  unfolding lock_shared
  lock_shared-blocked = blocked-if _ _ ∙ ap not (no_writer_no_max_readers-word state w r word)

module _ (state w r : ℕ) (word : IsWord state w (suc r)) where
  one_less : (bit_and state n_readers + (2 ^ 32 - 1)) % 2 ^ 32 ≡ r
  one_less = rw (reader_bits state w (suc r) word) (omega (arith, word))

  with_less : IsWord (with_readers state r) w r
  with_less = with_readers-word state w (suc r) word r (omega (arith, word))

  left : IsWord (unlock_shared state).0 w r
  unfolding unlock_shared
  left = rw one_less with_less

  notice : (unlock_shared state).1 ≡ (
      if w == 0
      then (if r == n_readers - 1 then one_at_gate1 else nobody)
      else (if r == 0 then one_at_gate2 else nobody))
  unfolding unlock_shared
  notice = rw (one_less, no_writer-word (with_readers state r) w r with_less) refl

  -- A writer at the second gate that may go on only when a reader has left is woken up then.
  pub unlock_shared-wakes_writer :
      w ≡ 1
      → blocked (lock_passes (unlock_shared state).0) ≡ false
      → (unlock_shared state).1 ≡ one_at_gate2
  unlock_shared-wakes_writer e k =
      notice ∙ ground (arith, e, k, lock_passes-blocked (unlock_shared state).0 w r left)

  -- Where readers wait at the first gate, and may go on when a reader has left, there is room for one,
  -- and one is woken up.
  pub unlock_shared-wakes_reader :
      blocked (lock_shared state) ≡ true
      → blocked (lock_shared (unlock_shared state).0) ≡ false
      → ((unlock_shared state).1 ≡ one_at_gate1) × (suc r ≡ n_readers)
  unlock_shared-wakes_reader h k =
      let f = lock_shared-blocked state w (suc r) word in
      let g = lock_shared-blocked (unlock_shared state).0 w r left in
      (notice ∙ ground (arith, h, k, f, g), ground (arith, h, k, f, g))

  -- A writer at the first gate does not wait for a reader.
  pub unlock_shared-enters :
      blocked (lock_enters (unlock_shared state).0) ≡ blocked (lock_enters state)
  unlock_shared-enters =
      lock_enters-blocked (unlock_shared state).0 w r left
      ∙ sym (lock_enters-blocked state w (suc r) word)
