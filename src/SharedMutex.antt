-- ===== src/SharedMutex.antt =====
-- shared_mutex of yasio/shared_mutex.hpp. Each operation holds `mut_` while it runs, so it is one step
-- here; `lock` waits twice, and is two steps. A step that waits gives none.
pub mod Words
pub mod Threads
pub mod Wakeups
pub mod Guards
use yasio.Base.{
  ℕ, zero, suc, ◌+◌, ◌-◌, ◌%◌, ◌^◌, Bool, true, false, not, ◌&&◌, ◌==◌, ltb, bit_and, bit_or,
  Option, some, none, if◌then◌else◌,
}

abbrev pub write_entered : ℕ
write_entered = 2 ^ 31

abbrev pub n_readers : ℕ
n_readers = 2 ^ 31 - 1

unfoldable pub no_writer : ℕ → Bool
no_writer state = bit_and state write_entered == 0

pub no_writer_no_readers : ℕ → Bool
no_writer_no_readers state = state == 0

unfoldable pub no_writer_no_max_readers : ℕ → Bool
no_writer_no_max_readers state =
    (bit_and state write_entered == 0) && not (bit_and state n_readers == n_readers)

unfoldable pub no_readers : ℕ → Bool
no_readers state = bit_and state n_readers == 0

-- Who is woken up.
pub data Notice : Type 0 where
  nobody one_at_gate1 all_at_gate1 one_at_gate2 : Notice

-- `lock` up to the second gate, and behind it.
pub lock_enters : ℕ → Option ℕ
unfolding no_writer
lock_enters state = if no_writer state then some (bit_or state write_entered) else none

unfoldable pub lock_passes : ℕ → Option ℕ
unfolding no_readers
lock_passes state = if no_readers state then some state else none

pub try_lock : ℕ → Bool × ℕ
unfolding no_writer_no_readers
try_lock state = if not (no_writer_no_readers state) then (false, state) else (true, write_entered)

abbrev pub unlock : ℕ → ℕ × Notice
unlock state = (0, all_at_gate1)

-- `state_ &= ~n_readers_; state_ |= num_readers;`
unfoldable pub with_readers : ℕ → ℕ → ℕ
with_readers state num_readers = bit_or (bit_and state write_entered) num_readers

unfoldable pub lock_shared : ℕ → Option ℕ
unfolding no_writer_no_max_readers with_readers
lock_shared state =
    if no_writer_no_max_readers state
    then some (with_readers state (bit_and state n_readers + 1))
    else none

unfoldable pub try_lock_shared : ℕ → Bool × ℕ
unfolding no_writer_no_max_readers with_readers
try_lock_shared state =
    if not (no_writer_no_max_readers state)
    then (false, state)
    else (true, with_readers state (bit_and state n_readers + 1))

abbrev pub notice_of : ℕ → ℕ → Notice
notice_of state num_readers =
    if no_writer state
    then (if num_readers == n_readers - 1 then one_at_gate1 else nobody)
    else (if num_readers == 0 then one_at_gate2 else nobody)

-- The number is of 32 bits: with no reader it would wrap around, which the code asserts against.
unfoldable pub unlock_shared : ℕ → ℕ × Notice
unfolding no_writer with_readers
unlock_shared state =
    let num_readers = (bit_and state n_readers + (2 ^ 32 - 1)) % 2 ^ 32 in
    let state' = with_readers state num_readers in (state', notice_of state' num_readers)
