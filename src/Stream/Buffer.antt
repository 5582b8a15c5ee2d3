-- ===== src/Stream/Buffer.antt =====
-- What `binary_writer_impl` needs of its buffer type, and the laws that its proofs use. The two
-- buffer types of yasio/obstream.hpp are the children.
pub mod Fixed
pub mod Dynamic
use yasio.Base.{ℕ, suc, ◌+◌, ◌≡◌, List, [], ◌∷◌, ◌++◌, length, replicate}
use yasio.Base.Outcome.{Outcome, ok}

-- `bytes` are the first `length()` bytes at `data()`. `write_at` is a `memcpy` to `data() + offset`,
-- as `swrite` makes it.
pub record Buffer : Type 1 where
  pub State : Type 0
  pub bytes : State → List ℕ
  pub write_byte : State → ℕ → State
  pub write_bytes : State → List ℕ → Outcome State
  pub fill_bytes : State → ℕ → ℕ → Outcome State
  pub write_at : State → ℕ → List ℕ → Outcome State

-- `Room s n`: n more bytes can be appended.
pub record IsBuffer (b : Buffer) : Type 1 where
  pub Room : b.State → ℕ → Type 0
  pub byte_appends :
      (s : b.State) (v n : ℕ)
      → Room s (suc n)
      → (b.bytes (b.write_byte s v) ≡ b.bytes s ++ v ∷ []) × Room (b.write_byte s v) n
  pub bytes_append :
      (s : b.State) (vs : List ℕ) (n : ℕ)
      → Room s (length vs + n)
      → (t : b.State) × (b.write_bytes s vs ≡ ok t) × (b.bytes t ≡ b.bytes s ++ vs) × Room t n
  pub fill_appends :
      (s : b.State) (count v n : ℕ)
      → Room s (count + n)
      → (t : b.State) × (b.fill_bytes s count v ≡ ok t)
        × (b.bytes t ≡ b.bytes s ++ replicate count v)
        × Room t n
  pub write_replaces :
      (s : b.State) (before old after new : List ℕ) (n : ℕ)
      → b.bytes s ≡ before ++ (old ++ after)
      → length new ≡ length old
      → Room s n
      → (t : b.State) × (b.write_at s (length before) new ≡ ok t)
        × (b.bytes t ≡ before ++ (new ++ after))
        × Room t n
