-- ===== src/Stream/Buffer/Dynamic.antt =====
-- dynamic_buffer_span and dynamic_buffer of yasio/obstream.hpp, over the bytes of its container.
use yasio.Base.{
  ℕ, ◌+◌, ◌≤◌, ◌≡◌, refl, ap, sym, List, [], ◌∷◌, ◌++◌, length, append-nil, length-append, le→leb,
  replicate, leb, if◌then◌else◌, arith,
}
use yasio.Base.Outcome.{Outcome, ok, err, out_of_range, invalid}
use yasio.Base.Splice.{splice, splice_lem}
use yasio.Stream.Buffer.{Buffer, IsBuffer}

-- `outs_->push_back(value)`
pub write_byte : List ℕ → ℕ → List ℕ
write_byte outs v = outs ++ v ∷ []

-- `outs_->insert(outs_->end(), d, d + n)`, if n > 0
pub write_bytes : List ℕ → List ℕ → Outcome (List ℕ)
write_bytes outs [] = ok outs
write_bytes outs (v ∷ vs) = ok (outs ++ v ∷ vs)

-- The positional overload: it throws past the end, and never grows the container.
pub write_bytes_at : List ℕ → ℕ → List ℕ → Outcome (List ℕ)
write_bytes_at outs offset vs =
    if leb (offset + length vs) (length outs) then ok (splice offset vs outs) else err out_of_range

pub fill_bytes : List ℕ → ℕ → ℕ → Outcome (List ℕ)
fill_bytes outs count v = ok (outs ++ replicate count v)

-- A `memcpy` through `data()` must stay within the container.
pub write_at : List ℕ → ℕ → List ℕ → Outcome (List ℕ)
write_at outs offset vs =
    if leb (offset + length vs) (length outs) then ok (splice offset vs outs) else err invalid

abbrev pub dynamic_buffer : Buffer
dynamic_buffer = record {
  State = List ℕ;
  bytes = λ outs. outs;
  write_byte = write_byte;
  write_bytes = write_bytes;
  fill_bytes = fill_bytes;
  write_at = write_at;
}

pub write_bytes-append : (outs vs : List ℕ) → write_bytes outs vs ≡ ok (outs ++ vs)
unfolding write_bytes
write_bytes-append outs [] = ap ok (sym (append-nil outs))
write_bytes-append outs (v ∷ vs) = refl

pub write_at-splice :
    (outs before old after new : List ℕ)
    → outs ≡ before ++ (old ++ after)
    → length new ≡ length old
    → write_at outs (length before) new ≡ ok (before ++ (new ++ after))
unfolding write_at
write_at-splice outs before old after new e h =
    rw (e, le→leb _ _ (within before old after new h), splice_lem before old after new h)
  where
    within : (b o a n : List ℕ) → length n ≡ length o → length b + length n ≤ length (b ++ (o ++ a))
    within b o a n q = omega (arith, length-append b (o ++ a), length-append o a)

-- A container grows, so that there is always room.
unfoldable pub dynamic_buffer-IsBuffer : IsBuffer dynamic_buffer
unfolding write_byte fill_bytes
dynamic_buffer-IsBuffer = record {
  Room = λ outs n. Unit {0};
  byte_appends = λ outs v n r. (refl, tt);
  bytes_append = λ outs vs n r. (outs ++ vs, write_bytes-append outs vs, refl, tt);
  fill_appends = λ outs count v n r. (outs ++ replicate count v, refl, refl, tt);
  write_replaces = λ outs before old after new n e h r.
      (before ++ (new ++ after), write_at-splice outs before old after new e h, refl, tt);
}
