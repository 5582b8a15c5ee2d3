-- ===== src/Stream/Buffer/Fixed/Laws.antt =====
-- A fixed span keeps the laws of a buffer while the bytes fit, and drops or refuses them after.
use yasio.Base.{
  ℕ, suc, ◌+◌, ◌≤◌, ◌≡◌, refl, ap, sym, ◌∙◌, List, [], ◌∷◌, ◌++◌, length, drop, replicate, ltb,
  lt→ltb, le→leb, arith, append-nil, append_assoc, length-append, take-append-drop, take_prefix,
  false, length-replicate, length-take,
}
use yasio.Base.Outcome.{ok, err, out_of_range}
use yasio.Base.Splice.{splice, splice_lem, take-splice, length-splice}
use yasio.Stream.Buffer.{IsBuffer}
use yasio.Stream.Buffer.Fixed.{
  FixedBuffer, max_size, bytes, write_byte, write_bytes, write_bytes_at, fill_bytes, write_at,
  fixed_buffer,
}

abbrev pub Room : FixedBuffer → ℕ → Type 0
Room b n = b.pos + n ≤ max_size b

not_ltb : (a b : ℕ) → b ≤ a → ltb a b ≡ false
not_ltb a b h = ground arith

-- The span after a write at its end.
abbrev grown : FixedBuffer → List ℕ → FixedBuffer
grown b vs = record { memory = splice b.pos vs b.memory; pos = b.pos + length vs }

grown-bytes :
    (b : FixedBuffer) (vs : List ℕ) (n : ℕ)
    → Room b (length vs + n)
    → (bytes (grown b vs) ≡ bytes b ++ vs) × Room (grown b vs) n
unfolding bytes
grown-bytes b vs n r = (
  take-splice b.pos vs b.memory (omega arith),
  omega (arith, length-splice b.pos vs b.memory (omega arith)),
)

byte_appends :
    (b : FixedBuffer) (v n : ℕ)
    → Room b (suc n)
    → (bytes (write_byte b v) ≡ bytes b ++ v ∷ []) × Room (write_byte b v) n
unfolding write_byte
byte_appends b v n r =
    rw (lt→ltb b.pos (max_size b) (omega arith)) (grown-bytes b (v ∷ []) n (omega arith))

bytes_append :
    (b : FixedBuffer) (vs : List ℕ) (n : ℕ)
    → Room b (length vs + n)
    → (t : FixedBuffer) × (write_bytes b vs ≡ ok t) × (bytes t ≡ bytes b ++ vs) × Room t n
unfolding write_bytes
bytes_append b [] n r = (b, refl, sym (append-nil (bytes b)), omega arith)
bytes_append b (v ∷ vs) n r =
    let (e, room) = grown-bytes b (v ∷ vs) n r in
    (grown b (v ∷ vs), rw (not_ltb (max_size b) (b.pos + length (v ∷ vs)) (omega arith)), e, room)

fill_appends :
    (b : FixedBuffer) (count v n : ℕ)
    → Room b (count + n)
    → (t : FixedBuffer) × (fill_bytes b count v ≡ ok t)
      × (bytes t ≡ bytes b ++ replicate count v)
      × Room t n
unfolding fill_bytes
fill_appends b count v n r =
    let (e, room) = grown-bytes b (replicate count v) n (omega (arith, length-replicate count v)) in
    (
      grown b (replicate count v),
      rw (not_ltb (max_size b) (count + b.pos) (omega arith), length-replicate count v),
      e,
      room,
    )

write_replaces :
    (b : FixedBuffer) (before old after new : List ℕ) (n : ℕ)
    → bytes b ≡ before ++ (old ++ after)
    → length new ≡ length old
    → Room b n
    → (t : FixedBuffer) × (write_at b (length before) new ≡ ok t)
      × (bytes t ≡ before ++ (new ++ after))
      × Room t n
unfolding bytes write_at
write_replaces b before old after new n e h r = (
  record b { memory = splice (length before) new b.memory },
  rw (le→leb (length before + length new) (max_size b) fits),
  rw (image, ← append_assoc new after rest, ← append_assoc before (new ++ after) rest)
      (take_prefix b.pos (before ++ (new ++ after)) rest upto),
  omega (arith, length-splice (length before) new b.memory fits),
)
  where
    rest : List ℕ
    rest = drop b.pos b.memory

    whole : b.memory ≡ before ++ (old ++ (after ++ rest))
    whole =
        sym (take-append-drop b.pos b.memory)
        ∙ ap (λ (l : List ℕ). l ++ rest) e
        ∙ append_assoc before (old ++ after) rest
        ∙ ap (◌++◌ before) (append_assoc old after rest)

    measured : b.pos ≡ length before + (length old + length after)
    measured = omega (
      arith,
      ap length e,
      length-take b.pos b.memory,
      length-append before (old ++ after),
      length-append old after,
    )

    fits : length before + length new ≤ max_size b
    fits = omega (arith, measured)

    image : splice (length before) new b.memory ≡ before ++ (new ++ (after ++ rest))
    image = ap (splice (length before) new) whole ∙ splice_lem before old (after ++ rest) new h

    upto : b.pos ≡ length (before ++ (new ++ after))
    upto = omega (arith, measured, length-append before (new ++ after), length-append new after)

pub fixed_buffer-IsBuffer : IsBuffer fixed_buffer
fixed_buffer-IsBuffer = record {
  Room = Room;
  byte_appends = byte_appends;
  bytes_append = bytes_append;
  fill_appends = fill_appends;
  write_replaces = write_replaces;
}

-- On a full span `write_bytes` throws and `write_byte` drops the byte: a caller of the second is not
-- told that its data is lost.
pub full_span :
    (b : FixedBuffer) (v : ℕ)
    → b.pos ≡ max_size b
    → (write_byte b v ≡ b) × (write_bytes b (v ∷ []) ≡ err out_of_range)
unfolding write_byte write_bytes write_bytes_at
full_span b v e = ground arith
