-- ===== src/Base/Splice.antt =====
-- Overwriting a part of a list, as `memcpy` does.
use yasio.Base.{
  ℕ, ◌+◌, ◌≤◌, ◌≡◌, refl, List, ◌++◌, length, take, drop, length-append, length-take, length-drop,
  take-append_self, drop-append_self, take_prefix, append_assoc, arith,
}

module _ {ℓ} {A : Type ℓ} where
  -- The list with `new` written over it from `offset` on.
  abbrev pub splice : ℕ → List A → List A → List A
  splice offset new xs = take offset xs ++ (new ++ drop (offset + length new) xs)

  pub splice_lem :
      (before old after new : List A)
      → length new ≡ length old
      → splice (length before) new (before ++ (old ++ after)) ≡ before ++ (new ++ after)
  splice_lem before old after new e = rw (take-append_self before (old ++ after), tail_lem) refl
    where
      tail_lem : drop (length before + length new) (before ++ (old ++ after)) ≡ after
      tail_lem =
          rw (e, ← length-append before old, ← append_assoc before old after)
            (drop-append_self (before ++ old) after)

  pub length-splice :
      (offset : ℕ) (new xs : List A)
      → offset + length new ≤ length xs
      → length (splice offset new xs) ≡ length xs
  length-splice offset new xs h = omega (
    arith,
    length-append (take offset xs) (new ++ drop (offset + length new) xs),
    length-append new (drop (offset + length new) xs),
    length-take offset xs,
    length-drop (offset + length new) xs,
  )

  -- What a write at the end of a prefix leaves in front of its end.
  pub take-splice :
      (offset : ℕ) (new xs : List A)
      → offset ≤ length xs
      → take (offset + length new) (splice offset new xs) ≡ take offset xs ++ new
  take-splice offset new xs h =
      rw (← append_assoc (take offset xs) new (drop (offset + length new) xs)) (
        take_prefix (offset + length new) (take offset xs ++ new) (drop (offset + length new) xs)
          (omega (arith, length-append (take offset xs) new, length-take offset xs)))
