-- ===== src/Split.antt =====
-- split_if, split_if_n, split and split_n of yasio/split.hpp: a string is cut at a delimiter, and the
-- pieces are given to a function that may ask to stop.
pub mod Pieces
use yasio.Base.{ℕ, suc, ◌+◌, List, [], ◌∷◌, ◌++◌, Bool, true, false, ◌==◌, if◌then◌else◌}

-- A string without the 0 at its end; the delimiter is not 0. `pred` is the function with its state, and
-- says whether to go on.
module _ {S : Type 0} (delim : ℕ) (pred : S → List ℕ → Bool × S) where
  -- The loop, with what lies between `_Start` and the place that strchr has come to.
  abbrev pub stop_or : Bool → S → S → S
  stop_or more s rest = if more then rest else s

  pub split_from : List ℕ → List ℕ → S → S
  split_from piece [] s = (pred s piece).1
  split_from piece (c ∷ cs) s =
      let apart = split_from [] cs (pred s piece).1 in
      let on = split_from (piece ++ c ∷ []) cs s in
      if c == delim then stop_or (pred s piece).0 (pred s piece).1 apart else on

  pub split_if : List ℕ → S → S
  unfolding split_from
  split_if cs s = split_from [] cs s

  -- With the length: strchr comes no further than a 0, and the last piece has all that is left.
  pub split_n_from : List ℕ → List ℕ → S → S
  split_n_from piece [] s = (pred s piece).1
  split_n_from piece (c ∷ cs) s =
      let apart = split_n_from [] cs (pred s piece).1 in
      let on = split_n_from (piece ++ c ∷ []) cs s in
      if c == 0
      then (pred s (piece ++ c ∷ cs)).1
      else (if c == delim then stop_or (pred s piece).0 (pred s piece).1 apart else on)

  pub split_if_n : List ℕ → S → S
  unfolding split_n_from
  split_if_n cs s = split_n_from [] cs s

-- The functions that never stop.
module _ {S : Type 0} (delim : ℕ) (func : S → List ℕ → S) where
  abbrev pub always : S → List ℕ → Bool × S
  always s piece = (true, func s piece)

  abbrev pub split : List ℕ → S → S
  split cs s = split_if delim always cs s

  abbrev pub split_n : List ℕ → S → S
  split_n cs s = split_if_n delim always cs s
