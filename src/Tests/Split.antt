-- ===== src/Tests/Split.antt =====
-- The string 1 0 2 of yasio/split.hpp, cut at the character 9 and at 2.
use yasio.Base.{ℕ, ◌≡◌, List, [], ◌∷◌, ◌++◌, All, Bool, true}
use yasio.Split.{split_if}
use yasio.Split.Pieces.{joined, IsFree, given, split_if-pieces}

-- All pieces are collected.
abbrev collect : List (List ℕ) → List ℕ → Bool × List (List ℕ)
collect ps p = (true, ps ++ p ∷ [])

split_if-pieces_example :
    (p : List ℕ) × (ps : List (List ℕ)) × (joined 9 p ps ≡ 1 ∷ 9 ∷ 2 ∷ 3 ∷ 9 ∷ [])
    × IsFree 9 p
    × All (IsFree 9) ps
    × (split_if 9 collect (1 ∷ 9 ∷ 2 ∷ 3 ∷ 9 ∷ []) [] ≡ given collect (p ∷ ps) [])
split_if-pieces_example = split_if-pieces 9 collect (1 ∷ 9 ∷ 2 ∷ 3 ∷ 9 ∷ []) []
