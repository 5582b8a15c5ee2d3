-- ===== src/Tests/PodVector.antt =====
-- The vector of yasio/pod_vector.hpp on three elements, with room for eight.
use yasio.Base.{ℕ, ◌≡◌, ◌≤◌, ◌<◌, ◌+◌, ◌/◌, ◌^◌, ◌⊎◌, [], ◌∷◌, Bool, true, leb, le→leb, arith}
use yasio.Base.Outcome.{◌>>=◌}
use yasio.PodVector.{PodVector, calculate_growth, insert, erase}
use yasio.PodVector.Growth.{IsValid, calculate_growth-bounds}
use yasio.PodVector.Contents.{Gives}
use yasio.PodVector.Insert.{insert-Gives}
use yasio.PodVector.Shrink.{erase-insert}

abbrev three : PodVector ℕ
three = record { memory = 1 ∷ 2 ∷ 3 ∷ 0 ∷ []; size = 3 }

three-IsValid : IsValid 8 three
three-IsValid = (omega arith, omega arith)

abbrev can_allocate : ℕ → Bool
can_allocate n = leb n 8

allocates : (n : ℕ) → n ≤ 8 → can_allocate n ≡ true
allocates n h = le→leb n 8 h

small : 8 < 2 ^ 64
small = omega arith

insert-Gives_example :
    Gives 8 (insert 0 8 can_allocate three 1 (7 ∷ 9 ∷ [])) (1 ∷ 7 ∷ 9 ∷ 2 ∷ 3 ∷ [])
insert-Gives_example =
    insert-Gives 0 8 can_allocate allocates small three 1 (7 ∷ 9 ∷ []) three-IsValid (omega arith)
      (omega arith)

erase-insert_example :
    Gives 8 (insert 0 8 can_allocate three 1 (7 ∷ []) >>= λ w. erase w 1 2) (1 ∷ 2 ∷ 3 ∷ [])
erase-insert_example =
    erase-insert 0 8 can_allocate allocates small three 1 (7 ∷ []) three-IsValid (omega arith)
      (omega arith)

calculate_growth-bounds_example :
    (7 ≤ calculate_growth 8 4 7)
    × (calculate_growth 8 4 7 ≤ 8)
    × ((4 + 4 / 2 ≤ calculate_growth 8 4 7) ⊎ (calculate_growth 8 4 7 ≡ 8))
calculate_growth-bounds_example = calculate_growth-bounds 8 4 7 (omega arith) (omega arith)
