-- ===== src/Tests/Transfer.antt =====
-- send_n of yasio/xxsocket.cpp with a kernel that takes two bytes, is busy, and takes the rest.
use yasio.Base.{inl, ℕ, ◌≡◌, refl, List, [], ◌∷◌, false, arith}
use yasio.Base.Int.{pos, ◌-ℤ◌}
use yasio.Sending.{not_send_error}
use yasio.Transfer.{Answer, moves, fails, send_n}
use yasio.Transfer.Whole.{send_n-whole}

abbrev answers : List (Answer ℕ)
answers = moves 2 ∷ fails 11 false (pos 5) ∷ moves 1 ∷ []

send_n-whole_example : send_n answers (7 ∷ 8 ∷ 9 ∷ []) 0 (pos 100) ≡ (3, 7 ∷ 8 ∷ 9 ∷ [])
unfolding not_send_error ◌-ℤ◌
send_n-whole_example =
    send_n-whole answers (7 ∷ 8 ∷ 9 ∷ []) (pos 100)
      (omega arith, omega arith, (inl refl, refl, (94, refl), (omega arith, omega arith, tt)))
