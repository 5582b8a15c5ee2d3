-- ===== src/PodVector/Contents.antt =====
-- What the operations of yasio/pod_vector.hpp make of the elements.
use yasio.Base.{
  ℕ, ◌+◌, ◌-◌, ◌≤◌, ◌≡◌, refl, ap, sym, ◌∙◌, List, ◌++◌, length, take, drop, length-append,
  length-take, length-drop, append_assoc, take-take, drop-take, take-append_le, take_prefix,
  drop_prefix, le→leb, arith,
}
use yasio.Base.Outcome.{Outcome, ok, ◌>>=◌}
use yasio.Base.Splice.{splice, length-splice, take-splice}
use yasio.PodVector.{PodVector, contents, put, put_between}
use yasio.PodVector.Growth.{IsValid}

-- The result is a valid vector with these elements.
abbrev pub Gives : {A : Type 0} → ℕ → Outcome (PodVector A) → List A → Type 0
Gives max_size r xs = (w : PodVector _) × (r ≡ ok w) × IsValid max_size w × (contents w ≡ xs)

module _ {A : Type 0} where
  pub put-lem :
      (v : PodVector A) (at : ℕ) (vs : List A)
      → at + length vs ≤ length v.memory
      → put v at vs ≡ ok (record v { memory = splice at vs v.memory })
  unfolding put
  put-lem v at vs h = rw (le→leb (at + length vs) (length v.memory) h) refl

  -- New elements behind the old ones.
  pub put_end-Gives :
      (max_size s : ℕ) (w : PodVector A) (xs vs : List A)
      → IsValid max_size w
      → w.size ≡ s + length vs
      → take s w.memory ≡ xs
      → Gives max_size (put w s vs) (xs ++ vs)
  put_end-Gives max_size s w xs vs (a, b) e k = (
    record w { memory = splice s vs w.memory },
    put-lem w s vs (omega arith),
    (
      omega (arith, length-splice s vs w.memory (omega arith)),
      omega (arith, length-splice s vs w.memory (omega arith)),
    ),
    ap (λ (n : ℕ). take n (splice s vs w.memory)) e
        ∙ take-splice s vs w.memory (omega arith)
        ∙ ap (λ ys. ys ++ vs) k,
  )

  -- The cells after both copies of an insertion.
  between_lem :
      (at s : ℕ) (vs m : List A)
      → at ≤ s
      → s + length vs ≤ length m
      → take (s + length vs) (splice at vs (splice (at + length vs) (take (s - at) (drop at m)) m))
        ≡ take at (take s m) ++ (vs ++ drop at (take s m))
  between_lem at s vs m h l =
      (λ i. take (s + length vs) (front i ++ (vs ++ behind i)))
      ∙ ap (take (s + length vs)) (joined (take at m) tail rest)
      ∙ take_prefix (s + length vs) (take at m ++ (vs ++ tail)) rest (
          omega (
            arith,
            length-append (take at m) (vs ++ tail),
            length-append vs tail,
            length-take at m,
            length-take (s - at) (drop at m),
            length-drop at m,
          ))
      ∙ (λ i. sym (take-take at s m h) i ++ (vs ++ sym (drop-take at s m) i))
    where
      tail : List A
      tail = take (s - at) (drop at m)

      rest : List A
      rest = drop (at + length vs + length tail) m

      moved : List A
      moved = splice (at + length vs) tail m

      front : take at moved ≡ take at m
      front =
          take-append_le at (take (at + length vs) m) (tail ++ rest)
            (omega (arith, length-take (at + length vs) m))
          ∙ take-take at (at + length vs) m (omega arith)

      behind : drop (at + length vs) moved ≡ tail ++ rest
      behind =
          drop_prefix (at + length vs) (take (at + length vs) m) (tail ++ rest)
            (omega (arith, length-take (at + length vs) m))

      joined : (a t r : List A) → a ++ (vs ++ (t ++ r)) ≡ (a ++ (vs ++ t)) ++ r
      joined a t r = simp (append_assoc)

  -- New elements between the old ones, of which there were s.
  pub put_between-Gives :
      (max_size s at : ℕ) (w : PodVector A) (xs vs : List A)
      → IsValid max_size w
      → w.size ≡ s + length vs
      → at ≤ s
      → take s w.memory ≡ xs
      → Gives max_size (put_between w at vs) (take at xs ++ (vs ++ drop at xs))
  unfolding put_between
  put_between-Gives max_size s at w xs vs (a, b) e h k = (
    record w { memory = splice at vs moved },
    ap
          (λ (n : ℕ).
            put w (at + length vs) (take n (drop at w.memory))
            >>= (λ (x : PodVector A). put x at vs))
          below
        ∙ ap (λ (r : Outcome (PodVector A)). r >>= (λ (x : PodVector A). put x at vs))
            (put-lem w (at + length vs) tail (omega (arith, measured)))
        ∙ put-lem (record w { memory = moved }) at vs (omega (arith, long)),
    (
      omega (arith, long, length-splice at vs moved (omega (arith, long))),
      omega (arith, long, length-splice at vs moved (omega (arith, long))),
    ),
    ap (λ (n : ℕ). take n (splice at vs moved)) e
        ∙ between_lem at s vs w.memory h (omega arith)
        ∙ ap (λ ys. take at ys ++ (vs ++ drop at ys)) k,
  )
    where
      below : w.size - (at + length vs) ≡ s - at
      below = omega arith

      tail : List A
      tail = take (s - at) (drop at w.memory)

      measured : length tail ≡ s - at
      measured = omega (arith, length-take (s - at) (drop at w.memory), length-drop at w.memory)

      moved : List A
      moved = splice (at + length vs) tail w.memory

      long : length moved ≡ length w.memory
      long = length-splice (at + length vs) tail w.memory (omega (arith, measured))
