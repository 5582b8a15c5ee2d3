-- ===== src/PodVector/Shrink.antt =====
-- erase, shrink_to_fit, reserve and the assignments of yasio/pod_vector.hpp against lists.
use yasio.Base.{
  ℕ, ◌+◌, ◌-◌, ◌^◌, ◌≤◌, ◌<◌, ◌≡◌, ◌⊎◌, inl, inr, refl, ap, sym, ◌∙◌, List, [], ◌∷◌, ◌++◌, length,
  take, drop, length-append, length-take, length-drop, append_assoc, take-take, drop-take,
  take_prefix, drop_prefix, take-append-drop, Bool, true, Bool-cases, leb, ◌==◌, le→leb,
  lt→leb_false, ==_iff, arith,
}
use yasio.Base.Outcome.{Outcome, ok, err, ◌>>=◌, out_of_range}
use yasio.Base.Splice.{splice, length-splice, take-splice}
use yasio.PodVector.{
  PodVector, contents, eos, tidy, erase, insert, shrink_to_fit, assign, reallocate, reallocated,
}
use yasio.PodVector.Growth.{IsValid, length-reallocated, take-reallocated, resize-Reallocates}
use yasio.PodVector.Contents.{Gives, put-lem, put_end-Gives}
use yasio.PodVector.Insert.{insert-Gives}

module _ {A : Type 0} (max_size : ℕ) where
  -- Where first ≤ last ≤ size, `erase` succeeds, and gives a valid vector with the elements before
  -- `first` and those from `last` on.
  pub erase-Gives :
      (v : PodVector A) (first last : ℕ)
      → IsValid max_size v
      → first ≤ last
      → last ≤ v.size
      → Gives max_size (erase v first last) (take first (contents v) ++ drop last (contents v))
  unfolding erase
  erase-Gives v first last (a, b) h k = rw (le→leb first last h) (
      rw (le→leb last v.size k) (
        record { memory = splice first tail v.memory; size = first + (v.size - last) },
        ap (λ (r : Outcome (PodVector A)). r >>= (λ w. ok (eos w (first + (v.size - last)))))
            (put-lem v first tail (omega (arith, measured))),
        (
          omega (arith, length-splice first tail v.memory (omega (arith, measured))),
          omega (arith, length-splice first tail v.memory (omega (arith, measured))),
        ),
        ap (λ (n : ℕ). take (first + n) (splice first tail v.memory)) (sym measured)
            ∙ take-splice first tail v.memory (omega arith)
            ∙ (λ i.
                sym (take-take first v.size v.memory (omega arith)) i
                ++ sym (drop-take last v.size v.memory) i),
      ))
    where
      tail : List A
      tail = take (v.size - last) (drop last v.memory)

      measured : length tail ≡ v.size - last
      measured =
          omega (arith, length-take (v.size - last) (drop last v.memory), length-drop last v.memory)

  -- Any other range is refused.
  pub erase-err :
      (v : PodVector A) (first last : ℕ)
      → (last < first) ⊎ (v.size < last)
      → erase v first last ≡ err out_of_range
  unfolding erase
  erase-err v first last (inl h) = rw (lt→leb_false last first h) refl
  erase-err v first last (inr h) = elim (Bool-cases (leb first last)) [
    | inl q ↦ rw q (rw (lt→leb_false v.size last h) refl)
    | inr q ↦ rw q refl
  ]

inserted_out :
    {A : Type 0} (at : ℕ) (vs xs : List A)
    → at ≤ length xs
    → take at (take at xs ++ (vs ++ drop at xs))
        ++ drop (at + length vs) (take at xs ++ (vs ++ drop at xs))
      ≡ xs
inserted_out at vs xs h =
    (λ i.
      take_prefix at (take at xs) (vs ++ drop at xs) measured i
      ++ drop (at + length vs) (sym (append_assoc (take at xs) vs (drop at xs)) i))
    ∙ ap (λ ys. take at xs ++ ys)
        (drop_prefix (at + length vs) (take at xs ++ vs) (drop at xs)
          (omega (arith, length-append (take at xs) vs, measured)))
    ∙ take-append-drop at xs
  where
    measured : at ≡ length (take at xs)
    measured = omega (arith, length-take at xs)

length-contents :
    {A : Type 0} (max_size : ℕ) (v : PodVector A)
    → IsValid max_size v
    → length (contents v) ≡ v.size
length-contents max_size v (a, b) = omega (arith, length-take v.size v.memory)

module _ {A : Type 0} (garbage : A) (max_size : ℕ) (can_allocate : ℕ → Bool)
    (allocates : (n : ℕ) → n ≤ max_size → can_allocate n ≡ true) where
  -- An insert at a position of the vector that keeps to the limit, and an erase of what it put in,
  -- succeed, and leave the elements as they were.
  pub erase-insert :
      max_size < 2 ^ 64
      → (v : PodVector A) (at : ℕ) (vs : List A) → IsValid max_size v
      → v.size + length vs ≤ max_size
      → at ≤ v.size
      → Gives max_size
          (insert garbage max_size can_allocate v at vs >>= λ w. erase w at (at + length vs))
          (contents v)
  erase-insert small v at vs i h k =
      let (w, e, j, c) = insert-Gives garbage max_size can_allocate allocates small v at vs i h k in
      let (x, ex, jx, cx) = erase-Gives max_size w at (at + length vs) j (omega arith) (
        omega (
          arith,
          length-contents max_size w j,
          length-contents max_size v i,
          ap length c,
          length-append (take at (contents v)) (vs ++ drop at (contents v)),
          length-append vs (drop at (contents v)),
          length-take at (contents v),
          length-drop at (contents v),
        )) in
      (
        x,
        ap (λ r. r >>= (λ w. erase w at (at + length vs))) e ∙ ex,
        jx,
        cx
            ∙ ap (λ ys. take at ys ++ drop (at + length vs) ys) c
            ∙ inserted_out at vs (contents v) (omega (arith, length-contents max_size v i)),
      )

  -- Of a valid vector the elements stay, and no cell is left over.
  pub shrink_to_fit-Gives :
      (v : PodVector A)
      → IsValid max_size v
      → (w : PodVector A) × (shrink_to_fit garbage max_size can_allocate v ≡ ok w)
        × IsValid max_size w
        × (contents w ≡ contents v)
        × (length w.memory ≡ w.size)
  unfolding shrink_to_fit reallocate
  shrink_to_fit-Gives v (a, b) = elim (Bool-cases (v.size == length v.memory)) [
    | inl q ↦ rw q (v, refl, (a, b), refl, sym ((==_iff _ _).0 q))
    | inr q ↦ rw q (elim (Bool-cases (v.size == 0)) [
      | inl z ↦ rw z (
        tidy v,
        refl,
        (omega arith, omega arith),
        ap (λ (n : ℕ). take n v.memory) (sym ((==_iff _ _).0 z)),
        refl,
      )
      | inr z ↦ rw z (
          rw (allocates v.size (omega arith)) (
            record v { memory = cut },
            refl,
            (omega (arith, measured), omega (arith, measured)),
            take-reallocated garbage max_size can_allocate v.size v.size v.memory (omega arith) a,
            measured,
          ))
    ])
  ]
    where
      cut : List A
      cut = reallocated garbage max_size can_allocate v.size v.memory

      measured : length cut ≡ v.size
      measured = length-reallocated garbage max_size can_allocate v.size v.memory

  -- An assignment replaces all the elements.
  pub assign-Gives :
      (v : PodVector A) (xs : List A)
      → IsValid max_size v
      → length xs ≤ max_size
      → Gives max_size (assign garbage max_size can_allocate v xs) xs
  unfolding assign
  assign-Gives v [] (a, b) h = (eos v 0, refl, (omega arith, b), refl)
  assign-Gives v (x ∷ xs) (a, b) h =
      let (w, e, s, long, top, kept) =
        resize-Reallocates garbage max_size can_allocate allocates (eos v 0) (length (x ∷ xs))
          (omega arith, b) h in
      rw e (put_end-Gives max_size 0 w [] (x ∷ xs) (omega (arith, s), top) (s ∙ omega arith) refl)
