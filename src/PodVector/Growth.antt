-- ===== src/PodVector/Growth.antt =====
-- How the capacity grows: _Calculate_growth, _Reallocate, resize, expand and reserve of
-- yasio/pod_vector.hpp.
use yasio.Base.{
  ℕ, ◌+◌, ◌-◌, ◌/◌, ◌%◌, ◌^◌, ◌≤◌, ◌<◌, ◌≡◌, ◌⊎◌, inl, inr, refl, sym, ◌∙◌, List, length, take,
  replicate, length-append, length-take, length-replicate, take-append_le, take-take, Bool, true,
  Bool-cases, ltb, ltb_false→le, if◌then◌else◌, arith,
}
use yasio.Base.Outcome.{Outcome, ok, ◌>>=◌}
use native.Mathlib.Nat.{mod-eq_of_lt}
use yasio.PodVector.{
  PodVector, capacity, calculate_growth, reallocated, reallocate, eos, resize_exactly,
  resize_at_least, resize, expand,
}

-- Where the old capacity and the size that is asked for keep to the limit, the new capacity holds
-- that size, keeps to the limit, and is at least half as much again as the old one, or the limit.
pub calculate_growth-bounds :
    (max_size old new : ℕ)
    → old ≤ max_size
    → new ≤ max_size
    → (new ≤ calculate_growth max_size old new)
      × (calculate_growth max_size old new ≤ max_size)
      × ((old + old / 2 ≤ calculate_growth max_size old new)
          ⊎ (calculate_growth max_size old new ≡ max_size))
unfolding calculate_growth
calculate_growth-bounds max_size old new h k = ground arith

-- The vector's cells are in its memory, which keeps to the limit.
abbrev pub IsValid : {A : Type 0} → ℕ → PodVector A → Type 0
IsValid max_size v = (v.size ≤ length v.memory) × (length v.memory ≤ max_size)

module _ {A : Type 0} (garbage : A) (max_size : ℕ) (can_allocate : ℕ → Bool) where
  pub length-reallocated :
      (n : ℕ) (m : List A) → length (reallocated garbage max_size can_allocate n m) ≡ n
  length-reallocated n m = omega (
    arith,
    length-append (take n m) (replicate (n - length m) garbage),
    length-take n m,
    length-replicate (n - length m) garbage,
  )

  pub take-reallocated :
      (k n : ℕ) (m : List A)
      → k ≤ n
      → k ≤ length m
      → take k (reallocated garbage max_size can_allocate n m) ≡ take k m
  take-reallocated k n m h l =
      take-append_le k (take n m) (replicate (n - length m) garbage)
        (omega (arith, length-take n m))
      ∙ take-take k n m h

  -- What a reallocation to n cells gives: the cells up to n are kept.
  abbrev pub Reallocates : Outcome (PodVector A) → PodVector A → ℕ → ℕ → Type 0
  Reallocates r v n size =
      (w : PodVector A) × (r ≡ ok w)
      × (w.size ≡ size)
      × (n ≤ length w.memory)
      × (length w.memory ≤ max_size)
      × ((k : ℕ) → k ≤ n → k ≤ length v.memory → take k w.memory ≡ take k v.memory)

  module _ (allocates : (n : ℕ) → n ≤ max_size → can_allocate n ≡ true) where
    pub reallocate-Reallocates :
        (v : PodVector A) (n : ℕ)
        → n ≤ max_size
        → Reallocates (reallocate garbage max_size can_allocate v n) v n v.size
    unfolding reallocate
    reallocate-Reallocates v n h = (
      record v { memory = reallocated garbage max_size can_allocate n v.memory },
      rw (allocates n h) refl,
      refl,
      omega (arith, length-reallocated n v.memory),
      omega (arith, length-reallocated n v.memory),
      λ k a b. take-reallocated k n v.memory a b,
    )

    resized :
        (v : PodVector A) (c n : ℕ)
        → n ≤ c
        → c ≤ max_size
        → Reallocates (reallocate garbage max_size can_allocate v c >>= λ w. ok (eos w n)) v n n
    resized v c n h l =
        let (w, e, s, long, top, kept) = reallocate-Reallocates v c l in
        (eos w n, rw e refl, refl, omega (arith, long), top, λ k a b. kept k (omega arith) b)

    fits_already :
        (v : PodVector A) (n : ℕ)
        → n ≤ length v.memory
        → length v.memory ≤ max_size
        → Reallocates (ok (eos v n)) v n n
    fits_already v n h l = (eos v n, refl, refl, h, l, λ k a b. refl)

    -- `resize` and `expand` keep the elements, and reserve cells for the new ones.
    pub resize-Reallocates :
        (v : PodVector A) (n : ℕ)
        → IsValid max_size v
        → n ≤ max_size
        → Reallocates (resize garbage max_size can_allocate v n) v n n
    unfolding resize resize_exactly
    resize-Reallocates v n (a, b) h = elim (Bool-cases (ltb (length v.memory) n)) [
      | inl q ↦ rw q (resized v n n (omega arith) h)
      | inr q ↦ rw q (fits_already v n (ltb_false→le _ _ q) b)
    ]

    grown :
        (v : PodVector A) (n m : ℕ)
        → IsValid max_size v
        → n ≤ max_size
        → n ≡ m
        → Reallocates
            (if ltb (capacity v) m
              then resize_at_least garbage max_size can_allocate v m
              else ok (eos v m))
            v
            n
            n
    unfolding resize_at_least
    grown v n m (a, b) h e =
        let (low, high, _) = calculate_growth-bounds max_size (length v.memory) n b h in
        rw (sym e) (elim (Bool-cases (ltb (length v.memory) n)) [
          | inl q ↦ rw q (resized v (calculate_growth max_size (length v.memory) n) n low high)
          | inr q ↦ rw q (fits_already v n (ltb_false→le _ _ q) b)
        ])

    pub expand-Reallocates :
        (v : PodVector A) (count : ℕ)
        → IsValid max_size v
        → v.size + count ≤ max_size
        → max_size < 2 ^ 64
        → Reallocates
            (expand garbage max_size can_allocate v count)
            v
            (v.size + count)
            (v.size + count)
    unfolding expand
    expand-Reallocates v count i h l =
        grown v (v.size + count) ((v.size + count) % 2 ^ 64) i h (sym (mod-eq_of_lt (omega arith)))

    pub resize_at_least-Reallocates :
        (v : PodVector A) (n : ℕ)
        → IsValid max_size v
        → n ≤ max_size
        → Reallocates (resize_at_least garbage max_size can_allocate v n) v n n
    unfolding resize_at_least
    resize_at_least-Reallocates v n (a, b) h =
        let (low, high, _) = calculate_growth-bounds max_size (length v.memory) n b h in
        resized v (calculate_growth max_size (length v.memory) n) n low high
