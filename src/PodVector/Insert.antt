-- ===== src/PodVector/Insert.antt =====
-- emplace_back, append, insert and emplace of yasio/pod_vector.hpp against lists.
use yasio.Base.{
  ℕ, zero, suc, ◌+◌, ◌^◌, ◌≤◌, ◌<◌, ◌≡◌, inl, inr, take-append-drop, refl, ap, sym, subst, ◌∙◌,
  List, [], ◌∷◌, ◌++◌, length, take, drop, replicate, length-take, length-replicate, append-nil,
  take_all, drop_all, Bool, true, false, Bool-cases, ltb, ◌==◌, ltb→lt, le→leb, ==_iff, suc-ne_zero,
  arith,
}
use yasio.Base.Outcome.{Outcome, ◌>>=◌}
use yasio.PodVector.{
  PodVector, contents, put, put_between, eos, expand, expand_fill, emplace_back, append, insert,
  insert_fill, emplace, resize_at_least,
}
use yasio.PodVector.Growth.{IsValid, Reallocates, expand-Reallocates, resize_at_least-Reallocates}
use yasio.PodVector.Contents.{Gives, put_end-Gives, put_between-Gives}

module _ {A : Type 0} (garbage : A) (max_size : ℕ) (can_allocate : ℕ → Bool)
    (allocates : (n : ℕ) → n ≤ max_size → can_allocate n ≡ true) where
  put_behind-Gives :
      (r : Outcome (PodVector A)) (v : PodVector A) (n : ℕ) (vs : List A)
      → IsValid max_size v
      → n ≡ v.size + length vs
      → Reallocates garbage max_size can_allocate r v n n
      → Gives max_size (r >>= λ w. put w v.size vs) (contents v ++ vs)
  put_behind-Gives r v n vs (a, b) c (w, e, s, long, top, kept) = rw e (
      put_end-Gives max_size v.size w (contents v) vs (omega arith, top) (s ∙ c)
        (kept v.size (omega arith) a))

  -- One more element at the end, and `length_error` where the limit is reached.
  pub emplace_back-Gives :
      (v : PodVector A) (val : A)
      → IsValid max_size v
      → v.size < max_size
      → Gives max_size (emplace_back garbage max_size can_allocate v val) (contents v ++ val ∷ [])
  unfolding emplace_back
  emplace_back-Gives v val (a, b) h = elim (Bool-cases (ltb v.size (length v.memory))) [
    | inl q ↦ rw q (
        put_end-Gives max_size v.size (eos v (v.size + 1)) (contents v) (val ∷ [])
          (omega (arith, ltb→lt _ _ q), b) refl refl)
    | inr q ↦ rw q (
        rw (below v.size h) (
          put_behind-Gives (resize_at_least garbage max_size can_allocate v (v.size + 1)) v
            (v.size + 1) (val ∷ []) (a, b) refl
            (resize_at_least-Reallocates garbage max_size can_allocate allocates v (v.size + 1)
              (a, b) (omega arith))))
  ]
    where
      below : (n : ℕ) → n < max_size → (n == max_size) ≡ false
      below n l = ground arith

  module _ (small : max_size < 2 ^ 64) where
    grow_behind-Gives :
        (v : PodVector A) (vs : List A)
        → IsValid max_size v
        → v.size + length vs ≤ max_size
        → Gives max_size
            (expand garbage max_size can_allocate v (length vs) >>= λ w. put w v.size vs)
            (contents v ++ vs)
    grow_behind-Gives v vs i h =
        put_behind-Gives (expand garbage max_size can_allocate v (length vs)) v (v.size + length vs)
          vs i refl
          (expand-Reallocates garbage max_size can_allocate allocates v (length vs) i h small)

    pub append-Gives :
        (v : PodVector A) (vs : List A)
        → IsValid max_size v
        → v.size + length vs ≤ max_size
        → Gives max_size (append garbage max_size can_allocate v vs) (contents v ++ vs)
    unfolding append
    append-Gives v [] i h = (v, refl, i, sym (append-nil (contents v)))
    append-Gives v (x ∷ []) i h = emplace_back-Gives v x i (omega arith)
    append-Gives v (x ∷ y ∷ zs) i h = grow_behind-Gives v (x ∷ y ∷ zs) i h

    grow_between-Gives :
        (v : PodVector A) (at : ℕ) (vs : List A)
        → IsValid max_size v
        → v.size + length vs ≤ max_size
        → at ≤ v.size
        → Gives max_size
            (expand garbage max_size can_allocate v (length vs) >>= λ w. put_between w at vs)
            (take at (contents v) ++ (vs ++ drop at (contents v)))
    grow_between-Gives v at vs (a, b) h k =
        let (w, e, s, long, top, kept) =
          expand-Reallocates garbage max_size can_allocate allocates v (length vs) (a, b) h small in
        rw e (
          put_between-Gives max_size v.size at w (contents v) vs (omega arith, top) s k
            (kept v.size (omega arith) a))

    -- An insertion at the end is an append.
    at_end :
        (at : ℕ) (v : PodVector A) (vs : List A)
        → IsValid max_size v
        → at ≡ v.size
        → contents v ++ vs ≡ take at (contents v) ++ (vs ++ drop at (contents v))
    at_end at v vs (a, b) e =
        (λ i. sym (take_all at (contents v) full) i ++ (sym (append-nil vs) i))
        ∙ ap (λ ys. take at (contents v) ++ (vs ++ ys)) (sym (drop_all at (contents v) full))
      where
        full : length (contents v) ≤ at
        full = omega (arith, length-take v.size v.memory)

    -- Where the new elements keep to the limit, and the allocator gives every size up to it, `insert`
    -- at a position of the vector succeeds, and gives a valid vector with the elements before the
    -- position, the new ones, and the elements from it on.
    pub insert-Gives :
        (v : PodVector A) (at : ℕ) (vs : List A)
        → IsValid max_size v
        → v.size + length vs ≤ max_size
        → at ≤ v.size
        → Gives max_size
            (insert garbage max_size can_allocate v at vs)
            (take at (contents v) ++ (vs ++ drop at (contents v)))
    unfolding insert
    insert-Gives v at [] i h k =
        rw (le→leb at v.size k) (v, refl, i, sym (take-append-drop at (contents v)))
    insert-Gives v at (x ∷ xs) i h k = rw (le→leb at v.size k) (elim (Bool-cases (at == v.size)) [
      | inl q ↦ rw q (
          subst (Gives max_size (append garbage max_size can_allocate v (x ∷ xs)))
            (at_end at v (x ∷ xs) i ((==_iff at v.size).0 q)) (append-Gives v (x ∷ xs) i h))
      | inr q ↦ rw q (grow_between-Gives v at (x ∷ xs) i h k)
    ])

    -- As for `insert`, with one new element.
    pub emplace-Gives :
        (v : PodVector A) (at : ℕ) (val : A)
        → IsValid max_size v
        → v.size < max_size
        → at ≤ v.size
        → Gives max_size
            (emplace garbage max_size can_allocate v at val)
            (take at (contents v) ++ (val ∷ drop at (contents v)))
    unfolding emplace
    emplace-Gives v at val i h k = rw (le→leb at v.size k) (elim (Bool-cases (at == v.size)) [
      | inl q ↦ rw q (
          subst (Gives max_size (emplace_back garbage max_size can_allocate v val))
            (at_end at v (val ∷ []) i ((==_iff at v.size).0 q)) (emplace_back-Gives v val i h))
      | inr q ↦ rw q (grow_between-Gives v at (val ∷ []) i (omega arith) k)
    ])

    grow_by-Gives :
        (v : PodVector A) (count : ℕ) (val : A)
        → IsValid max_size v
        → v.size + count ≤ max_size
        → Gives max_size
            (expand_fill garbage max_size can_allocate v count val)
            (contents v ++ replicate count val)
    unfolding expand_fill
    grow_by-Gives v zero val i h = (v, refl, i, sym (append-nil (contents v)))
    grow_by-Gives v (suc n) val i h = rw (suc-ne_zero n) (
        subst
          (λ (c : ℕ).
            Gives max_size
              (expand garbage max_size can_allocate v c >>= λ w.
                put w v.size (replicate (suc n) val))
              (contents v ++ replicate (suc n) val))
          (length-replicate (suc n) val)
          (grow_behind-Gives v (replicate (suc n) val) i
            (omega (arith, length-replicate (suc n) val))))

    -- As for `insert`, with `count` copies of a value in the place of the new elements.
    pub insert_fill-Gives :
        (v : PodVector A) (at count : ℕ) (val : A)
        → IsValid max_size v
        → v.size + count ≤ max_size
        → at ≤ v.size
        → Gives max_size
            (insert_fill garbage max_size can_allocate v at count val)
            (take at (contents v) ++ (replicate count val ++ drop at (contents v)))
    unfolding insert_fill
    insert_fill-Gives v at zero val i h k =
        rw (le→leb at v.size k) (v, refl, i, sym (take-append-drop at (contents v)))
    insert_fill-Gives v at (suc n) val i h k = rw (le→leb at v.size k) (
        rw (suc-ne_zero n) (elim (Bool-cases (at == v.size)) [
          | inl q ↦ rw q (
              subst (Gives max_size (expand_fill garbage max_size can_allocate v (suc n) val))
                (at_end at v (replicate (suc n) val) i ((==_iff at v.size).0 q))
                (grow_by-Gives v (suc n) val i h))
          | inr q ↦ rw q (
              subst
                (λ (c : ℕ).
                  Gives max_size
                    (expand garbage max_size can_allocate v c >>= λ w.
                      put_between w at (replicate (suc n) val))
                    (take at (contents v) ++ (replicate (suc n) val ++ drop at (contents v))))
                (length-replicate (suc n) val)
                (grow_between-Gives v at (replicate (suc n) val) i
                  (omega (arith, length-replicate (suc n) val)) k))
        ]))
