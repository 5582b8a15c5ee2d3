-- ===== src/Timers/Lookup.antt =====
-- find_timer of yasio/io_service.hpp on a queue that is sorted, or has a callback replaced or a timer
-- erased.
use yasio.Base.{
  eq_test, apart_test, eq_of_test, apart_of_test, ℕ, ◌≡◌, ◌≢◌, ◌⊎◌, inl, inr, refl, ap, sym, subst,
  ◌∙◌, List, [], ◌∷◌, All, true, false, Bool-cases, leb, ◌==◌, ==_iff, if◌then◌else◌, some, none,
}
use yasio.Timers.{
  Control, TimerImpl, find_timer, insert_timer, sort_timers, replace_callback, erase_timer, found,
}
use yasio.Timers.Sorted.{All-insert_timer, All-sort_timers}

-- The timer is not that of the entry.
abbrev pub Apart : ℕ → TimerImpl → Type 0
Apart t x = x.timer ≢ t

-- Every timer is in the queue at most once.
abbrev pub IsDistinct : List TimerImpl → Type 0
IsDistinct [] = Unit
IsDistinct (x ∷ xs) = All (Apart x.timer) xs × IsDistinct xs

-- A search behind entries of other timers.
find_timer-head :
    (x : TimerImpl) (xs : List TimerImpl) (k : ℕ) → x.timer ≡ k → find_timer (x ∷ xs) k ≡ some x
unfolding find_timer
find_timer-head x xs k e = rw (eq_test x.timer k e) refl

find_timer-tail :
    (x : TimerImpl) (xs : List TimerImpl) (k : ℕ)
    → x.timer ≢ k
    → find_timer (x ∷ xs) k ≡ find_timer xs k
unfolding find_timer
find_timer-tail x xs k e = rw (apart_test x.timer k e) refl

pub find_timer-Apart : (xs : List TimerImpl) (k : ℕ) → All (Apart k) xs → find_timer xs k ≡ none
unfolding find_timer
find_timer-Apart [] k a = refl
find_timer-Apart (x ∷ xs) k (h, a) = find_timer-tail x xs k h ∙ find_timer-Apart xs k a

pub not_found : (xs : List TimerImpl) (k : ℕ) → found (find_timer xs k) ≡ false → All (Apart k) xs
unfolding find_timer
not_found [] k e = tt
not_found (x ∷ xs) k e = elim (Bool-cases (x.timer == k)) [
  | inl q ↦ cc
  | inr q ↦ (apart_of_test x.timer k q, not_found xs k (rw q at e))
]

module _ (c : ℕ → Control) where
  later :
      (x y : TimerImpl) (ys : List TimerImpl) (k : ℕ)
      → Apart x.timer y
      → find_timer (insert_timer c x ys) k ≡ find_timer (x ∷ ys) k
      → find_timer (y ∷ insert_timer c x ys) k ≡ find_timer (x ∷ y ∷ ys) k
  unfolding find_timer
  later x y ys k h e = elim (Bool-cases (x.timer == k)) [
    | inl q ↦
        let other = apart_test y.timer k (λ j. h (j ∙ sym ((==_iff x.timer k).0 q))) in
        rw q (rw other (rw q at e))
    | inr q ↦ rw q (ap (λ r. if y.timer == k then some y else r) (rw q at e))
  ]

  insert_timer-find :
      (x : TimerImpl) (xs : List TimerImpl) (k : ℕ)
      → All (Apart x.timer) xs
      → find_timer (insert_timer c x xs) k ≡ find_timer (x ∷ xs) k
  unfolding insert_timer
  insert_timer-find x [] k a = refl
  insert_timer-find x (y ∷ ys) k (h, a) =
      elim (Bool-cases (leb (c x.timer).expire_time (c y.timer).expire_time)) [
        | inl q ↦ rw q refl
        | inr q ↦ rw q (later x y ys k h (insert_timer-find x ys k a))
      ]

  pub sort_timers-find :
      (xs : List TimerImpl) (k : ℕ)
      → IsDistinct xs
      → find_timer (sort_timers c xs) k ≡ find_timer xs k
  unfolding sort_timers find_timer
  sort_timers-find [] k d = refl
  sort_timers-find (x ∷ xs) k (a, d) =
      insert_timer-find x (sort_timers c xs) k (All-sort_timers c (Apart x.timer) xs a)
      ∙ ap (λ r. if x.timer == k then some x else r) (sort_timers-find xs k d)

  insert_timer-IsDistinct :
      (x : TimerImpl) (xs : List TimerImpl)
      → All (Apart x.timer) xs
      → IsDistinct xs
      → IsDistinct (insert_timer c x xs)
  unfolding insert_timer
  insert_timer-IsDistinct x [] a d = (tt, tt)
  insert_timer-IsDistinct x (y ∷ ys) (h, a) (b, d) =
      elim (Bool-cases (leb (c x.timer).expire_time (c y.timer).expire_time)) [
        | inl q ↦ rw q ((h, a), (b, d))
        | inr q ↦ rw q (
          All-insert_timer c (Apart y.timer) x ys (λ e. h (sym e)) b,
          insert_timer-IsDistinct x ys a d,
        )
      ]

  pub sort_timers-IsDistinct : (xs : List TimerImpl) → IsDistinct xs → IsDistinct (sort_timers c xs)
  unfolding sort_timers
  sort_timers-IsDistinct [] d = tt
  sort_timers-IsDistinct (x ∷ xs) (a, d) =
      insert_timer-IsDistinct x (sort_timers c xs) (All-sort_timers c (Apart x.timer) xs a)
        (sort_timers-IsDistinct xs d)

replace_callback-Apart :
    (t : ℕ) (xs : List TimerImpl) (k cb : ℕ)
    → All (Apart t) xs
    → All (Apart t) (replace_callback xs k cb)
unfolding replace_callback
replace_callback-Apart t [] k cb a = tt
replace_callback-Apart t (x ∷ xs) k cb (h, a) = elim (Bool-cases (x.timer == k)) [
  | inl q ↦ rw q (h, a)
  | inr q ↦ rw q (h, replace_callback-Apart t xs k cb a)
]

pub replace_callback-IsDistinct :
    (xs : List TimerImpl) (k cb : ℕ) → IsDistinct xs → IsDistinct (replace_callback xs k cb)
unfolding replace_callback
replace_callback-IsDistinct [] k cb d = tt
replace_callback-IsDistinct (x ∷ xs) k cb (a, d) = elim (Bool-cases (x.timer == k)) [
  | inl q ↦ rw q (a, d)
  | inr q ↦ rw q (replace_callback-Apart x.timer xs k cb a, replace_callback-IsDistinct xs k cb d)
]

erase_timer-Apart :
    (t : ℕ) (xs : List TimerImpl) (k : ℕ) → All (Apart t) xs → All (Apart t) (erase_timer xs k)
unfolding erase_timer
erase_timer-Apart t [] k a = tt
erase_timer-Apart t (x ∷ xs) k (h, a) = elim (Bool-cases (x.timer == k)) [
  | inl q ↦ rw q a
  | inr q ↦ rw q (h, erase_timer-Apart t xs k a)
]

pub erase_timer-IsDistinct :
    (xs : List TimerImpl) (k : ℕ) → IsDistinct xs → IsDistinct (erase_timer xs k)
unfolding erase_timer
erase_timer-IsDistinct [] k d = tt
erase_timer-IsDistinct (x ∷ xs) k (a, d) = elim (Bool-cases (x.timer == k)) [
  | inl q ↦ rw q d
  | inr q ↦ rw q (erase_timer-Apart x.timer xs k a, erase_timer-IsDistinct xs k d)
]

-- The queue as a map.
pub replace_callback-find :
    (xs : List TimerImpl) (t cb k : ℕ)
    → found (find_timer xs t) ≡ true
    → find_timer (replace_callback xs t cb) k
      ≡ (if t == k then some (record { timer = t; callback = cb }) else find_timer xs k)
unfolding replace_callback find_timer
replace_callback-find [] t cb k e = cc
replace_callback-find (x ∷ xs) t cb k e = elim (Bool-cases (x.timer == t)) [
  | inl q ↦ rw q (here (eq_of_test x.timer t q) (Bool-cases (t == k)))
  | inr q ↦ rw q (
      beyond (apart_of_test x.timer t q) (replace_callback-find xs t cb k (rw q at e))
        (Bool-cases (t == k)))
]
  where
    here :
        x.timer ≡ t
        → ((t == k) ≡ true) ⊎ ((t == k) ≡ false)
        → find_timer (record x { callback = cb } ∷ xs) k
          ≡ (if t == k then some (record { timer = t; callback = cb }) else find_timer (x ∷ xs) k)
    here e (inl p) = rw p (
        rw (eq_test x.timer k (e ∙ eq_of_test t k p))
          (ap (λ (n : ℕ). some (record { timer = n; callback = cb })) e))
    here e (inr p) = rw p (rw (apart_test x.timer k (λ j. apart_of_test t k p (sym e ∙ j))) refl)

    beyond :
        x.timer ≢ t
        → find_timer (replace_callback xs t cb) k
          ≡ (if t == k then some (record { timer = t; callback = cb }) else find_timer xs k)
        → ((t == k) ≡ true) ⊎ ((t == k) ≡ false)
        → find_timer (x ∷ replace_callback xs t cb) k
          ≡ (if t == k then some (record { timer = t; callback = cb }) else find_timer (x ∷ xs) k)
    beyond h r (inl p) =
        rw p (rw (apart_test x.timer k (λ j. h (j ∙ sym (eq_of_test t k p)))) (rw p at r))
    beyond h r (inr p) = rw p (ap (λ o. if x.timer == k then some x else o) (rw p at r))

pub erase_timer-find :
    (xs : List TimerImpl) (t k : ℕ)
    → IsDistinct xs
    → find_timer (erase_timer xs t) k ≡ (if t == k then none else find_timer xs k)
unfolding erase_timer find_timer
erase_timer-find [] t k d = elim (Bool-cases (t == k)) [ inl p ↦ rw p refl | inr p ↦ rw p refl ]
erase_timer-find (x ∷ xs) t k (a, d) = elim (Bool-cases (x.timer == t)) [
  | inl q ↦ rw q (here (eq_of_test x.timer t q) (Bool-cases (t == k)))
  | inr q ↦
      rw q (beyond (apart_of_test x.timer t q) (erase_timer-find xs t k d) (Bool-cases (t == k)))
]
  where
    here :
        x.timer ≡ t
        → ((t == k) ≡ true) ⊎ ((t == k) ≡ false)
        → find_timer xs k ≡ (if t == k then none else find_timer (x ∷ xs) k)
    here e (inl p) =
        rw p (find_timer-Apart xs k (subst (λ (n : ℕ). All (Apart n) xs) (e ∙ eq_of_test t k p) a))
    here e (inr p) = rw p (rw (apart_test x.timer k (λ j. apart_of_test t k p (sym e ∙ j))) refl)

    beyond :
        x.timer ≢ t
        → find_timer (erase_timer xs t) k ≡ (if t == k then none else find_timer xs k)
        → ((t == k) ≡ true) ⊎ ((t == k) ≡ false)
        → find_timer (x ∷ erase_timer xs t) k ≡ (if t == k then none else find_timer (x ∷ xs) k)
    beyond h r (inl p) =
        rw p (rw (apart_test x.timer k (λ j. h (j ∙ sym (eq_of_test t k p)))) (rw p at r))
    beyond h r (inr p) = rw p (ap (λ o. if x.timer == k then some x else o) (rw p at r))
