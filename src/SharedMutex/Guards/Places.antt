-- ===== src/SharedMutex/Guards/Places.antt =====
-- The places of the guards of yasio/shared_mutex.hpp, and what the guards there own in all.
use yasio.Base.{inl, ℕ, zero, suc, ◌+◌, ◌<◌, ◌≡◌, refl, ap, List, [], ◌∷◌, length, All, arith}
use yasio.SharedMutex.Guards.{SharedLock, empty, at, put_guard, move_assign, swap}
use yasio.SharedMutex.Guards.Shares.{IsGuard, share, shares}

pub at-IsGuard : (i : ℕ) (gs : List SharedLock) → All IsGuard gs → IsGuard (at i gs)
at-IsGuard i [] hs = inl refl
at-IsGuard zero (g ∷ gs) (h, hs) = h
at-IsGuard (suc i) (g ∷ gs) (h, hs) = at-IsGuard i gs hs

pub put_guard-All :
    (i : ℕ) (g : SharedLock) (gs : List SharedLock)
    → IsGuard g
    → All IsGuard gs
    → All IsGuard (put_guard i g gs)
put_guard-All i g [] k hs = hs
put_guard-All zero g (x ∷ gs) k (h, hs) = (k, hs)
put_guard-All (suc i) g (x ∷ gs) k (h, hs) = (h, put_guard-All i g gs k hs)

length-put_guard :
    (i : ℕ) (g : SharedLock) (gs : List SharedLock) → length (put_guard i g gs) ≡ length gs
length-put_guard i g [] = refl
length-put_guard zero g (x ∷ gs) = refl
length-put_guard (suc i) g (x ∷ gs) = ap suc (length-put_guard i g gs)

-- Where the guard at the second place stands at the first, it stands at the second too.
at-put_guard :
    (i j : ℕ) (gs : List SharedLock) → j < length gs → at j (put_guard i (at j gs) gs) ≡ at j gs
at-put_guard i j [] h = refl
at-put_guard zero zero (x ∷ gs) h = refl
at-put_guard zero (suc j) (x ∷ gs) h = refl
at-put_guard (suc i) zero (x ∷ gs) h = refl
at-put_guard (suc i) (suc j) (x ∷ gs) h = at-put_guard i j gs (omega (arith, h))

module _ (m : ℕ) where
  pub shares-put_guard :
      (i : ℕ) (g : SharedLock) (gs : List SharedLock)
      → i < length gs
      → shares m (put_guard i g gs) + share m (at i gs) ≡ shares m gs + share m g
  shares-put_guard i g [] h = absurd (omega (arith, h))
  shares-put_guard zero g (x ∷ gs) h = omega arith
  shares-put_guard (suc i) g (x ∷ gs) h = omega (arith, shares-put_guard i g gs (omega (arith, h)))

  -- The second place is written after the first was given what stood there.
  shares-put_both :
      (i j : ℕ) (g : SharedLock) (gs : List SharedLock)
      → i < length gs
      → j < length gs
      → shares m (put_guard j g (put_guard i (at j gs) gs)) + share m (at i gs)
        ≡ shares m gs + share m g
  shares-put_both i j g gs hi hj = omega (
    arith,
    shares-put_guard j g (put_guard i (at j gs) gs)
        (omega (arith, hj, length-put_guard i (at j gs) gs)),
    ap (share m) (at-put_guard i j gs hj),
    shares-put_guard i (at j gs) gs hi,
  )

  pub shares-move_assign :
      (i j : ℕ) (gs : List SharedLock)
      → i < length gs
      → j < length gs
      → shares m (move_assign i j gs) ≡ shares m (put_guard i empty gs)
  shares-move_assign i j gs hi hj =
      omega (arith, shares-put_both i j empty gs hi hj, shares-put_guard i empty gs hi)

  pub shares-swap :
      (i j : ℕ) (gs : List SharedLock)
      → i < length gs
      → j < length gs
      → shares m (swap i j gs) ≡ shares m gs
  shares-swap i j gs hi hj = omega (arith, shares-put_both i j (at i gs) gs hi hj)
