-- ===== src/ObjectPool/Cells.antt =====
-- The objects of a chunk, and what tidy_chunk of yasio/impl/object_pool.hpp makes of them.
use yasio.Base.{
  ℕ, zero, suc, ◌+◌, ◌≤◌, ◌<◌, ◌≡◌, ◌≢◌, refl, sym, subst, ◌∙◌, List, [], ◌∷◌, ◌++◌, some, arith,
}
use yasio.ObjectPool.{Memory, put, link}
use yasio.Base.Counts.{count, count_head, count_more, count_none}
use yasio.ObjectPool.Chain.{Linked, put_same, put_apart}

module _ (size : ℕ) where
  abbrev pub elements : ℕ → ℕ → List ℕ
  elements zero ptr = []
  elements (suc n) ptr = ptr ∷ elements n (ptr + size)

  elements_below : (n ptr a : ℕ) → 1 ≤ size → a < ptr → count a (elements n ptr) ≡ 0
  elements_below zero ptr a h l = refl
  elements_below (suc n) ptr a h l = ground (arith, elements_below n (ptr + size) a h (omega arith))

  module _ (element_count : ℕ) where
    abbrev pub cells : List ℕ → List ℕ
    cells [] = []
    cells (c ∷ cs) = elements element_count c ++ cells cs

    link_last : (n ptr : ℕ) (m : Memory) → ptr ≤ (link size element_count n ptr m).0
    unfolding link
    link_last zero ptr m = omega arith
    link_last (suc n) ptr m =
        omega (arith, link_last n (ptr + size) (put m ptr (some (ptr + size))))

    pub link_last-count :
        (n ptr : ℕ) (m : Memory)
        → 1 ≤ count (link size element_count n ptr m).0 (elements (suc n) ptr)
    unfolding link
    link_last-count zero ptr m = ground arith
    link_last-count (suc n) ptr m =
        ground (arith, link_last-count n (ptr + size) (put m ptr (some (ptr + size))))

    -- The other objects are left alone.
    pub link_apart :
        (n ptr a : ℕ) (m : Memory)
        → count a (elements (suc n) ptr) ≡ 0
        → (link size element_count n ptr m).1 a ≡ m a
    unfolding link
    link_apart zero ptr a m h = refl
    link_apart (suc n) ptr a m h =
        link_apart n (ptr + size) a (put m ptr (some (ptr + size)))
          (count_none a ptr (elements (suc n) (ptr + size)) h).1
        ∙ put_apart m ptr a (some (ptr + size))
            (count_none a ptr (elements (suc n) (ptr + size)) h).0

    -- Whatever is done to the last object, the others lead to it.
    pub link-Linked :
        (n ptr : ℕ) (m m' : Memory) (ys : List ℕ)
        → 1 ≤ size
        → let r = link size element_count n ptr m in
          ((a : ℕ) → a ≢ r.0 → 1 ≤ count a (elements (suc n) ptr) → m' a ≡ r.1 a)
          → Linked m' (m' r.0) ys
          → Linked m' (some ptr) (elements (suc n) ptr ++ ys)
    unfolding link
    link-Linked zero ptr m m' ys s h l = (refl, l)
    link-Linked (suc n) ptr m m' ys s h l = (
      refl,
      subst (λ o. Linked m' o (elements (suc n) (ptr + size) ++ ys)) (sym next)
          (link-Linked n (ptr + size) (put m ptr (some (ptr + size))) m' ys s
            (λ a k c. h a k (count_more a ptr (elements (suc n) (ptr + size)) c)) l),
    )
      where
        next : m' ptr ≡ some (ptr + size)
        next =
            h ptr
              (λ e.
                absurd (omega (arith, e, link_last n (ptr + size) (put m ptr (some (ptr + size))))))
              (count_head ptr (elements (suc n) (ptr + size)))
            ∙ link_apart n (ptr + size) ptr (put m ptr (some (ptr + size)))
                (elements_below (suc n) (ptr + size) ptr s (omega arith))
            ∙ put_same m ptr (some (ptr + size))
