-- ===== src/Base/Counts.antt =====
-- How often numbers are in lists.
use yasio.Base.{
  ℕ, suc, ◌+◌, ◌≤◌, ◌≡◌, ◌≢◌, refl, List, [], ◌∷◌, ◌++◌, ◌==◌, eq_test, if◌then◌else◌, arith,
}

-- How often a number is in a list.
abbrev pub count : ℕ → List ℕ → ℕ
count a [] = 0
count a (x ∷ xs) = if x == a then suc (count a xs) else count a xs

pub count-append : (a : ℕ) (xs ys : List ℕ) → count a (xs ++ ys) ≡ count a xs + count a ys
count-append a [] ys = omega arith
count-append a (x ∷ xs) ys = ground (arith, count-append a xs ys)

pub count_head : (p : ℕ) (ps : List ℕ) → 1 ≤ count p (p ∷ ps)
count_head p ps = ground arith

pub count_more : (a p : ℕ) (ps : List ℕ) → 1 ≤ count a ps → 1 ≤ count a (p ∷ ps)
count_more a p ps h = ground arith

pub count_none : (a p : ℕ) (ps : List ℕ) → count a (p ∷ ps) ≡ 0 → (p ≢ a) × (count a ps ≡ 0)
count_none a p ps h = ground arith

-- A list without the first `a`.
abbrev pub removed : ℕ → List ℕ → List ℕ
removed a [] = []
removed a (x ∷ xs) = if x == a then xs else x ∷ removed a xs

pub count-removed :
    (a b : ℕ) (xs : List ℕ)
    → 1 ≤ count a xs
    → count b (removed a xs) + count b (a ∷ []) ≡ count b xs
count-removed a b [] h = absurd (omega arith)
count-removed a b (x ∷ xs) h = ground (arith, count-removed a b xs)

pub removed_only : (a : ℕ) → removed a (a ∷ []) ≡ []
removed_only a = rw (eq_test a a refl) refl

pub counted : (a : ℕ) (xs : List ℕ) → count a (a ∷ xs) ≡ suc (count a xs)
counted a xs = rw (eq_test a a refl) refl
