-- ===== src/ObjectPool/Chain.antt =====
-- Lists of objects that are linked through their first words.
use yasio.Base.{
  ℕ, ◌≤◌, ◌≡◌, ◌≢◌, refl, sym, subst, List, [], ◌∷◌, apart_test, eq_test, Option, some, none, arith,
}
use yasio.Base.Counts.{count}
use yasio.ObjectPool.{Memory, put}

-- From the pointer `o` on, the objects are those of the list, and the last one has no next.
abbrev pub Linked : Memory → Option ℕ → List ℕ → Type 0
Linked m o [] = o ≡ none
Linked m o (p ∷ ps) = (o ≡ some p) × Linked m (m p) ps

pub put_same : (m : Memory) (p : ℕ) (v : Option ℕ) → put m p v p ≡ v
put_same m p v = rw (eq_test p p refl) refl

pub put_apart : (m : Memory) (p k : ℕ) (v : Option ℕ) → p ≢ k → put m p v k ≡ m k
put_apart m p k v n = rw (apart_test p k n) refl

-- Only the words of the list count.
pub Linked-agree :
    (m m' : Memory) (o : Option ℕ) (ps : List ℕ)
    → ((a : ℕ) → 1 ≤ count a ps → m' a ≡ m a)
    → Linked m o ps
    → Linked m' o ps
Linked-agree m m' o [] h l = l
Linked-agree m m' o (p ∷ ps) h (e, l) = (
  e,
  subst (λ o'. Linked m' o' ps) (sym (h p (ground arith)))
      (Linked-agree m m' (m p) ps (λ a k. h a (ground arith)) l),
)
