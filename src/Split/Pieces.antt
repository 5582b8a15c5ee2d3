-- ===== src/Split/Pieces.antt =====
-- The pieces of a string, as yasio/split.hpp cuts it.
use yasio.Base.{
  ℕ, ◌≡◌, ◌≢◌, refl, sym, ap, ◌∙◌, List, [], ◌∷◌, ◌++◌, append_assoc, append-nil, All, Bool, true,
  false, ◌==◌, apart_test, eq_test, eq_of_test, apart_of_test, if_both, if◌then◌else◌,
}
use yasio.Split.{stop_or, split_from, split_if, split_n_from, split_if_n}

-- Pieces with the delimiter between them.
abbrev pub joined : ℕ → List ℕ → List (List ℕ) → List ℕ
joined delim p [] = p
joined delim p (q ∷ ps) = p ++ delim ∷ joined delim q ps

-- No character of the piece is one of these.
abbrev pub IsFree : ℕ → List ℕ → Type 0
IsFree delim p = All (λ c. c ≢ delim) p

-- A function that is given one piece after the other, until it asks to stop.
abbrev pub given : {S : Type 0} → (S → List ℕ → Bool × S) → List (List ℕ) → S → S
given pred [] s = s
given pred (p ∷ ps) s = if (pred s p).0 then given pred ps (pred s p).1 else (pred s p).1

module _ {S : Type 0} (delim : ℕ) (pred : S → List ℕ → Bool × S) where
  -- Over characters that are not the delimiter.
  split_from-free :
      (piece p rest : List ℕ) (s : S)
      → IsFree delim p
      → split_from delim pred piece (p ++ rest) s ≡ split_from delim pred (piece ++ p) rest s
  unfolding split_from
  split_from-free piece [] rest s h =
      ap (λ x. split_from delim pred x rest s) (sym (append-nil piece))
  split_from-free piece (c ∷ p) rest s (h, hs) = rw (apart_test c delim h) (
      split_from-free (piece ++ c ∷ []) p rest s hs
      ∙ ap (λ x. split_from delim pred x rest s) (append_assoc piece (c ∷ []) p))

  ending : (p : List ℕ) (s : S) → given pred (p ∷ []) s ≡ (pred s p).1
  ending p s = if_both (λ (x : S). x ≡ (pred s p).1) (pred s p).0 _ _ refl refl

  split_from-joined :
      (p : List ℕ) (ps : List (List ℕ)) (s : S)
      → IsFree delim p
      → All (IsFree delim) ps
      → split_from delim pred [] (joined delim p ps) s ≡ given pred (p ∷ ps) s
  unfolding split_from
  split_from-joined p [] s h hs =
      ap (λ x. split_from delim pred [] x s) (sym (append-nil p))
      ∙ split_from-free [] p [] s h
      ∙ sym (ending p s)
  split_from-joined p (q ∷ ps) s h (k, ks) =
      split_from-free [] p (delim ∷ joined delim q ps) s h
      ∙ rw (eq_test delim delim refl) (
          ap (stop_or delim pred (pred s p).0 (pred s p).1)
            (split_from-joined q ps (pred s p).1 k ks))

  -- A string that is made of pieces without the delimiter, with the delimiter between them, is cut into
  -- these pieces: the function is given them in order, up to the one at which it asks to stop.
  pub split_if-joined :
      (p : List ℕ) (ps : List (List ℕ)) (s : S)
      → IsFree delim p
      → All (IsFree delim) ps
      → split_if delim pred (joined delim p ps) s ≡ given pred (p ∷ ps) s
  unfolding split_if
  split_if-joined p ps s h hs = split_from-joined p ps s h hs

-- Every string is made of such pieces.
abbrev pub IsCut : ℕ → List ℕ → Type 0
IsCut delim cs =
    (p : List ℕ) × (ps : List (List ℕ)) × (joined delim p ps ≡ cs)
    × IsFree delim p
    × All (IsFree delim) ps

IsCut-more :
    (delim c : ℕ) (cs : List ℕ)
    → IsCut delim cs
    → (b : Bool) → (c == delim) ≡ b
    → IsCut delim (c ∷ cs)
IsCut-more delim c cs (p, ps, e, h, hs) true t =
    ([], p ∷ ps, (λ i. sym (eq_of_test c delim t) i ∷ e i), tt, (h, hs))
IsCut-more delim c cs (p, [], e, h, hs) false t =
    (c ∷ p, [], ap (λ x. c ∷ x) e, (apart_of_test c delim t, h), hs)
IsCut-more delim c cs (p, q ∷ ps, e, h, hs) false t =
    (c ∷ p, q ∷ ps, ap (λ x. c ∷ x) e, (apart_of_test c delim t, h), hs)

cut : (delim : ℕ) (cs : List ℕ) → IsCut delim cs
cut delim [] = ([], [], refl, tt, tt)
cut delim (c ∷ cs) = IsCut-more delim c cs (cut delim cs) (c == delim) refl

module _ {S : Type 0} (delim : ℕ) where
  -- The function is given pieces without the delimiter, which with the delimiter between them make up
  -- the string, in order, up to the one at which it asks to stop.
  pub split_if-pieces :
      (pred : S → List ℕ → Bool × S) (cs : List ℕ) (s : S)
      → (p : List ℕ) × (ps : List (List ℕ)) × (joined delim p ps ≡ cs)
        × IsFree delim p
        × All (IsFree delim) ps
        × (split_if delim pred cs s ≡ given pred (p ∷ ps) s)
  split_if-pieces pred cs s =
      let (p, ps, e, h, hs) = cut delim cs in
      (
        p,
        ps,
        e,
        h,
        hs,
        ap (λ x. split_if delim pred x s) (sym e) ∙ split_if-joined delim pred p ps s h hs,
      )

  -- With a length, a string without 0 is cut as without one.
  split_n_from-split_from :
      (pred : S → List ℕ → Bool × S) (piece cs : List ℕ) (s : S)
      → IsFree 0 cs
      → split_n_from delim pred piece cs s ≡ split_from delim pred piece cs s
  unfolding split_n_from split_from
  split_n_from-split_from pred piece [] s h = refl
  split_n_from-split_from pred piece (c ∷ cs) s (h, hs) = rw (apart_test c 0 h) (λ i.
      if c == delim
      then stop_or delim pred (pred s piece).0 (pred s piece).1
          (split_n_from-split_from pred [] cs (pred s piece).1 hs i)
      else split_n_from-split_from pred (piece ++ c ∷ []) cs s hs i)

  pub split_if_n-split_if :
      (pred : S → List ℕ → Bool × S) (cs : List ℕ) (s : S)
      → IsFree 0 cs
      → split_if_n delim pred cs s ≡ split_if delim pred cs s
  unfolding split_if_n split_if
  split_if_n-split_if pred cs s h = split_n_from-split_from pred [] cs s h
