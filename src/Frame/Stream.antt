-- ===== src/Frame/Stream.antt =====
-- What the cutting of a byte stream into packets promises, with no buffer and no reads.
use yasio.Base.{
  ℕ, suc, ◌≤◌, ◌<◌, ◌≡◌, ◌≢◌, ◌⊎◌, sym, subst, ◌∙◌, List, [], ◌∷◌, ◌++◌, length, take, drop,
  take-append_le, drop-append_le, length-append, arith,
}
use yasio.Base.Int.{ℤ, pos, negsuc}

-- What is required of a function that decodes the length of a frame: once it has decided, more
-- bytes change nothing, and it decides on a length only when the bytes to strip are there.
pub record IsFraming (decode_len : List ℕ → ℤ) (strip : ℕ) : Type 0 where
  pub settled : (u v : List ℕ) → decode_len u ≢ pos 0 → decode_len (u ++ v) ≡ decode_len u
  pub head_is_there : (u : List ℕ) (n : ℕ) → decode_len u ≡ pos (suc n) → strip ≤ length u

module _ (decode_len : List ℕ → ℤ) (strip : ℕ) where
  -- The stream begins with a frame of n + 1 bytes.
  abbrev pub Complete : List ℕ → ℕ → Type 0
  Complete x n = (decode_len x ≡ pos (suc n)) × (strip ≤ suc n) × (suc n ≤ length x)

  -- The stream ends before the length is known, or before the frame does.
  abbrev pub Incomplete : List ℕ → Type 0
  Incomplete x =
      (decode_len x ≡ pos 0) ⊎ ((n : ℕ) × (decode_len x ≡ pos (suc n)) × (length x < suc n))

  -- The length is negative, or less than the bytes to strip.
  abbrev pub Malformed : List ℕ → Type 0
  Malformed x =
      ((n : ℕ) × (decode_len x ≡ negsuc n))
      ⊎ ((n : ℕ) × (decode_len x ≡ pos (suc n)) × (suc n < strip))

  -- The stream x is cut into the packets ps, and y is left.
  pub data Frames : List ℕ → List (List ℕ) → List ℕ → Type 0 where
    rest : (x : List ℕ) → Frames x [] x
    frame :
        (x : List ℕ) (n : ℕ) (ps : List (List ℕ)) (y : List ℕ)
        → Complete x n
        → Frames (drop (suc n) x) ps y
        → Frames x (drop strip (take (suc n) x) ∷ ps) y

  pub Frames-trans :
      {x y z : List ℕ} {ps qs : List (List ℕ)}
      → Frames x ps y
      → Frames y qs z
      → Frames x (ps ++ qs) z
  Frames-trans (rest x) g = g
  Frames-trans (frame x n ps y c f) g = frame x n _ _ c (Frames-trans f g)

  length-eq : (x : List ℕ) (z w : ℤ) → decode_len x ≡ z → decode_len x ≡ w → z ≡ w
  length-eq x z w p q = sym p ∙ q

module _ (decode_len : List ℕ → ℤ) (strip : ℕ) (f : IsFraming decode_len strip) where
  pub settled_pos :
      (u v : List ℕ) (n : ℕ) → decode_len u ≡ pos (suc n) → decode_len (u ++ v) ≡ pos (suc n)
  settled_pos u v n e = f.settled u v (λ q. cc) ∙ e

  pub settled_neg :
      (u v : List ℕ) (n : ℕ) → decode_len u ≡ negsuc n → decode_len (u ++ v) ≡ negsuc n
  settled_neg u v n e = f.settled u v (λ q. cc) ∙ e

  -- Bytes that arrive later go to what is left.
  pub Frames-append :
      {x y : List ℕ} {ps : List (List ℕ)} (z : List ℕ)
      → Frames decode_len strip x ps y
      → Frames decode_len strip (x ++ z) ps (y ++ z)
  Frames-append z (rest x) = rest (x ++ z)
  Frames-append z (frame x n ps y (e, s, c) g) =
      subst (λ p. Frames decode_len strip (x ++ z) (drop strip p ∷ ps) (y ++ z))
        (take-append_le (suc n) x z c)
        (frame (x ++ z) n ps (y ++ z) (settled_pos x z n e, s, omega (arith, length-append x z))
          (subst (λ p. Frames decode_len strip p ps (y ++ z)) (sym (drop-append_le (suc n) x z c))
            (Frames-append z g)))
