-- ===== src/Stream/Reader/Ready.antt =====
-- Reading from a known place of the data.
use yasio.Base.{
  ℕ, suc, ◌+◌, ◌*◌, ◌≡◌, ◌≤◌, ap, sym, ◌∙◌, List, [], ◌∷◌, ◌++◌, length, take, drop, true,
  append-nil, arith, length-append, le→leb, take-append_self, drop-append_self, append_assoc,
}
use yasio.Base.Outcome.{ok}
use yasio.Base.Int.{pos, ltb_ℤ}
use yasio.Stream.Reader.{Reader, consume, read_byte, read_bytes}

-- A reader that has `before` behind it and `rest` in front.
abbrev pub ready : List ℕ → List ℕ → Reader
ready before rest = record { content = before ++ rest; ptr = pos (length before) }

ready-append :
    (before vs rest : List ℕ)
    → record { content = before ++ (vs ++ rest); ptr = pos (length before + length vs) }
      ≡ ready (before ++ vs) rest
ready-append before vs rest = λ i. record {
  content = sym (append_assoc before vs rest) i;
  ptr = pos (sym (length-append before vs) i);
}

pub consume-ready :
    (before vs rest : List ℕ)
    → consume (ready before (vs ++ rest)) (length vs) ≡ ok (vs, ready (before ++ vs) rest)
unfolding consume
consume-ready before vs rest =
    rw (le→leb (length before + length vs) (length (before ++ (vs ++ rest))) within)
      (λ i. ok (cut i, ready-append before vs rest i))
  where
    within : length before + length vs ≤ length (before ++ (vs ++ rest))
    within = omega (arith, length-append before (vs ++ rest), length-append vs rest)

    cut : take (length vs) (drop (length before) (before ++ (vs ++ rest))) ≡ vs
    cut = ap (take (length vs)) (drop-append_self before (vs ++ rest)) ∙ take-append_self vs rest

pub read_byte-ready :
    (before : List ℕ) (v : ℕ) (rest : List ℕ)
    → read_byte (ready before (v ∷ rest)) ≡ ok (v, ready (before ++ v ∷ []) rest)
unfolding read_byte
read_byte-ready before v rest =
    rw (consume-ready before (v ∷ []) rest) (λ i. ok (alone i, ready (before ++ v ∷ []) rest))
  where
    alone : v + 256 * 0 ≡ v
    alone = omega arith

pub read_bytes-ready :
    (before vs rest : List ℕ)
    → read_bytes (ready before (vs ++ rest)) (pos (length vs)) ≡ ok (vs, ready (before ++ vs) rest)
unfolding read_bytes
read_bytes-ready before [] rest = λ i. ok ([], ready (sym (append-nil before) i) rest)
read_bytes-ready before (v ∷ vs) rest =
    rw (positive (length vs)) (consume-ready before (v ∷ vs) rest)
  where
    positive : (n : ℕ) → ltb_ℤ (pos 0) (pos (suc n)) ≡ true
    positive n = ground arith
