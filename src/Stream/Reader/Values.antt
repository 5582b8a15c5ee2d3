-- ===== src/Stream/Reader/Values.antt =====
-- The readers of whole values, on the bytes of a value.
use yasio.Base.{
  ℕ, suc, ◌%◌, ◌^◌, ◌≡◌, ◌<◌, ap, sym, ◌∙◌, List, [], ◌∷◌, ◌++◌, length, true, ltb, lt→ltb,
  if◌then◌else◌, arith, append_assoc, append-nil,
}
use yasio.Base.Outcome.{Outcome, ok, ◌>>=◌}
use yasio.Base.Int.{ℤ, pos, signed32}
use yasio.Endian.Bytes.{le_bytes, of_le, of_le-le_bytes, length-le_bytes}
use yasio.Endian.{Width, size_of, Convert}
use yasio.Endian.Laws.{Fits, IsConvert}
use yasio.Stream.Writer.{clamp_size}
use yasio.Stream.Writer.Append.{clamp_size_bounds, ix_bytes}
use yasio.Stream.Reader.{
  Reader, consume, read_bytes, read, read_varint, read_ix32, read_v, read_v_fx,
}
use yasio.Stream.Reader.Ready.{ready, consume-ready, read_bytes-ready}
use yasio.Stream.Reader.Ix.{read_ix32-ready}

signed32_small : (n : ℕ) → n < 2 ^ 31 → signed32 n ≡ pos n
signed32_small n h = rw (lt→ltb n (2 ^ 31) h)

as_int : (n : ℕ) → n < 2 ^ 31 → signed32 (n % 2 ^ 32) ≡ pos n
as_int n h = ap signed32 (omega arith) ∙ signed32_small n h

positive : (n : ℕ) → ltb 0 (suc n) ≡ true
positive n = ground arith

module _ (c : Convert) (k : IsConvert c) where
  of_le-to : (w : Width) (v : ℕ) → Fits w v → c.from w (of_le (le_bytes (size_of w) (c.to w v))) ≡ v
  of_le-to w v h =
      ap (c.from w) (of_le-le_bytes (size_of w) (c.to w v) (k.to-Fits w v h)) ∙ k.from-to w v h

  pub read-ready :
      (w : Width) (v : ℕ) (before rest : List ℕ)
      → Fits w v
      → read c (ready before (le_bytes (size_of w) (c.to w v) ++ rest)) w
        ≡ ok (v, ready (before ++ le_bytes (size_of w) (c.to w v)) rest)
  unfolding read
  read-ready w v before rest h =
      ap (λ (r : Outcome (List ℕ × Reader)). r >>= λ (us, r'). ok (c.from w (of_le us), r')) taken
      ∙ ap (λ (x : ℕ). ok (x, ready (before ++ vs) rest)) (of_le-to w v h)
    where
      vs : List ℕ
      vs = le_bytes (size_of w) (c.to w v)

      taken : consume (ready before (vs ++ rest)) (size_of w) ≡ ok (vs, ready (before ++ vs) rest)
      taken =
          ap (consume (ready before (vs ++ rest))) (sym (length-le_bytes (size_of w) (c.to w v)))
          ∙ consume-ready before vs rest

  pub read_varint-ready :
      (size : ℤ) (v : ℕ) (before rest : List ℕ)
      → v < 256 ^ clamp_size size
      → let vs = le_bytes (clamp_size size) (c.toint v (clamp_size size)) in
        read_varint c (ready before (vs ++ rest)) size ≡ ok (v, ready (before ++ vs) rest)
  unfolding read_varint
  read_varint-ready size v before rest h =
      ap (λ (r : Outcome (List ℕ × Reader)). r >>= λ (us, r'). ok (c.fromint (of_le us) n, r'))
        taken
      ∙ ap (λ (x : ℕ). ok (x, ready (before ++ vs) rest))
          (k.fromint-toint n v (clamp_size_bounds size).0 (clamp_size_bounds size).1 h)
    where
      n : ℕ
      n = clamp_size size

      vs : List ℕ
      vs = le_bytes n (c.toint v n)

      taken : consume (ready before (vs ++ rest)) n ≡ ok (vs, ready (before ++ vs) rest)
      taken =
          ap (consume (ready before (vs ++ rest))) (sym (length-le_bytes n (c.toint v n)))
          ∙ consume-ready before vs rest

  pub read_v_fx-ready :
      (w : Width) (vs before rest : List ℕ)
      → Fits w (length vs)
      → length vs < 2 ^ 31
      → let head = le_bytes (size_of w) (c.to w (length vs)) in
        read_v_fx c (ready before ((head ++ vs) ++ rest)) w
        ≡ ok (vs, ready (before ++ (head ++ vs)) rest)
  unfolding read_v_fx
  read_v_fx-ready w vs before rest fits h =
      ap (λ (r : Outcome (ℕ × Reader)). r >>= tail) counted ∙ finish vs h
    where
      head : List ℕ
      head = le_bytes (size_of w) (c.to w (length vs))

      tail : ℕ × Reader → Outcome (List ℕ × Reader)
      tail = λ (n, r'). if ltb 0 n then read_bytes r' (signed32 (n % 2 ^ 32)) else ok ([], r')

      counted :
          read c (ready before ((head ++ vs) ++ rest)) w
          ≡ ok (length vs, ready (before ++ head) (vs ++ rest))
      counted =
          ap (λ (t : List ℕ). read c (ready before t) w) (append_assoc head vs rest)
          ∙ read-ready w (length vs) before (vs ++ rest) fits

      finish :
          (us : List ℕ)
          → length us < 2 ^ 31
          → tail (length us, ready (before ++ head) (us ++ rest))
            ≡ ok (us, ready (before ++ (head ++ us)) rest)
      finish [] q = λ i. ok ([], ready (before ++ sym (append-nil head) i) rest)
      finish (u ∷ us) q = rw (positive (length us)) (
          ap (read_bytes (ready (before ++ head) ((u ∷ us) ++ rest))) (as_int (length (u ∷ us)) q)
          ∙ read_bytes-ready (before ++ head) (u ∷ us) rest
          ∙ (λ i. ok (u ∷ us, ready (append_assoc before head (u ∷ us) i) rest)))

pub read_v-ready :
    (vs before rest : List ℕ)
    → length vs < 2 ^ 31
    → read_v (ready before ((ix_bytes 9 (length vs) ++ vs) ++ rest))
      ≡ ok (vs, ready (before ++ (ix_bytes 9 (length vs) ++ vs)) rest)
unfolding read_v
read_v-ready vs before rest h =
    ap (λ (r : Outcome (ℕ × Reader)). r >>= λ (n, r'). read_bytes r' (signed32 n)) counted
    ∙ ap (read_bytes (ready (before ++ head) (vs ++ rest))) (signed32_small (length vs) h)
    ∙ read_bytes-ready (before ++ head) vs rest
    ∙ (λ i. ok (vs, ready (append_assoc before head vs i) rest))
  where
    head : List ℕ
    head = ix_bytes 9 (length vs)

    counted :
        read_ix32 (ready before ((head ++ vs) ++ rest))
        ≡ ok (length vs, ready (before ++ head) (vs ++ rest))
    counted =
        ap (λ (t : List ℕ). read_ix32 (ready before t)) (append_assoc head vs rest)
        ∙ read_ix32-ready (length vs) before (vs ++ rest) (omega arith)
