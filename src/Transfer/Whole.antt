-- ===== src/Transfer/Whole.antt =====
-- What send_n and recv_n of yasio/xxsocket.cpp have moved when they return.
use yasio.Base.{
  ℕ, zero, suc, ◌+◌, ◌-◌, ◌≤◌, ◌≡◌, refl, sym, ap, subst, ◌∙◌, List, [], ◌∷◌, ◌++◌, append_assoc,
  append-nil, Bool, false, length, length-append, take, drop, drop_all, take-append-drop, true, ltb,
  lt→ltb, le→ltb_false, if_both, arith,
}
use native.Mathlib.Nat.{zero-add, suc-add}
use yasio.Sending.Drain.{IsTransient, not_send_error-IsTransient}
use yasio.Base.Int.{ℤ, pos, ◌-ℤ◌}
use yasio.Sending.{not_send_error}
use yasio.Transfer.{Answer, moves, ends, fails, send_n, recv_n, goes_on}

-- The kernel takes no more than it is given.
abbrev pub Fits : List (Answer ℕ) → ℕ → Type 0
Fits [] left = Unit
Fits (moves n ∷ answers) left = (n ≤ left) × Fits answers (left - n)
Fits (ends ∷ answers) left = Unit
Fits (fails e f t ∷ answers) left = Fits answers left

-- What was sent, after `sent` bytes.
abbrev pub IsPart : List ℕ → ℕ → ℕ × List ℕ → Type 0
IsPart buf sent (total, wire) =
    (sent ≤ total) × (total ≤ length buf) × (take sent buf ++ wire ≡ take total buf)

take_none : (n : ℕ) → take {A = ℕ} n [] ≡ []
take_none zero = refl
take_none (suc n) = refl

drop_none : (n : ℕ) → drop {A = ℕ} n [] ≡ []
drop_none zero = refl
drop_none (suc n) = refl

take-more : (n k m : ℕ) (xs : List ℕ) → m ≡ n + k → take n xs ++ take k (drop n xs) ≡ take m xs
take-more zero k m xs e = rw (same_count) refl
  where
    same_count : m ≡ k
    same_count = omega (arith, e)
take-more (suc n) k m [] e = take_none k ∙ sym (take_none m)
take-more (suc n) k zero (x ∷ xs) e = absurd (omega (arith, e))
take-more (suc n) k (suc m) (x ∷ xs) e = ap (λ l. x ∷ l) (take-more n k m xs (omega (arith, e)))

moved-IsPart :
    (buf : List ℕ) (sent n : ℕ) (r : ℕ × List ℕ)
    → IsPart buf (sent + n) r
    → IsPart buf sent (r.0, take n (drop sent buf) ++ r.1)
moved-IsPart buf sent n (total, wire) (a, b, e) = (
  omega (arith, a),
  b,
  sym (append_assoc (take sent buf) (take n (drop sent buf)) wire)
      ∙ ap (λ l. l ++ wire) (take-more sent n (sent + n) buf refl)
      ∙ e,
)

send_n-IsPart :
    (answers : List (Answer ℕ)) (buf : List ℕ) (sent : ℕ) (wtimeout : ℤ)
    → sent ≤ length buf
    → Fits answers (length buf - sent)
    → IsPart buf sent (send_n answers buf sent wtimeout)
unfolding send_n
send_n-IsPart [] buf sent w h f = (omega arith, h, append-nil (take sent buf))
send_n-IsPart (ends ∷ answers) buf sent w h f = (omega arith, h, append-nil (take sent buf))
send_n-IsPart (moves n ∷ answers) buf sent w h (k, f) =
    if_both (IsPart buf sent) (ltb sent (length buf)) _ _
      (moved-IsPart buf sent n (send_n answers buf (sent + n) w) (
        send_n-IsPart answers buf (sent + n) w (omega (arith, h, k)) (subst (Fits answers) left f)))
      (omega arith, h, append-nil (take sent buf))
  where
    left : length buf - sent - n ≡ length buf - (sent + n)
    left = omega arith
send_n-IsPart (fails e x t ∷ answers) buf sent w h f =
    if_both (IsPart buf sent) _ _ _ (send_n-IsPart answers buf sent (w -ℤ t) h f)
      (omega arith, h, append-nil (take sent buf))

-- Where the kernel takes no more than it is given, send_n puts a prefix of the buffer on the wire, as
-- many bytes as it returns, whatever calls fail or wait between.
pub send_n-prefix :
    (answers : List (Answer ℕ)) (buf : List ℕ) (wtimeout : ℤ)
    → Fits answers (length buf)
    → let (total, wire) = send_n answers buf 0 wtimeout in
      (total ≤ length buf) × (wire ≡ take total buf)
send_n-prefix answers buf w f =
    let (a, b, e) = send_n-IsPart answers buf 0 w (omega arith) (subst (Fits answers) whole f) in
    (b, e)
  where
    whole : length buf ≡ length buf - 0
    whole = omega arith

-- Until the bytes are sent the kernel takes at least a byte, and no more than are left, or fails with
-- EAGAIN, EINTR or ENOBUFS, where select does not fail and time is left behind it.
abbrev pub Lasts : List (Answer ℕ) → ℕ → ℤ → Type 0
Lasts answers zero w = Unit
Lasts [] (suc left) w = ⊥
Lasts (moves n ∷ answers) (suc left) w = (1 ≤ n) × (n ≤ suc left) × Lasts answers (suc left - n) w
Lasts (ends ∷ answers) (suc left) w = ⊥
Lasts (fails e x t ∷ answers) (suc left) w =
    IsTransient e
    × (x ≡ false)
    × ((m : ℕ) × (w -ℤ t ≡ pos (suc m)))
    × Lasts answers (suc left) (w -ℤ t)

goes_on-true :
    (e : ℕ) (select_failed : Bool) (left : ℤ)
    → IsTransient e
    → select_failed ≡ false
    → (m : ℕ) × (left ≡ pos (suc m))
    → goes_on (not_send_error e) select_failed left ≡ true
goes_on-true e select_failed left g f (m, l) =
    rw (not_send_error-IsTransient e g, f, l) (ground arith)

drop-drop : (n k : ℕ) (xs : List ℕ) → drop n (drop k xs) ≡ drop (k + n) xs
drop-drop n zero xs = ap (λ j. drop j xs) (sym (zero-add n))
drop-drop n (suc k) [] = drop_none n ∙ sym (drop_none (suc k + n))
drop-drop n (suc k) (x ∷ xs) = drop-drop n k xs ∙ ap (λ j. drop j (x ∷ xs)) (sym (suc-add k n))

sent_more :
    (n sent : ℕ) (buf : List ℕ) → take n (drop sent buf) ++ drop (sent + n) buf ≡ drop sent buf
sent_more n sent buf =
    ap (λ l. take n (drop sent buf) ++ l) (sym (drop-drop n sent buf))
    ∙ take-append-drop n (drop sent buf)

send_n_rest :
    (answers : List (Answer ℕ)) (buf : List ℕ) (sent left : ℕ) (w : ℤ)
    → sent + left ≡ length buf
    → Lasts answers left w
    → send_n answers buf sent w ≡ (length buf, drop sent buf)
unfolding send_n
send_n_rest answers buf sent zero w e h = nothing_left answers
  where
    end : ◌≡◌ {A = ℕ × List ℕ} (sent, []) (length buf, drop sent buf)
    end = λ i. (same_length i, sym (drop_all sent buf (omega (arith, e))) i)
      where
        same_length : sent ≡ length buf
        same_length = omega (arith, e)

    nothing_left : (as' : List (Answer ℕ)) → send_n as' buf sent w ≡ (length buf, drop sent buf)
    nothing_left [] = end
    nothing_left (ends ∷ as') = end
    nothing_left (moves n ∷ as') = rw (le→ltb_false (length buf) sent (omega (arith, e))) end
    nothing_left (fails c x t ∷ as') = rw (le→ltb_false (length buf) sent (omega (arith, e))) end
send_n_rest [] buf sent (suc left) w e h = absurd h
send_n_rest (ends ∷ answers) buf sent (suc left) w e h = absurd h
send_n_rest (moves n ∷ answers) buf sent (suc left) w e (p, k, h) =
    let rest = send_n_rest answers buf (sent + n) (suc left - n) w (omega (arith, e, k)) h in
    rw (lt→ltb sent (length buf) (omega (arith, e))) (
      (λ i. ((rest i).0, take n (drop sent buf) ++ (rest i).1))
      ∙ (λ i. (length buf, sent_more n sent buf i)))
send_n_rest (fails c x t ∷ answers) buf sent (suc left) w e (g, x_false, left_of_time, h) =
    rw
      (
        lt→ltb sent (length buf) (omega (arith, e)),
        goes_on-true c x (w -ℤ t) g x_false left_of_time,
      )
      (send_n_rest answers buf sent (suc left) (w -ℤ t) e h)

-- A buffer is sent whole and in order, where the kernel takes at least a byte of it, and no more than is
-- left, until it is, and where the calls that fail between do so with EAGAIN, EINTR or ENOBUFS, select does not
-- fail after them, and time is left.
pub send_n-whole :
    (answers : List (Answer ℕ)) (buf : List ℕ) (wtimeout : ℤ)
    → Lasts answers (length buf) wtimeout
    → send_n answers buf 0 wtimeout ≡ (length buf, buf)
send_n-whole answers buf w h = send_n_rest answers buf 0 (length buf) w (omega arith) h

-- What the kernel has for a reader.
abbrev pub arrived : List (Answer (List ℕ)) → List ℕ
arrived [] = []
arrived (moves bytes ∷ answers) = bytes ++ arrived answers
arrived (ends ∷ answers) = arrived answers
arrived (fails e x t ∷ answers) = arrived answers

-- The kernel gives no more than is asked for.
abbrev pub Keeps : List (Answer (List ℕ)) → ℕ → Type 0
Keeps [] left = Unit
Keeps (moves bytes ∷ answers) left = (length bytes ≤ left) × Keeps answers (left - length bytes)
Keeps (ends ∷ answers) left = Unit
Keeps (fails e x t ∷ answers) left = Keeps answers left

abbrev pub IsStart : List ℕ → ℕ → List ℕ → Type 0
IsStart all len got = (length got ≤ len) × (rest : List ℕ) × (got ++ rest ≡ all)

recv_n-IsStart :
    (answers : List (Answer (List ℕ))) (len : ℕ) (got : List ℕ) (w : ℤ)
    → length got ≤ len
    → Keeps answers (len - length got)
    → IsStart (got ++ arrived answers) len (recv_n answers len got w)
unfolding recv_n
recv_n-IsStart [] len got w h k = (h, [], refl)
recv_n-IsStart (ends ∷ answers) len got w h k = (h, arrived answers, refl)
recv_n-IsStart (moves bytes ∷ answers) len got w h (k, ks) =
    if_both (IsStart (got ++ (bytes ++ arrived answers)) len) (ltb (length got) len) _ _
      (subst (λ all. IsStart all len (recv_n answers len (got ++ bytes) w))
        (append_assoc got bytes (arrived answers))
        (recv_n-IsStart answers len (got ++ bytes) w (omega (arith, h, k, length-append got bytes))
          (subst (Keeps answers) left ks)))
      (h, bytes ++ arrived answers, refl)
  where
    left : len - length got - length bytes ≡ len - length (got ++ bytes)
    left = omega (arith, length-append got bytes)
recv_n-IsStart (fails e x t ∷ answers) len got w h k =
    if_both (IsStart (got ++ arrived answers) len) _ _ _
      (recv_n-IsStart answers len got (w -ℤ t) h k) (h, arrived answers, refl)

-- Where the kernel gives no more than is asked for, recv_n gives at most `len` bytes, the first ones that
-- arrived, in order, whatever calls fail or wait between.
pub recv_n-prefix :
    (answers : List (Answer (List ℕ))) (len : ℕ) (wtimeout : ℤ)
    → Keeps answers len
    → IsStart (arrived answers) len (recv_n answers len [] wtimeout)
recv_n-prefix answers len w k =
    recv_n-IsStart answers len [] w (omega arith) (subst (Keeps answers) whole k)
  where
    whole : len ≡ len - 0
    whole = omega arith
