-- ===== src/Sending/Stream.antt =====
-- What reaches the peer of a connection, and which handlers are called, against the buffers that
-- were given to io_transport::write.
use yasio.Base.{
  ℕ, zero, suc, ◌+◌, ◌≤◌, ◌<◌, ◌≡◌, inl, inr, refl, ap, sym, ◌∙◌, List, [], ◌∷◌, ◌++◌, map, concat,
  concat-append, length, take, drop, length-drop, append_assoc, append-nil, take-append-drop,
  take_all, drop_all, All, All-append, Bool, true, false, Bool-cases, ◌==◌, ==_iff, Option,
  if◌then◌else◌, arith,
}
use yasio.Sending.{
  SendOp, Performed, accepted, refused, Completion, Sender, Written, not_send_error, write,
  completion, call_write, poll_out, write_queue, do_write,
}

-- The bytes of an op that the kernel has not taken, and the call that its handler is owed.
abbrev pub left_of : SendOp → List ℕ
left_of op = drop op.offset op.buffer

abbrev pub unsent : List SendOp → List ℕ
unsent ops = concat (map left_of ops)

abbrev pub owed : SendOp → List Completion
owed op = completion op.handler 0 (length op.buffer)

abbrev pub all_owed : List SendOp → List Completion
all_owed ops = concat (map owed ops)

-- An op in the queue has bytes left.
abbrev pub IsPending : SendOp → Type 0
IsPending op = op.offset < length op.buffer

-- The kernel takes at most the bytes that it is given.
abbrev pub Takes : List SendOp → Performed → Type 0
Takes [] p = Unit
Takes (op ∷ ops) (accepted n) = n ≤ length (left_of op)
Takes (op ∷ ops) (refused e) = Unit

-- The bytes that reach the connection.
abbrev pub sent : List SendOp → Performed → List ℕ
sent [] p = []
sent (op ∷ ops) (accepted n) = take n (left_of op)
sent (op ∷ ops) (refused e) = []

drop-drop : {A : Type 0} (n m : ℕ) (xs : List A) → drop (n + m) xs ≡ drop m (drop n xs)
drop-drop zero m xs = ap (λ (k : ℕ). drop k xs) (omega arith)
drop-drop (suc n) m [] = drop_all (suc n + m) [] (omega arith) ∙ sym (drop_all m [] (omega arith))
drop-drop (suc n) m (x ∷ xs) = ap (λ (k : ℕ). drop k (x ∷ xs)) (shifted n m) ∙ drop-drop n m xs
  where
    shifted : (a b : ℕ) → suc a + b ≡ suc (a + b)
    shifted a b = omega arith

-- A step of the queue of a TCP connection loses no byte and no handler.
abbrev Keeps : List SendOp → Performed → Bool × ℕ × List SendOp × List Completion → Type 0
Keeps ops p r =
    (sent ops p ++ unsent r.2 ≡ unsent ops)
    × (r.3 ++ all_owed r.2 ≡ all_owed ops)
    × All IsPending r.2

call_write-Keeps :
    (op : SendOp) (ops : List SendOp) (p : Performed)
    → All IsPending (op ∷ ops)
    → Takes (op ∷ ops) p
    → Keeps (op ∷ ops) p (call_write false op ops p)
unfolding call_write
call_write-Keeps op ops (accepted zero) (h, a) t = (refl, refl, (h, a))
call_write-Keeps op ops (accepted (suc n)) (h, a) t =
    elim (Bool-cases (op.offset + suc n == length op.buffer)) [
      | inl q ↦ rw q (
        ap (λ w. w ++ unsent ops)
            (take_all (suc n) (left_of op)
              (omega (arith, length-drop op.offset op.buffer, (==_iff _ _).0 q))),
        ap (λ (k : ℕ). completion op.handler 0 k ++ all_owed ops) ((==_iff _ _).0 q),
        a,
      )
      | inr q ↦ rw q (
        ap (λ w. take (suc n) (left_of op) ++ (w ++ unsent ops))
              (drop-drop op.offset (suc n) op.buffer)
            ∙ sym
                (append_assoc (take (suc n) (left_of op)) (drop (suc n) (left_of op)) (unsent ops))
            ∙ ap (λ w. w ++ unsent ops) (take-append-drop (suc n) (left_of op)),
        refl,
        (
          below (op.offset + suc n) (length op.buffer) q
              (omega (arith, t, length-drop op.offset op.buffer)),
          a,
        ),
      )
    ]
  where
    below : (x y : ℕ) → (x == y) ≡ false → x ≤ y → x < y
    below x y e l = ground arith
call_write-Keeps op ops (refused e) (h, a) t = elim (Bool-cases (not_send_error e)) [
  | inl q ↦ rw q (refl, refl, (h, a))
  | inr q ↦ rw q (refl, refl, (h, a))
]

abbrev Kept : List SendOp → List ℕ → Written → Type 0
Kept ops bytes w =
    (bytes ++ unsent w.sender.send_queue ≡ unsent ops)
    × (w.completions ++ all_owed w.sender.send_queue ≡ all_owed ops)
    × All IsPending w.sender.send_queue

write_queue-Kept :
    (s : Sender) (ops : List SendOp) (p : Performed)
    → All IsPending ops
    → Takes ops p
    → Kept ops (sent ops p) (write_queue false s ops p)
unfolding write_queue poll_out
write_queue-Kept s [] p a t = (refl, refl, tt)
write_queue-Kept s (op ∷ ops) p a t = elim (Bool-cases (call_write false op ops p).0) [
  | inl q ↦ rw q (call_write-Keeps op ops p a t)
  | inr q ↦ rw q (call_write-Keeps op ops p a t)
]

-- do_write of a TCP connection: the bytes that are sent now are the first of those that waited, and
-- the rest still waits; the handlers that are called now are the first of those that are owed, each
-- with no error and the size of its buffer; and every op in the queue has bytes left.
pub do_write-keeps :
    (is_open : Bool) (s : Sender) (p : Performed)
    → All IsPending s.send_queue
    → Takes s.send_queue p
    → let r = do_write is_open false s p in
      ((if is_open then sent s.send_queue p else []) ++ unsent r.sender.send_queue
        ≡ unsent s.send_queue)
      × (r.completions ++ all_owed r.sender.send_queue ≡ all_owed s.send_queue)
      × All IsPending r.sender.send_queue
unfolding do_write
do_write-keeps true s p a t = write_queue-Kept s s.send_queue p a t
do_write-keeps false s p a t = (refl, refl, a)

-- The steps of a connection: a buffer that a user sends, and an event of the loop.
pub data Step : Type 0 where
  writes : List ℕ → Option ℕ → Step
  performs : Performed → Step

-- What has happened: the bytes sent, the handlers called, and the sender.
pub record Trace : Type 0 where
  pub wire : List ℕ
  pub called : List Completion
  pub sender : Sender

abbrev pub step : Sender → Step → Trace
step s (writes vs h) = record { wire = []; called = []; sender = (write true s vs h).1 }
step s (performs p) =
    let r = do_write true false s p in
    record { wire = sent s.send_queue p; called = r.completions; sender = r.sender }

abbrev pub run : Sender → List Step → Trace
run s [] = record { wire = []; called = []; sender = s }
run s (x ∷ xs) =
    let first = step s x in
    let later = run first.sender xs in
    record {
      wire = first.wire ++ later.wire;
      called = first.called ++ later.called;
      sender = later.sender;
    }

abbrev pub TakesAll : Sender → List Step → Type 0
TakesAll s [] = Unit
TakesAll s (writes vs h ∷ xs) = TakesAll (step s (writes vs h)).sender xs
TakesAll s (performs p ∷ xs) = Takes s.send_queue p × TakesAll (step s (performs p)).sender xs

-- The bytes that users gave, and the handlers with the sizes of their buffers. Nothing is sent for
-- an empty buffer, and its handler is not called.
abbrev pub given : List Step → List ℕ
given [] = []
given (writes vs h ∷ xs) = vs ++ given xs
given (performs p ∷ xs) = given xs

abbrev pub promised : List Step → List Completion
promised [] = []
promised (writes [] h ∷ xs) = promised xs
promised (writes (v ∷ vs) h ∷ xs) = completion h 0 (length (v ∷ vs)) ++ promised xs
promised (performs p ∷ xs) = promised xs

abbrev fresh : ℕ → List ℕ → Option ℕ → SendOp
fresh v vs h = record { offset = 0; buffer = v ∷ vs; handler = h }

map-append : {A B : Type 0} (f : A → B) (xs ys : List A) → map f (xs ++ ys) ≡ map f xs ++ map f ys
map-append f [] ys = refl
map-append f (x ∷ xs) ys = ap (◌∷◌ (f x)) (map-append f xs ys)

concat-map-append :
    {A B : Type 0} (f : A → List B) (xs ys : List A)
    → concat (map f (xs ++ ys)) ≡ concat (map f xs) ++ concat (map f ys)
concat-map-append f xs ys = ap concat (map-append f xs ys) ∙ concat-append (map f xs) (map f ys)

-- While the kernel takes no more than it is given, a TCP connection sends the users' bytes in the order in which they were given, none lost and
-- none twice, and calls the handlers in that order, each once, with no error and the size of its
-- buffer: what was sent and called, and what waits in the queue, is what was given, for every
-- sequence of writes and of answers of the kernel.
pub run-keeps :
    (xs : List Step) (s : Sender)
    → All IsPending s.send_queue
    → TakesAll s xs
    → let r = run s xs in
      (r.wire ++ unsent r.sender.send_queue ≡ unsent s.send_queue ++ given xs)
      × (r.called ++ all_owed r.sender.send_queue ≡ all_owed s.send_queue ++ promised xs)
      × All IsPending r.sender.send_queue
unfolding write
run-keeps [] s a t = (sym (append-nil _), sym (append-nil _), a)
run-keeps (writes [] h ∷ xs) s a t = run-keeps xs s a t
run-keeps (writes (v ∷ vs) h ∷ xs) s a t =
    let (k, c, b) =
      run-keeps xs (step s (writes (v ∷ vs) h)).sender
        (All-append IsPending s.send_queue (fresh v vs h ∷ []) a (omega arith, tt)) t in
    (
      k
          ∙ ap (λ w. w ++ given xs) (concat-map-append left_of s.send_queue (fresh v vs h ∷ []))
          ∙ append_assoc (unsent s.send_queue) ((v ∷ vs) ++ []) (given xs)
          ∙ ap (λ w. unsent s.send_queue ++ (w ++ given xs)) (append-nil (v ∷ vs)),
      c
          ∙ ap (λ w. w ++ promised xs) (concat-map-append owed s.send_queue (fresh v vs h ∷ []))
          ∙ append_assoc (all_owed s.send_queue) (owed (fresh v vs h) ++ []) (promised xs)
          ∙ ap (λ w. all_owed s.send_queue ++ (w ++ promised xs))
              (append-nil (owed (fresh v vs h))),
      b,
    )
run-keeps (performs p ∷ xs) s a (t, ts) =
    let (k, c, b) = do_write-keeps true s p a t in
    let (k', c', b') = run-keeps xs (step s (performs p)).sender b ts in
    (
      append_assoc (sent s.send_queue p) _ _
          ∙ ap (λ w. sent s.send_queue p ++ w) k'
          ∙ sym (append_assoc (sent s.send_queue p) _ (given xs))
          ∙ ap (λ w. w ++ given xs) k,
      append_assoc (step s (performs p)).called _ _
          ∙ ap (λ w. (step s (performs p)).called ++ w) c'
          ∙ sym (append_assoc (step s (performs p)).called _ (promised xs))
          ∙ ap (λ w. w ++ promised xs) c,
      b',
    )
