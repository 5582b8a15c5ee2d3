-- ===== src/EventQueue/Order.antt =====
-- The events come out of concurrent_queue in the order in which they went in.
use yasio.Base.{
  ℕ, zero, suc, ◌≤◌, ◌≡◌, refl, ap, sym, ◌∙◌, List, [], ◌∷◌, ◌++◌, length, length-append,
  append_assoc, append-nil, arith,
}
use yasio.Base.Int.{ℤ, pos, negsuc}
use yasio.EventQueue.{DualQueue, emplace, take_events, swapped, consume, count, dispatch}

module _ {A : Type 0} where
  -- The events that wait, the next one first.
  abbrev pub pending : DualQueue A → List A
  pending q = q.deal ++ q.queue

  pub count-pending : (q : DualQueue A) → count q ≡ length (pending q)
  unfolding count
  count-pending q = omega (arith, length-append q.deal q.queue)

  take_events-append : (n : ℕ) (d : List A) → (take_events n d).0 ++ (take_events n d).1 ≡ d
  unfolding take_events
  take_events-append zero d = refl
  take_events-append (suc n) [] = refl
  take_events-append (suc n) (x ∷ d) = ap (◌∷◌ x) (take_events-append n d)

  swapped-pending :
      (queue deal : List A)
      → pending (swapped (record { queue = queue; deal = deal })) ≡ deal ++ queue
  unfolding swapped
  swapped-pending queue [] = append-nil queue
  swapped-pending queue (x ∷ deal) = refl

  -- What `consume` hands on are the next events, and the rest waits.
  consume-pending :
      (q : DualQueue A) (n : ℤ) → (consume q n).0 ++ pending (consume q n).1 ≡ pending q
  unfolding consume
  consume-pending q (negsuc n) = swapped-pending q.queue q.deal
  consume-pending q (pos n) =
      sym (append_assoc _ _ (swapped q).queue)
      ∙ ap (λ d. d ++ (swapped q).queue) (take_events-append n (swapped q).deal)
      ∙ swapped-pending q.queue q.deal

  emplace-pending : (q : DualQueue A) (x : A) → pending (emplace q x) ≡ pending q ++ x ∷ []
  unfolding emplace
  emplace-pending q x = sym (append_assoc q.deal q.queue (x ∷ []))

-- The steps of the threads, one after the other.
pub data Step (A : Type 0) : Type 0 where
  emplaces : A → Step A
  consumes : ℤ → Step A

module _ {A : Type 0} where
  abbrev pub put_in : List (Step A) → List A
  put_in [] = []
  put_in (emplaces x ∷ ss) = x ∷ put_in ss
  put_in (consumes n ∷ ss) = put_in ss

  -- The events that were handed on, and the queue at the end.
  pub run : DualQueue A → List (Step A) → List A × DualQueue A
  run q [] = ([], q)
  run q (emplaces x ∷ ss) = run (emplace q x) ss
  run q (consumes n ∷ ss) =
      let (events, r) = consume q n in let (later, s) = run r ss in (events ++ later, s)

  -- In every interleaving of producers and consumer no event is lost, doubled or overtaken: those
  -- handed on and those that wait are the ones that waited and the ones put in, in their order.
  pub run-pending :
      (ss : List (Step A)) (q : DualQueue A)
      → (run q ss).0 ++ pending (run q ss).1 ≡ pending q ++ put_in ss
  unfolding run
  run-pending [] q = sym (append-nil (pending q))
  run-pending (emplaces x ∷ ss) q =
      run-pending ss (emplace q x)
      ∙ ap (λ p. p ++ put_in ss) (emplace-pending q x)
      ∙ append_assoc (pending q) (x ∷ []) (put_in ss)
  run-pending (consumes n ∷ ss) q =
      append_assoc (consume q n).0 _ _
      ∙ ap (λ p. (consume q n).0 ++ p) (run-pending ss (consume q n).1)
      ∙ sym (append_assoc (consume q n).0 (pending (consume q n).1) (put_in ss))
      ∙ ap (λ p. p ++ put_in ss) (consume-pending q n)

  take_events-all : (n : ℕ) (d : List A) → length d ≤ n → take_events n d ≡ (d, [])
  unfolding take_events
  take_events-all zero [] h = refl
  take_events-all zero (x ∷ d) h = elim h [ ]
  take_events-all (suc n) [] h = refl
  take_events-all (suc n) (x ∷ d) h =
      ap (λ (r : List A × List A). (x ∷ r.0, r.1)) (take_events-all n d (omega arith))

  twice-all :
      (queue deal : List A) (n : ℕ)
      → length deal ≤ n
      → length queue ≤ n
      → let r = dispatch (record { queue = queue; deal = deal }) (pos n) in
        let s = dispatch r.1 (pos n) in (r.0.0 ++ s.0.0 ≡ deal ++ queue) × (s.0.1 ≡ 0)
  unfolding dispatch consume count swapped
  twice-all queue [] n h k =
      rw (take_events-all n queue k)
        (rw (take_events-all n [] (omega arith)) (append-nil queue, omega arith))
  twice-all queue (x ∷ deal) n h k =
      rw (take_events-all n (x ∷ deal) h) (rw (take_events-all n queue k) (refl, omega arith))

  -- Two dispatches that may take as many events as wait hand all of them on.
  pub dispatch_twice-all :
      (q : DualQueue A) (n : ℕ)
      → length (pending q) ≤ n
      → let r = dispatch q (pos n) in
        let s = dispatch r.1 (pos n) in (r.0.0 ++ s.0.0 ≡ pending q) × (s.0.1 ≡ 0)
  dispatch_twice-all q n h =
      twice-all q.queue q.deal n (omega (arith, length-append q.deal q.queue))
        (omega (arith, length-append q.deal q.queue))
