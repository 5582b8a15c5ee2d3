-- ===== src/Timers/Process.antt =====
-- process_timers of yasio/io_service.cpp.
use yasio.Base.{
  ℕ, zero, suc, ◌+◌, ◌-◌, ◌/◌, ◌≤◌, ◌<◌, ◌≡◌, inl, inr, refl, ap, sym, subst, ◌⊎◌, ◌∙◌, List, [],
  ◌∷◌, ◌++◌, append_assoc, append-nil, length, All, Bool, true, false, not, Bool-cases, leb, ◌==◌,
  ==_iff, leb→le, ltb, ltb→lt, ltb_false→le, leb_false→lt, if◌then◌else◌, arith,
}
use yasio.Base.Int.{pos, negsuc}
use yasio.Timers.{
  TimerImpl, Timers, wait_duration, is_positive, expired, expires_from_now, expires_again, fire,
  turn, process_loop, process_timers,
}
use yasio.Timers.Sorted.{IsSorted, ends}

due_lem :
    (e c : ℕ)
    → e < c + 1000
    → is_positive (
        if leb c e
        then pos ((e - c) / 1000)
        else if (c - e) / 1000 == 0
        then pos 0
        else negsuc ((c - e) / 1000 - 1))
      ≡ false
due_lem e c h = ground arith

not_due_lem :
    (e c : ℕ)
    → c + 1000 ≤ e
    → is_positive (
        if leb c e
        then pos ((e - c) / 1000)
        else if (c - e) / 1000 == 0
        then pos 0
        else negsuc ((c - e) / 1000 - 1))
      ≡ true
not_due_lem e c h = ground arith

expired_iff :
    (s : Timers) (t : ℕ)
    → ((s.control t).expire_time < s.current_time + 1000 → expired s t ≡ true)
      × (s.current_time + 1000 ≤ (s.control t).expire_time → expired s t ≡ false)
unfolding expired wait_duration
expired_iff s t = (
  λ h. ap not (due_lem (s.control t).expire_time s.current_time h),
  λ h. ap not (not_due_lem (s.control t).expire_time s.current_time h),
)

-- A timer counts as expired from less than a microsecond before its time on, and not before.
pub expired-ltb :
    (s : Timers) (t : ℕ) → expired s t ≡ ltb (s.control t).expire_time (s.current_time + 1000)
expired-ltb s t = elim (Bool-cases (ltb (s.control t).expire_time (s.current_time + 1000))) [
  | inl q ↦ (expired_iff s t).0 (ltb→lt _ _ q) ∙ sym q
  | inr q ↦ (expired_iff s t).1 (ltb_false→le _ _ q) ∙ sym q
]

-- A timer that ends later than one that has not expired has not expired.
pub expired-later :
    (s : Timers) (t u : ℕ)
    → (s.control t).expire_time ≤ (s.control u).expire_time
    → expired s t ≡ false
    → expired s u ≡ false
expired-later s t u h e =
    elim (Bool-cases (leb (s.current_time + 1000) (s.control t).expire_time)) [
      | inl q ↦ (expired_iff s u).1 (omega (arith, leb→le _ _ q))
      | inr q ↦ let early = (expired_iff s t).0 (leb_false→lt _ _ q) in cc
    ]

has_ended :
    (s : Timers) (x : TimerImpl)
    → expired s x.timer ≡ true
    → (s.control x.timer).expire_time < s.current_time + 1000
has_ended s x e = ltb→lt _ _ (sym (expired-ltb s x.timer) ∙ e)

is_later :
    (s : Timers) (x : TimerImpl)
    → expired s x.timer ≡ false
    → s.current_time + 1000 ≤ (s.control x.timer).expire_time
is_later s x e = ltb_false→le _ _ (sym (expired-ltb s x.timer) ∙ e)

-- Only the time of the loop and the timer count.
expired_same :
    (s : Timers) (q : List TimerImpl) (n t : ℕ)
    → expired (record s { queue = q; now = n }) t ≡ expired s t
unfolding expired wait_duration
expired_same s q n t = refl

-- A timer that waits again has not expired, if it waits for a microsecond at least.
expires_again-waits :
    (s : Timers) (q : List TimerImpl) (t : ℕ)
    → s.current_time ≤ s.now
    → 1 ≤ (s.control t).duration
    → expired (record (expires_again s t) { queue = q }) t ≡ false
unfolding expires_again expires_from_now
expires_again-waits s q t h d =
    (expired_iff (record (expires_again s t) { queue = q }) t).1
      (rw ((==_iff t t).1 refl) (omega (arith, h, d)))

-- Callbacks that leave the timers alone: `once` is what they return, and `spent` the time they take.
module _ (once : ℕ → Bool) (spent : ℕ → ℕ) where
  abbrev pub call : ℕ → Timers → Bool × Timers
  call cb s = (once cb, record s { now = s.now + spent cb })

  -- What one run of process_timers is to call: from the earliest timer on, those that have expired,
  -- up to the first that is to wait again.
  abbrev pub due : Timers → List TimerImpl → List TimerImpl
  due s [] = []
  due s (x ∷ xs) = if expired s x.timer then x ∷ (if once x.callback then due s xs else []) else []

  abbrev later_by : Timers → TimerImpl → Timers
  later_by s x = record s { now = s.now + spent x.callback }

  due_same : (s : Timers) (n : ℕ) (xs : List TimerImpl) → due (record s { now = n }) xs ≡ due s xs
  due_same s n [] = refl
  due_same s n (x ∷ xs) = (λ i.
      if expired_same s s.queue n x.timer i
      then x ∷ (if once x.callback then due_same s n xs i else [])
      else [])

  repeat_stops :
      (fuel : ℕ) (s : Timers) (x : TimerImpl) (xs done : List TimerImpl) (n : ℕ)
      → 0 < fuel
      → expired (record s { queue = x ∷ xs }) x.timer ≡ false
      → let p = process_loop call fuel (record s { queue = x ∷ xs }) done n in
        (p.finished ≡ true) × (p.called ≡ done)
  unfolding process_loop turn
  repeat_stops zero s x xs done n f e = elim f [ ]
  repeat_stops (suc fuel) s x xs done n f e = rw e (refl, refl)

  -- The loop with the timers of `done` called already.
  loop_stops :
      (fuel : ℕ) (s : Timers) (queue done : List TimerImpl) (n : ℕ)
      → s.current_time ≤ s.now
      → All (λ x. 1 ≤ (s.control x.timer).duration) queue
      → length queue + 1 < fuel
      → let p = process_loop call fuel (record s { queue = queue }) done n in
        (p.finished ≡ true) × (p.called ≡ done ++ due s queue)
  unfolding process_loop turn fire
  loop_stops zero s queue done n h d l = elim l [ ]
  loop_stops (suc fuel) s [] done n h d l = (refl, sym (append-nil done))
  loop_stops (suc fuel) s (x ∷ xs) done n h (dx, d) l = elim (Bool-cases (expired s x.timer)) [
    | inr q ↦ rw (expired_same s (x ∷ xs) s.now x.timer) (rw q (refl, sym (append-nil done)))
    | inl q ↦ rw (expired_same s (x ∷ xs) s.now x.timer) (
        rw q (elim (Bool-cases (once x.callback)) [
          | inl o ↦
              let r =
                loop_stops fuel (later_by s x) xs (done ++ x ∷ []) n (omega (arith, h)) d
                  (omega (arith, l)) in
              rw o (
                r.0,
                r.1
                    ∙ append_assoc done (x ∷ []) (due (later_by s x) xs)
                    ∙ ap (λ w. done ++ x ∷ w) (due_same s (s.now + spent x.callback) xs),
              )
          | inr o ↦ rw o (
              repeat_stops fuel
                (expires_again (record s { queue = xs; now = s.now + spent x.callback }) x.timer) x
                xs (done ++ x ∷ []) (suc n) (omega (arith, l))
                (expires_again-waits (record s { queue = xs; now = s.now + spent x.callback })
                  (x ∷ xs) x.timer (omega (arith, h)) dx))
        ]))
  ]

  process_timers-due_lem :
      (fuel : ℕ) (s : Timers)
      → s.current_time ≤ s.now
      → All (λ x. 1 ≤ (s.control x.timer).duration) s.queue
      → length s.queue + 1 < fuel
      → let p = process_timers call fuel s in (p.finished ≡ true) × (p.called ≡ due s s.queue)
  unfolding process_timers
  process_timers-due_lem fuel s h d l =
      elim (Bool-cases ((process_loop call fuel s [] 0).repeats == 0)) [
        | inl q ↦ rw q (loop_stops fuel s s.queue [] 0 h d l)
        | inr q ↦ rw q (loop_stops fuel s s.queue [] 0 h d l)
      ]

  none_expired :
      (s : Timers) (x : TimerImpl) (xs : List TimerImpl)
      → expired s x.timer ≡ false
      → All (λ y. ends s.control x ≤ ends s.control y) xs
      → All (λ y. expired s y.timer ≡ false) xs
  none_expired s x [] e a = tt
  none_expired s x (y ∷ ys) e (h, a) =
      (expired-later s x.timer y.timer h e, none_expired s x ys e a)

  abbrev pub HasEnded : Timers → TimerImpl → Type 0
  HasEnded s x = (s.control x.timer).expire_time < s.current_time + 1000

  abbrev pub IsLater : Timers → TimerImpl → Type 0
  IsLater s x = s.current_time + 1000 ≤ (s.control x.timer).expire_time

  -- All that were called are not to wait again and none is left that is due, or all but the last, which
  -- is to.
  abbrev pub Ends : Timers → List TimerImpl → List TimerImpl → Type 0
  Ends s called left =
      (All (λ x. once x.callback ≡ true) called × All (IsLater s) left)
      ⊎ ((ys : List TimerImpl) × (x : TimerImpl) × (called ≡ ys ++ x ∷ [])
          × All (λ y. once y.callback ≡ true) ys
          × (once x.callback ≡ false))

  Ends-more :
      (s : Timers) (x : TimerImpl) (called left : List TimerImpl)
      → once x.callback ≡ true
      → Ends s called left
      → Ends s (x ∷ called) left
  Ends-more s x called left o (inl (a, l)) = inl ((o, a), l)
  Ends-more s x called left o (inr (ys, y, e, a, f)) = inr (x ∷ ys, y, ap (◌∷◌ x) e, (o, a), f)

  All-IsLater :
      (s : Timers) (xs : List TimerImpl)
      → All (λ y. expired s y.timer ≡ false) xs
      → All (IsLater s) xs
  All-IsLater s [] h = tt
  All-IsLater s (x ∷ xs) (h, hs) = (is_later s x h, All-IsLater s xs hs)

  abbrev Cut : Timers → List TimerImpl → List TimerImpl → Type 0
  Cut s called xs =
      (left : List TimerImpl) × (called ++ left ≡ xs) × All (HasEnded s) called × Ends s called left

  Cut-more :
      (s : Timers) (x : TimerImpl) (xs ds : List TimerImpl) (e o : Bool)
      → All (λ y. ends s.control x ≤ ends s.control y) xs
      → expired s x.timer ≡ e
      → once x.callback ≡ o
      → Cut s ds xs
      → Cut s (if e then x ∷ (if o then ds else []) else []) (x ∷ xs)
  Cut-more s x xs ds true true sorted q a (left, e, fired, rest) =
      (left, ap (◌∷◌ x) e, (has_ended s x q, fired), Ends-more s x ds left a rest)
  Cut-more s x xs ds true false sorted q a c =
      (xs, refl, (has_ended s x q, tt), inr ([], x, refl, tt, a))
  Cut-more s x xs ds false o sorted q a c = (
    x ∷ xs,
    refl,
    tt,
    inl (tt, (is_later s x q, All-IsLater s xs (none_expired s x xs q sorted))),
  )

  due-Cut : (s : Timers) (xs : List TimerImpl) → IsSorted s.control xs → Cut s (due s xs) xs
  due-Cut s [] o = ([], refl, tt, inl (tt, tt))
  due-Cut s (x ∷ xs) (o, os) =
      Cut-more s x xs (due s xs) (expired s x.timer) (once x.callback) o refl refl (due-Cut s xs os)

  -- For callbacks that leave the timers alone, timers of a microsecond at least, and a queue that is
  -- sorted: within two turns more than there are timers the loop comes to its end. It has called, from the
  -- earliest on, the timers that end less than a microsecond after the time of the loop, all of them where
  -- none of these is to wait again, and else up to and with the first that is.
  pub process_timers-due :
      (fuel : ℕ) (s : Timers)
      → s.current_time ≤ s.now
      → All (λ x. 1 ≤ (s.control x.timer).duration) s.queue
      → IsSorted s.control s.queue
      → length s.queue + 1 < fuel
      → let p = process_timers call fuel s in
        (left : List TimerImpl) × (p.finished ≡ true)
        × (p.called ++ left ≡ s.queue)
        × All (HasEnded s) p.called
        × Ends s p.called left
  process_timers-due fuel s h d o l =
      let (f, e) = process_timers-due_lem fuel s h d l in
      let (left, all, fired, ends) = due-Cut s s.queue o in
      (
        left,
        f,
        ap (λ q. q ++ left) e ∙ all,
        subst (λ q. All (HasEnded s) q) (sym e) fired,
        subst (λ q. Ends s q left) (sym e) ends,
      )
