-- ===== src/Server/Turn/Told.antt =====
-- What the events tell the user of a server channel: which transports there are.
pub mod Keeps
use yasio.Base.{
  ℕ, suc, ◌+◌, ◌≤◌, ◌<◌, List, [], ◌∷◌, ◌++◌, map, append_assoc, append-nil, Bool, true, false,
  ◌==◌, eq_test, apart_test, ◌||◌, ◌≡◌, refl, sym, ap, subst, ◌∙◌, Option, some, none,
  if◌then◌else◌, arith,
}
use yasio.Base.Counts.{count, count-append, count_none, removed, counted}
use yasio.Base.Int.{ℤ}
use yasio.Server.{Kind, Transport, Event, on_open, packet, on_close}
use yasio.Server.Turn.{Served, moved, lost_with, process_at, process_transports}

-- The transports that the user knows of, after an event.
abbrev pub alive_after : List ℕ → Event → List ℕ
alive_after l (on_open i) = l ++ i ∷ []
alive_after l (packet i bytes) = l
alive_after l (on_close i e) = removed i l

abbrev pub alive : List ℕ → List Event → List ℕ
alive l [] = l
alive l (e ∷ es) = alive (alive_after l e) es

-- A transport is opened as a new one, and has packets and is closed only while it is open.
abbrev pub Fits : List ℕ → Event → Type 0
Fits l (on_open i) = count i l ≡ 0
Fits l (packet i bytes) = 1 ≤ count i l
Fits l (on_close i e) = 1 ≤ count i l

abbrev pub Told : List ℕ → List Event → Type 0
Told l [] = Unit
Told l (e ∷ es) = Fits l e × Told (alive_after l e) es

-- The events lead from one list of open transports to another.
abbrev pub Leads : List ℕ → List Event → List ℕ → Type 0
Leads l es l' = Told l es × (alive l es ≡ l')

pub Leads-append :
    (es fs : List Event) (l l' l'' : List ℕ)
    → Leads l es l'
    → Leads l' fs l''
    → Leads l (es ++ fs) l''
Leads-append [] fs l l' l'' (t, e) k = subst (λ x. Leads x fs l'') (sym e) k
Leads-append (v ∷ es) fs l l' l'' ((f, t), e) k =
    let (t', e') = Leads-append es fs (alive_after l v) l' l'' (t, e) k in ((f, t'), e')

packets-Leads :
    (i : ℕ) (bs : List (List ℕ)) (l : List ℕ) → 1 ≤ count i l → Leads l (map (λ b. packet i b) bs) l
packets-Leads i [] l h = (tt, refl)
packets-Leads i (b ∷ bs) l h = let (t, e) = packets-Leads i bs l h in ((h, t), e)

removed-middle : (a : ℕ) (xs ys : List ℕ) → count a xs ≡ 0 → removed a (xs ++ a ∷ ys) ≡ xs ++ ys
removed-middle a [] ys h = rw (eq_test a a refl) refl
removed-middle a (x ∷ xs) ys h =
    let (n, k) = count_none a x xs h in
    rw (apart_test x a n) (ap (λ l. x ∷ l) (removed-middle a xs ys k))

count_middle :
    (a b : ℕ) (xs ys : List ℕ) → count b (xs ++ a ∷ ys) ≡ count b (xs ++ ys) + count b (a ∷ [])
count_middle a b xs ys = ground (arith, count-append b xs (a ∷ ys), count-append b xs ys)

abbrev pub Unique : List ℕ → Type 0
Unique l = (a : ℕ) → count a l ≤ 1

module _ {Endpoint : Type 0} where
  abbrev pub ids : List (Transport Endpoint) → List ℕ
  ids [] = []
  ids (t ∷ ts) = t.id ∷ ids ts

  pub ids-append : (ts us : List (Transport Endpoint)) → ids (ts ++ us) ≡ ids ts ++ ids us
  ids-append [] us = refl
  ids-append (t ∷ ts) us = ap (λ l. t.id ∷ l) (ids-append ts us)

  module _ (less : Endpoint → Endpoint → Bool) where
    process_at-Leads :
        (k : Kind) (done : List ℕ) (t : Transport Endpoint) (ts : List (Transport Endpoint))
        (lost : Option ℤ) (m : List (Endpoint × ℕ))
        → Unique (done ++ t.id ∷ ids ts)
        → let r = process_at less k t lost m in
          Leads (done ++ t.id ∷ ids ts) r.2 ((done ++ ids r.0) ++ ids ts)
    process_at-Leads k done t ts none m u = ((tt), sym (append_assoc done (t.id ∷ []) (ids ts)))
    process_at-Leads k done t ts (some e) m u = (
      (omega (arith, count_middle t.id t.id done (ids ts), counted t.id []), tt),
      removed-middle t.id done (ids ts)
            (omega (arith, u t.id, count-append t.id done (t.id ∷ ids ts), counted t.id (ids ts)))
          ∙ sym (append_assoc done [] (ids ts)),
    )

    process_at-Unique :
        (k : Kind) (done : List ℕ) (t : Transport Endpoint) (ts : List (Transport Endpoint))
        (lost : Option ℤ) (m : List (Endpoint × ℕ))
        → Unique (done ++ t.id ∷ ids ts)
        → Unique ((done ++ ids (process_at less k t lost m).0) ++ ids ts)
    process_at-Unique k done t ts none m u =
        subst Unique (sym (append_assoc done (t.id ∷ []) (ids ts))) u
    process_at-Unique k done t ts (some e) m u =
        subst Unique (sym (append_assoc done [] (ids ts)))
          (λ a. omega (arith, u a, count_middle t.id a done (ids ts)))

    pub process_transports-Leads :
        (k : Kind) (opm : ℕ → Bool) (served : ℕ → Served Endpoint) (done : List ℕ)
        (ts : List (Transport Endpoint)) (m : List (Endpoint × ℕ))
        → Unique (done ++ ids ts)
        → let r = process_transports less k opm served ts m in
          Leads (done ++ ids ts) r.2 (done ++ ids r.0)
    unfolding process_transports
    process_transports-Leads k opm served done [] m u = (tt, refl)
    process_transports-Leads k opm served done (t ∷ ts) m h =
        let u = moved (served t.id) t in
        let lost = lost_with u (u.close_mask || opm t.id) (served t.id).failure in
        let (kept, m', events) = process_at less k u lost m in
        let r = process_transports less k opm served ts m' in
        let bs = (served t.id).packets in
        let l = done ++ t.id ∷ ids ts in
        let l' = (done ++ ids kept) ++ ids ts in
        Leads-append (map (λ b. packet t.id b) bs ++ events) r.2 l l' (done ++ ids (kept ++ r.0))
          (Leads-append (map (λ b. packet t.id b) bs) events l l l'
            (packets-Leads t.id bs l
              (omega (arith, count_middle t.id t.id done (ids ts), counted t.id [])))
            (process_at-Leads k done u ts lost m h))
          (subst (λ x. Leads l' r.2 x)
            (append_assoc done (ids kept) (ids r.0)
              ∙ ap (λ x. done ++ x) (sym (ids-append kept r.0)))
            (process_transports-Leads k opm served (done ++ ids kept) ts m'
              (process_at-Unique k done u ts lost m h)))

    pub process_transports-fewer :
        (k : Kind) (opm : ℕ → Bool) (served : ℕ → Served Endpoint) (ts : List (Transport Endpoint))
        (m : List (Endpoint × ℕ)) (a : ℕ)
        → count a (ids (process_transports less k opm served ts m).0) ≤ count a (ids ts)
    unfolding process_transports
    process_transports-fewer k opm served [] m a = omega arith
    process_transports-fewer k opm served (t ∷ ts) m a =
        one (lost_with (moved (served t.id) t) (t.close_mask || opm t.id) (served t.id).failure)
          (λ m'. process_transports-fewer k opm served ts m' a)
      where
        one :
            (lost : Option ℤ)
            → ((m' : List (Endpoint × ℕ))
                → count a (ids (process_transports less k opm served ts m').0) ≤ count a (ids ts))
            → let r = process_at less k (moved (served t.id) t) lost m in
              count a (ids (r.0 ++ (process_transports less k opm served ts r.1).0))
              ≤ count a (t.id ∷ ids ts)
        one none h = ground (arith, h m)
        one (some e) h = ground (arith, h (process_at less k (moved (served t.id) t) (some e) m).1)
