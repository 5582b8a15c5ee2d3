-- ===== src/Channel/Step/Sound.antt =====
-- The state of a client channel over the turns of the loop, and the events that its user sees.
use yasio.Base.{
  ◌≡◌, inl, inr, refl, ap, sym, subst, ◌∙◌, List, [], ◌∷◌, Bool, true, false, Bool-cases, ◌||◌,
  Option, some, none,
}
use yasio.Base.Int.{ℤ, pos}
use yasio.Channel.{
  State, closed, resolving, connecting, opened, in_progress, same, Event, on_open, on_close,
  Connection, Channel, Dial, Ready, not_ready, ready, do_connect, do_connect_completion,
  handle_connect_failed, handle_connect_succeed, cleanup_io, dialled, bind_failure, or_else,
}

abbrev pub connected_by : Option Connection → Bool
connected_by none = false
connected_by (some t) = true

module _ {Endpoint : Type 0} where
  -- A channel that is opened has its transport, and no other channel has one; a channel with work to
  -- do is in channel_ops_.
  abbrev pub SoundAt : State → Channel Endpoint → Type 0
  SoundAt closed c =
      (c.connection ≡ none) × (c.error ≡ pos 0) × (c.open_mask ≡ true → c.in_ops ≡ true)
  SoundAt resolving c = (c.connection ≡ none) × (c.in_ops ≡ true) × (c.open_mask ≡ false)
  SoundAt connecting c =
      (c.connection ≡ none) × (c.in_ops ≡ true) × (c.open_mask ≡ false) × (c.error ≡ in_progress)
  SoundAt opened c =
      (t : Connection) × (c.connection ≡ some t)
      × (c.error ≡ pos 0)
      × (c.open_mask ≡ true → c.in_ops ≡ true)

  abbrev pub IsSound : Channel Endpoint → Type 0
  IsSound c = SoundAt c.state c

  abbrev pub connected : Channel Endpoint → Bool
  connected c = connected_by c.connection

-- What the events make of a user's view: connected after an on_open with no error, until on_close.
abbrev pub seen : Bool → Event → Option Bool
seen false (on_open e) = some (same e (pos 0))
seen true (on_open e) = none
seen false (on_close e) = none
seen true (on_close e) = some false

abbrev pub and_then : Option Bool → (Bool → Option Bool) → Option Bool
and_then none f = none
and_then (some b) f = f b

abbrev pub follows : Bool → List Event → Option Bool
follows b [] = some b
follows b (e ∷ es) = and_then (seen b e) (λ r. follows r es)

-- The errors that the system gives are not 0.
abbrev pub IsError : Option ℤ → Type 0
IsError none = Unit
IsError (some e) = same e (pos 0) ≡ false

or_else-IsError : (a b : Option ℤ) → IsError a → IsError b → IsError (or_else (bind_failure a) b)
or_else-IsError none b h k = k
or_else-IsError (some e) b h k = elim (Bool-cases (same e (pos 1))) [
  | inl q ↦ rw q k
  | inr q ↦ rw q h
]

-- The errors of the answers are errors.
abbrev pub IsDial : Dial → Type 0
IsDial d = IsError d.popen_error × IsError d.bind_error × IsError d.connect_error

module _ {Endpoint : Type 0} where
  abbrev pub scheduled : Channel Endpoint → Channel Endpoint
  scheduled r = record r { in_ops = same r.error in_progress }

  -- A step of a channel that is not connected is sound, and its events say what it came to.
  abbrev pub After : Channel Endpoint × List Event → Type 0
  After p = IsSound (scheduled p.0) × (follows false p.1 ≡ some (connected p.0))

  pub failed-After :
      (c : Channel Endpoint) (e : ℤ)
      → c.connection ≡ none
      → same e (pos 0) ≡ false
      → After (handle_connect_failed c e)
  unfolding handle_connect_failed cleanup_io
  failed-After c e n z = ((n, refl, λ q. q), ap some (z ∙ sym (ap connected_by n)))

  succeed-After : (c : Channel Endpoint) → c.open_mask ≡ false → After (handle_connect_succeed c)
  unfolding handle_connect_succeed
  succeed-After c m =
      ((record { error = pos 0; close_mask = false }, refl, refl, λ q. sym m ∙ q), refl)

  dialled-After :
      (c : Channel Endpoint) (o : Option ℤ)
      → c.connection ≡ none
      → c.open_mask ≡ false
      → c.state ≡ connecting
      → IsError o
      → After (dialled c o)
  unfolding dialled
  dialled-After c none n m k z = succeed-After c m
  dialled-After c (some e) n m k z = elim (Bool-cases (same e in_progress || same e (pos 11))) [
    | inl q ↦ rw q (
      subst (λ s. SoundAt s (record c { error = in_progress; timer_armed = true; in_ops = true }))
          (sym k) (n, refl, m, refl),
      ap (λ x. some (connected_by x)) (sym n),
    )
    | inr q ↦ rw q (failed-After c e n z)
  ]

  pub do_connect-After :
      (c : Channel Endpoint) (popen bind connect : Option ℤ)
      → c.connection ≡ none
      → c.open_mask ≡ false
      → IsError popen
      → IsError bind
      → IsError connect
      → After (
          do_connect c (record { popen_error = popen; bind_error = bind; connect_error = connect }))
  unfolding do_connect cleanup_io
  do_connect-After c (some e) bind connect n m p b k = elim (Bool-cases c.socket_open) [
    | inl q ↦ rw q (failed-After _ e n p)
    | inr q ↦ rw q (failed-After _ e n p)
  ]
  do_connect-After c none bind connect n m p b k = elim (Bool-cases c.socket_open) [
    | inl q ↦ rw q (
        dialled-After _ (or_else (bind_failure bind) connect) n refl refl
          (or_else-IsError bind connect b k))
    | inr q ↦ rw q (
        dialled-After _ (or_else (bind_failure bind) connect) n m refl
          (or_else-IsError bind connect b k))
  ]

  pub completion-After :
      (c : Channel Endpoint) (r : Ready) (due : Bool)
      → SoundAt connecting c
      → c.state ≡ connecting
      → After (do_connect_completion c r due)
  unfolding do_connect_completion handle_connect_succeed handle_connect_failed cleanup_io
  completion-After c not_ready due (n, i, m, e) k = (
    subst (λ s. SoundAt s (record c { in_ops = same c.error in_progress })) (sym k)
        (n, ap (λ z. same z in_progress) e, m, e),
    ap (λ x. some (connected_by x)) (sym n),
  )
  completion-After c (ready e) due (n, i, m, x) k = elim (Bool-cases (same e (pos 0))) [
    | inl q ↦ rw q (succeed-After c m)
    | inr q ↦ rw q (failed-After c e n q)
  ]
