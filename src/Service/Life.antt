-- ===== src/Service/Life.antt =====
-- The states that an io_service goes through.
pub mod Restart
use yasio.Base.{
  ℕ, List, [], ◌∷◌, ◌++◌, map, Bool, true, false, not, ◌&&◌, ◌||◌, ◌≡◌, ◌≢◌, refl, sym, ap, subst,
  ◌∙◌, if_both, if◌then◌else◌,
}
use yasio.Service.{
  Phase, uninitialized, idle, running, at_exiting, Flag, no_flag, stop_flag, finalize_flag, Worker,
  no_worker, running_thread, ended_thread, caller_thread, Masks, Service, Outcome, done, waits,
  terminated, is_set, close_channel, started, start_at, start, handle_worker_exit, clear_transports,
  cleared, last_dispatch, stopped_at, joined_at, in_worker, handle_stop_at, handle_stop, flagged,
  do_stop_at, do_stop, put_events, is_empty, ended, leave, process_transports, loop_end,
  poll_failed, turn,
}

-- What may happen: calls of start and of stop, from the worker's thread or another, turns of the loop,
-- a poll that fails, and is tried again or ends the loop, and a worker that is ended from outside.
pub data Step (Event : Type 0) : Type 0 where
  starts : Bool → Step Event
  stops : Flag → Bool → Step Event
  turns : (ℕ → Bool) → (ℕ → Bool) → List ℕ → List Event → Step Event
  fails : Step Event
  breaks : Step Event
  dies : Step Event

abbrev pub working : Worker → Phase → Bool
working running_thread running = true
working caller_thread running = true
working w p = false

-- A worker that runs the loop.
abbrev pub Runs : Worker → Type 0
Runs running_thread = Unit
Runs caller_thread = Unit
Runs no_worker = ⊥
Runs ended_thread = ⊥

ended-worker : (w : Worker) → Runs w → ended w ≢ no_worker
ended-worker running_thread h e = absurd cc
ended-worker caller_thread h e = absurd cc
ended-worker no_worker h e = h
ended-worker ended_thread h e = h

module _ {Event : Type 0} where
  -- Without a worker there are no transports, and nothing is to be stopped; a service that runs has a
  -- worker, and one that is about to exit has a thread that has ended.
  abbrev pub IsSound : Phase → Service Event → Type 0
  IsSound uninitialized s = (s.stop ≡ no_flag) × (s.worker ≡ no_worker) × (s.transports ≡ [])
  IsSound idle s = (s.stop ≡ no_flag) × (s.worker ≡ no_worker) × (s.transports ≡ [])
  IsSound running s = s.worker ≢ no_worker
  IsSound at_exiting s = s.worker ≡ ended_thread

  abbrev pub Sound : Service Event → Type 0
  Sound s = IsSound s.phase s

  abbrev pub SoundOutcome : Outcome Event → Type 0
  SoundOutcome (done s events) = Sound s
  SoundOutcome (waits s) = Sound s
  SoundOutcome terminated = Unit

  stopped_at-Sound : (p : Phase) (s : Service Event) → Sound s → SoundOutcome (stopped_at p s)
  unfolding clear_transports
  stopped_at-Sound at_exiting s h = (refl, refl, refl)
  stopped_at-Sound uninitialized s h = h
  stopped_at-Sound idle s h = h
  stopped_at-Sound running s h = h

  joined-Sound :
      (p : Phase) (s : Service Event)
      → s.phase ≡ p
      → let j = joined_at p s in SoundOutcome (stopped_at j.phase j)
  unfolding handle_worker_exit clear_transports
  joined-Sound at_exiting s e =
      subst (λ p. SoundOutcome (stopped_at p (record s { worker = no_worker }))) (sym e)
        (refl, refl, refl)
  joined-Sound uninitialized s e = (refl, refl, refl)
  joined-Sound idle s e = (refl, refl, refl)
  joined-Sound running s e = (refl, refl, refl)

  in_worker-Sound : (f : Flag) (s : Service Event) → Sound s → SoundOutcome (in_worker f s)
  in_worker-Sound no_flag s h = h
  in_worker-Sound stop_flag s h = h
  in_worker-Sound finalize_flag s h = tt

  handle_stop_at-Sound :
      (w : Worker) (b : Bool) (s : Service Event) → Sound s → SoundOutcome (handle_stop_at w b s)
  handle_stop_at-Sound no_worker b s h = stopped_at-Sound s.phase s h
  handle_stop_at-Sound caller_thread b s h = stopped_at-Sound s.phase s h
  handle_stop_at-Sound running_thread true s h = in_worker-Sound s.stop s h
  handle_stop_at-Sound running_thread false s h = h
  handle_stop_at-Sound ended_thread true s h = in_worker-Sound s.stop s h
  handle_stop_at-Sound ended_thread false s h = joined-Sound s.phase s refl

  pub handle_stop-Sound : (b : Bool) (s : Service Event) → Sound s → SoundOutcome (handle_stop b s)
  unfolding handle_stop
  handle_stop-Sound b s h = handle_stop_at-Sound s.worker b s h

  do_stop_at-Sound :
      (p : Phase) (f : Flag) (b : Bool) (s : Service Event)
      → s.phase ≡ p
      → Sound s
      → SoundOutcome (do_stop_at p f b s)
  do_stop_at-Sound uninitialized f b s e h = h
  do_stop_at-Sound idle f b s e h = h
  do_stop_at-Sound running f b s e h =
      if_both SoundOutcome (is_set s.stop) _ _ (handle_stop-Sound b s h)
        (handle_stop-Sound b q (subst (λ p. IsSound p q) (sym e) (subst (λ p. IsSound p s) e h)))
    where
      q : Service Event
      q = record s { stop = f; channels = map close_channel s.channels }
  do_stop_at-Sound at_exiting f b s e h =
      if_both SoundOutcome (is_set s.stop) _ _ (handle_stop-Sound b s h)
        (subst (λ p. IsSound p (record s { stop = f })) (sym e) (subst (λ p. IsSound p s) e h))

  abbrev pub after : Service Event → Outcome Event → Service Event
  after s (done r events) = r
  after s (waits r) = r
  after s terminated = s

  -- Where the loop runs in the caller of start, start goes on with handle_stop.
  abbrev pub returned_at : Worker → Phase → Service Event → Service Event
  returned_at caller_thread at_exiting s = after s (handle_stop false s)
  returned_at caller_thread uninitialized s = s
  returned_at caller_thread idle s = s
  returned_at caller_thread running s = s
  returned_at no_worker p s = s
  returned_at running_thread p s = s
  returned_at ended_thread p s = s

  abbrev pub step : Service Event → Step Event → Service Event
  step s (starts callback) = start s callback
  step s (stops f b) = after s (do_stop f b s)
  step s (turns lost asked opened es) =
      if working s.worker s.phase
      then (let r = turn s lost asked opened es in returned_at r.worker r.phase r)
      else s
  step s fails =
      if working s.worker s.phase
      then (let r = poll_failed s in returned_at r.worker r.phase r)
      else s
  step s breaks =
      if working s.worker s.phase then (let r = leave s in returned_at r.worker r.phase r) else s
  step s dies = if working s.worker s.phase then record s { worker = ended s.worker } else s

  abbrev pub run : Service Event → List (Step Event) → Service Event
  run s [] = s
  run s (x ∷ xs) = run (step s x) xs

  after-Sound :
      (s : Service Event) (o : Outcome Event) → Sound s → SoundOutcome o → Sound (after s o)
  after-Sound s (done r events) h k = k
  after-Sound s (waits r) h k = k
  after-Sound s terminated h k = h

  start_at-Sound : (p : Phase) (s : Service Event) (c : Bool) → Sound s → Sound (start_at p s c)
  start_at-Sound uninitialized s c h = h
  start_at-Sound idle s c h = has_worker s.no_new_thread
    where
      has_worker : (b : Bool) → (if b then caller_thread else running_thread) ≢ no_worker
      has_worker true e = absurd cc
      has_worker false e = absurd cc
  start_at-Sound running s c h = h
  start_at-Sound at_exiting s c h = h

  running-Sound :
      (w : Worker) (s : Service Event) → s.worker ≡ w → s.phase ≡ running → Runs w → Sound s
  running-Sound w s e p h = subst (λ p'. IsSound p' s) (sym p) (has_worker w e h)
    where
      has_worker : (w' : Worker) → s.worker ≡ w' → Runs w' → s.worker ≢ no_worker
      has_worker running_thread e' h' k = absurd cc
      has_worker caller_thread e' h' k = absurd cc
      has_worker no_worker e' h' k = h'
      has_worker ended_thread e' h' k = h'

  -- After the loop, and while it goes on.
  abbrev returned : Service Event → Service Event
  returned r = returned_at r.worker r.phase r

  left-Sound : (w : Worker) (s : Service Event) → s.worker ≡ w → Runs w → Sound (returned (leave s))
  unfolding handle_worker_exit clear_transports handle_stop
  left-Sound w s e h =
      subst (λ w'. Sound (returned (record (handle_worker_exit s) { worker = ended w' }))) (sym e)
        (leaves w h)
    where
      leaves :
          (w' : Worker)
          → Runs w'
          → Sound (returned (record (handle_worker_exit s) { worker = ended w' }))
      leaves running_thread h' = refl
      leaves caller_thread h' = (refl, refl, refl)
      leaves no_worker h' = absurd h'
      leaves ended_thread h' = absurd h'

  kept-Sound :
      (w : Worker) (s : Service Event)
      → s.worker ≡ w
      → s.phase ≡ running
      → Runs w
      → Sound (returned s)
  kept-Sound w s e p h =
      subst (λ w'. Sound (returned_at w' s.phase s)) (sym e)
        (subst (λ p'. Sound (returned_at w p' s)) (sym p) (stays w h))
    where
      sound : Sound s
      sound = running-Sound w s e p h

      stays : (w' : Worker) → Runs w' → Sound (returned_at w' running s)
      stays running_thread h' = sound
      stays caller_thread h' = sound
      stays no_worker h' = sound
      stays ended_thread h' = sound

  working-Sound :
      (w : Worker) (p : Phase) (s r : Service Event)
      → s.phase ≡ p
      → Sound s
      → (p ≡ running → Runs w → Sound r)
      → Sound (if working w p then r else s)
  working-Sound running_thread running s r e h k = k refl tt
  working-Sound caller_thread running s r e h k = k refl tt
  working-Sound no_worker p s r e h k = h
  working-Sound ended_thread p s r e h k = h
  working-Sound running_thread uninitialized s r e h k = h
  working-Sound running_thread idle s r e h k = h
  working-Sound running_thread at_exiting s r e h k = h
  working-Sound caller_thread uninitialized s r e h k = h
  working-Sound caller_thread idle s r e h k = h
  working-Sound caller_thread at_exiting s r e h k = h

  loop_end-Sound :
      (s : Service Event) → s.phase ≡ running → Runs s.worker → Sound (returned (loop_end s))
  unfolding loop_end
  loop_end-Sound s p w =
      if_both (λ r. Sound (returned r)) (not (is_set s.stop) || not (is_empty s.transports)) _ _
        (kept-Sound s.worker s refl p w) (left-Sound s.worker s refl w)

  step-Sound : (s : Service Event) (x : Step Event) → Sound s → Sound (step s x)
  unfolding start do_stop turn
  step-Sound s (starts c) h = start_at-Sound s.phase s c h
  step-Sound s (stops f b) h =
      after-Sound s (do_stop f b s) h (do_stop_at-Sound s.phase f b s refl h)
  step-Sound s (turns lost asked opened es) h = working-Sound s.worker s.phase s _ refl h (λ p w.
      loop_end-Sound
        (record s {
          transports = process_transports s.stop lost asked s.transports ++ opened;
          events = put_events s.events es;
        })
        p w)
  step-Sound s fails h = working-Sound s.worker s.phase s _ refl h (λ p w. loop_end-Sound s p w)
  step-Sound s breaks h =
      working-Sound s.worker s.phase s _ refl h (λ p w. left-Sound s.worker s refl w)
  step-Sound s dies h = working-Sound s.worker s.phase s _ refl h (λ p w.
      subst (λ p'. IsSound p' (record s { worker = ended s.worker })) (sym p)
        (ended-worker s.worker w))

  -- However calls of start and stop, from whatever thread, turns of the loop, failing polls and workers
  -- that are ended from outside follow each other, a sound service stays sound: where it is idle, it has
  -- no worker, no transport and nothing to stop; where it runs, it has a worker; and where it is about to
  -- exit, its thread has ended.
  pub run-Sound : (xs : List (Step Event)) (s : Service Event) → Sound s → Sound (run s xs)
  run-Sound [] s h = h
  run-Sound (x ∷ xs) s h = run-Sound xs (step s x) (step-Sound s x h)
