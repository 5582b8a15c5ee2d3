-- ===== src/Service/Life/Restart.antt =====
-- What stop comes to.
use yasio.Base.{
  ℕ, List, [], map, Bool, true, false, ◌≡◌, refl, ap, sym, subst, ◌∷◌, ◌++◌, ◌⊎◌, inl, inr, ◌||◌,
  not, if◌then◌else◌,
}
use yasio.Service.{
  idle, running, Flag, no_flag, stop_flag, no_worker, running_thread, Service, Outcome, done, waits,
  terminated, close_channel, handle_stop, do_stop, start, handle_worker_exit, clear_transports,
  turn, process_transports, loop_end, poll_failed, leave, put_events, is_set, is_empty,
}

none_stays : (lost asked : ℕ → Bool) (ts : List ℕ) → process_transports stop_flag lost asked ts ≡ []
unfolding process_transports
none_stays lost asked [] = refl
none_stays lost asked (t ∷ ts) = goes (lost t) (asked t) (none_stays lost asked ts)
  where
    goes :
        (a b : Bool)
        → process_transports stop_flag lost asked ts ≡ []
        → (if a || (b || true)
            then process_transports stop_flag lost asked ts
            else t ∷ process_transports stop_flag lost asked ts)
          ≡ []
    goes true b h = h
    goes false true h = h
    goes false false h = h

module _ {Event : Type 0} where
  -- The service after stop has come back: it can be started again.
  abbrev pub Stopped : Service Event → Type 0
  Stopped s =
      (s.phase ≡ idle)
      × (s.stop ≡ no_flag)
      × (s.worker ≡ no_worker)
      × (s.transports ≡ [])
      × (s.timers ≡ [])
      × ((callback : Bool) → (start s callback).phase ≡ running)

  abbrev pub IsDone : Outcome Event → Type 0
  IsDone (done s events) = Stopped s
  IsDone (waits s) = ⊥
  IsDone terminated = ⊥

  -- The service while stop waits: all channels are asked to close.
  abbrev pub stopping : Flag → Service Event → Service Event
  stopping f s = record s {
    phase = running;
    worker = running_thread;
    stop = f;
    channels = map close_channel s.channels;
  }

  as_running :
      (s : Service Event)
      → s.phase ≡ running
      → s.worker ≡ running_thread
      → s.stop ≡ no_flag
      → s ≡ record s { phase = running; worker = running_thread; stop = no_flag }
  as_running s p w f = λ i. record s { phase = p i; worker = w i; stop = f i }

  -- The turn after a stop leaves the loop, whatever IO comes to.
  turn-stops :
      (s : Service Event) (lost asked : ℕ → Bool) (es : List Event)
      → turn (stopping stop_flag s) lost asked [] es
        ≡ leave (record (stopping stop_flag s) { transports = []; events = put_events s.events es })
  unfolding turn loop_end
  turn-stops s lost asked es =
      ap
        (λ ts. loop_end (record (stopping stop_flag s) {
          transports = ts ++ [];
          events = put_events s.events es;
        }))
        (none_stays lost asked s.transports)

  -- What a poll that fails makes of it.
  poll-stops :
      (s : Service Event) (ts : List ℕ)
      → s.transports ≡ ts
      → ((s.transports ≡ []) × IsDone (handle_stop false (poll_failed (stopping stop_flag s))))
        ⊎ (poll_failed (stopping stop_flag s) ≡ stopping stop_flag s)
  unfolding handle_stop loop_end start handle_worker_exit clear_transports
  poll-stops s [] e = inl (
    e,
    subst
        (λ us.
          IsDone (handle_stop false (loop_end (record (stopping stop_flag s) { transports = us }))))
        (sym e) (refl, refl, refl, refl, refl, λ callback. refl),
  )
  poll-stops s (t ∷ ts) e = inr (
      ap
        (λ us.
          if not (is_set stop_flag) || not (is_empty us)
          then stopping stop_flag s
          else leave (stopping stop_flag s))
        e)

  -- Where the loop runs in a thread of its own, a stop from another thread asks all channels to close
  -- and waits. The next turn of the loop that opens no transport closes all there are and ends the loop,
  -- whatever IO comes to, and stop comes back with a service that is idle, and that can be started again.
  -- A poll that fails before it, but for a bad descriptor, changes nothing where there are transports, and
  -- ends the loop as well where there are none.
  pub do_stop-Stopped :
      (s : Service Event) (lost asked : ℕ → Bool) (es : List Event)
      → s.phase ≡ running
      → s.worker ≡ running_thread
      → s.stop ≡ no_flag
      → (do_stop stop_flag false s ≡ waits (stopping stop_flag s))
        × IsDone (handle_stop false (turn (stopping stop_flag s) lost asked [] es))
        × (((s.transports ≡ []) × IsDone (handle_stop false (poll_failed (stopping stop_flag s))))
            ⊎ (poll_failed (stopping stop_flag s) ≡ stopping stop_flag s))
  unfolding do_stop handle_stop start handle_worker_exit clear_transports
  do_stop-Stopped s lost asked es p w f = (
    ap (do_stop stop_flag false) (as_running s p w f),
    subst (λ r. IsDone (handle_stop false r)) (sym (turn-stops s lost asked es))
        (refl, refl, refl, refl, refl, λ callback. refl),
    poll-stops s s.transports refl,
  )

  -- A stop from the worker's own thread does not wait, and a second one, from another thread, does what
  -- the first one left to do.
  pub do_stop-again :
      (s : Service Event) (lost asked : ℕ → Bool) (es : List Event)
      → s.phase ≡ running
      → s.worker ≡ running_thread
      → s.stop ≡ no_flag
      → (do_stop stop_flag true s ≡ done (stopping stop_flag s) [])
        × IsDone (do_stop stop_flag false (turn (stopping stop_flag s) lost asked [] es))
  unfolding do_stop handle_stop start handle_worker_exit clear_transports
  do_stop-again s lost asked es p w f = (
    ap (do_stop stop_flag true) (as_running s p w f),
    subst (λ r. IsDone (do_stop stop_flag false r)) (sym (turn-stops s lost asked es))
        (refl, refl, refl, refl, refl, λ callback. refl),
  )
