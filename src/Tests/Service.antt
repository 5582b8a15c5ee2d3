-- ===== src/Tests/Service.antt =====
-- An io_service of yasio/io_service.cpp that is started and stopped.
use yasio.Base.{ℕ, Bool, ◌⊎◌, ◌≡◌, refl, List, [], ◌∷◌, true, false}
use yasio.Service.{
  Service, idle, running, no_flag, stop_flag, no_worker, running_thread, waits, do_stop,
  handle_stop, poll_failed, turn,
}
use yasio.Service.Life.{Step, starts, stops, turns, fails, dies, run, Sound, run-Sound}
use yasio.Service.Life.Restart.{IsDone, stopping, do_stop-Stopped}

-- One channel, which is open; the events are numbers.
abbrev service : Service ℕ
service = record {
  phase = idle;
  stop = no_flag;
  worker = no_worker;
  no_new_thread = false;
  deferred_event = true;
  has_callback = true;
  channels = record { open_mask = false; close_mask = false; socket_open = true } ∷ [];
  transports = [];
  pool = [];
  timers = [];
  events = record { queue = []; deal = [] };
}

abbrev none_lost : ℕ → Bool
none_lost t = false

abbrev steps : List (Step ℕ)
steps =
    starts true
    ∷ turns none_lost none_lost (4 ∷ []) (1 ∷ [])
    ∷ stops stop_flag false
    ∷ fails
    ∷ turns none_lost none_lost [] (2 ∷ [])
    ∷ stops stop_flag false
    ∷ starts true
    ∷ dies
    ∷ []

run-Sound_example : Sound (run service steps)
run-Sound_example = run-Sound steps service (refl, refl, refl)

abbrev at_work : Service ℕ
at_work = record service { phase = running; worker = running_thread; transports = 4 ∷ [] }

do_stop-Stopped_example :
    (do_stop stop_flag false at_work ≡ waits (stopping stop_flag at_work))
    × IsDone (handle_stop false (turn (stopping stop_flag at_work) none_lost none_lost [] (2 ∷ [])))
    × (((at_work.transports ≡ [])
          × IsDone (handle_stop false (poll_failed (stopping stop_flag at_work))))
        ⊎ (poll_failed (stopping stop_flag at_work) ≡ stopping stop_flag at_work))
do_stop-Stopped_example = do_stop-Stopped at_work none_lost none_lost (2 ∷ []) refl refl refl
