-- ===== src/Tests/Sending.antt =====
-- The sending half of a transport of yasio/io_service.cpp on two buffers.
use yasio.Base.{
  ◌⊎◌, ◌==◌, if◌then◌else◌, ℕ, suc, ◌≡◌, ◌≤◌, List, [], ◌∷◌, ◌++◌, All, true, false, some, arith,
}
use yasio.Frame.{none_stage}
use yasio.Sending.{
  SendOp, Sender, accepted, refused, completion, not_send_error, do_write, write, call_write,
  poll_out,
}
use yasio.Sending.Stream.{
  Step, writes, performs, IsPending, unsent, all_owed, given, promised, run, run-keeps,
}
use yasio.Sending.Drain.{pump, pump-sends, do_write-refused, IsTransient, IsFatal, Waits, Fails}

-- The buffer 1 2 3 with one byte sent, and a handler.
abbrev half_sent : SendOp
half_sent = record { offset = 1; buffer = 1 ∷ 2 ∷ 3 ∷ []; handler = some 9 }

abbrev sender : Sender
sender = record {
  send_queue = half_sent ∷ [];
  pollout_registered = false;
  error = 0;
  error_stage = none_stage;
}

-- A buffer is given, and the kernel takes one byte, refuses for a while, and takes one more.
abbrev steps : List Step
steps =
    writes (4 ∷ 5 ∷ []) (some 8)
    ∷ performs (accepted 1)
    ∷ performs (refused 11)
    ∷ performs (accepted 1)
    ∷ []

run-keeps_example :
    ((run sender steps).wire ++ unsent (run sender steps).sender.send_queue
      ≡ unsent sender.send_queue ++ given steps)
    × ((run sender steps).called ++ all_owed (run sender steps).sender.send_queue
        ≡ all_owed sender.send_queue ++ promised steps)
    × All IsPending (run sender steps).sender.send_queue
unfolding write do_write call_write poll_out not_send_error
run-keeps_example = run-keeps steps sender (omega arith, tt) (omega arith, (tt, (omega arith, tt)))

-- A kernel that takes one byte at first, and then all.
abbrev more_later : ℕ → ℕ → ℕ
more_later k n = if k == 3 then 1 else n

more_later-takes : (k n : ℕ) → (1 ≤ more_later k (suc n)) × (more_later k (suc n) ≤ suc n)
more_later-takes k n = ground arith

pump-sends_example :
    let t = pump more_later more_later-takes 4 sender in
    (t.wire ≡ 2 ∷ 3 ∷ []) × (t.called ≡ completion (some 9) 0 3) × (t.sender.send_queue ≡ [])
pump-sends_example = pump-sends more_later more_later-takes 4 sender (omega arith, tt) (omega arith)

do_write-refused_example :
    let r = do_write true true sender (refused 32) in
    (IsTransient 32 × Waits sender (half_sent ∷ []) 32 r)
    ⊎ (IsFatal 32 × Fails true sender half_sent [] 32 r)
do_write-refused_example = do_write-refused true sender half_sent [] 32
