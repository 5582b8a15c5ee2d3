-- ===== src/Tests/Delivery.antt =====
-- A connection from end to end, with two messages of yasio/io_service.cpp.
use yasio.Base.{ℕ, suc, ◌≡◌, ◌≤◌, refl, sym, List, [], ◌∷◌, ◌++◌, map, drop, none, false, arith}
use yasio.Base.Int.{pos, negsuc}
use yasio.Base.Outcome.{ok}
use yasio.Endian.{w16}
use yasio.Frame.{Transport, Progress, builtin_decode_len, none_stage}
use yasio.Frame.Run
use yasio.Frame.Complete.{no_bytes}
use yasio.Frame.Decode.{idle}
use yasio.Frame.Messages.{message, message_params}
use yasio.Sending.{Sender, write}
use yasio.Sending.Stream.{Step, writes}
use yasio.Delivery.{wire-given, wire-delivers}

abbrev fresh : Sender
fresh = record { send_queue = []; pollout_registered = false; error = 0; error_stage = none_stage }

abbrev transport : Transport
transport = record {
  held = [];
  expected_size = negsuc 0;
  expected_packet = [];
  error = pos 0;
  error_stage = none_stage;
}

-- The first message in two buffers, the second behind its end.
abbrev given_steps : List Step
given_steps = writes (0 ∷ 3 ∷ 7 ∷ []) none ∷ writes (8 ∷ 9 ∷ 0 ∷ 0 ∷ []) none ∷ []

abbrev all : ℕ → ℕ → ℕ
all k n = n

all-takes : (k n : ℕ) → (1 ≤ all k (suc n)) × (all k (suc n) ≤ suc n)
all-takes k n = (omega arith, omega arith)

abbrev chunks : List (List ℕ)
chunks = (0 ∷ []) ∷ (3 ∷ 7 ∷ 8 ∷ []) ∷ (9 ∷ 0 ∷ 0 ∷ []) ∷ []

abbrev sent : List (List ℕ)
sent = (7 ∷ 8 ∷ 9 ∷ []) ∷ [] ∷ []

wire-delivers_example :
    (p : Progress) × (Run.run
        (builtin_decode_len (message_params w16 100 2))
        2
        (idle transport)
        (chunks ++ no_bytes 8)
      ≡ ok p)
    × (p.packets ≡ map (λ vs. drop 2 (message w16 vs)) sent)
unfolding write
wire-delivers_example =
    wire-delivers all all-takes w16 100 2 8 8 sent chunks fresh given_steps transport (omega arith)
      (omega arith) (omega arith) ((omega arith, omega arith), ((omega arith, omega arith), tt))
      refl tt refl (omega arith)
      (sym (wire-given all all-takes 8 fresh given_steps refl tt (omega arith))) (omega arith)
