-- ===== src/Tests/Udp.antt =====
-- A UDP client of yasio/io_service.cpp with one address to connect to.
use yasio.Base.{ℕ, ◌≡◌, inr, refl, List, [], ◌∷◌, ◌++◌, All, true, false, none, some}
use yasio.Udp.{Udp, SendOp, null_destination, write, disconnect, perform}
use yasio.Udp.Addressed.{
  Step, writes, writes_to, reads, connects, sends, run, IsSafe, run-IsSafeQueue, disconnect-strands,
}

-- Endpoints are numbers here.
abbrev client : Udp ℕ
client = record { connected = false; peer = some 7; destination = none; send_queue = [] }

abbrev steps : List (Step ℕ)
steps =
    writes (1 ∷ [])
    ∷ reads 8 (2 ∷ [])
    ∷ writes_to (3 ∷ []) (some 9)
    ∷ sends
    ∷ connects (7 ∷ []) true
    ∷ writes (4 ∷ [])
    ∷ []

run-IsSafeQueue_example : All (IsSafe (run client steps)) (run client steps).send_queue
run-IsSafeQueue_example = run-IsSafeQueue steps client (inr tt)

abbrev connected_client : Udp ℕ
connected_client = record client { connected = true }

disconnect-strands_example :
    let r = disconnect (write connected_client (1 ∷ [])).1 in
    (op : SendOp ℕ) × (r.send_queue ≡ [] ++ op ∷ []) × (perform r op ≡ null_destination)
disconnect-strands_example = disconnect-strands connected_client (1 ∷ []) refl
