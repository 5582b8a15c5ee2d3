-- ===== src/Tests/Frame.antt =====
-- The cutting of yasio/io_service.cpp on a short stream: the messages 7, 8, 9 and an empty one.
use yasio.Base.{ℕ, true, ◌≡◌, refl, List, [], ◌∷◌, ◌++◌, inl, arith, drop, map}
use yasio.Base.Outcome.{ok}
use yasio.Base.Int.{ℤ, pos, negsuc}
use yasio.Endian.{w16}
use yasio.Frame.{UnpackParams, Transport, Progress, none_stage, builtin_decode_len}
use yasio.Frame.Stream.{IsFraming}
use yasio.Frame.Run.{Cuts, run, run-Cuts}
use yasio.Frame.Complete.{no_bytes, run-same_packets}
use yasio.Frame.Decode.{idle, builtin_decode_len-IsFraming}
use yasio.Frame.Messages.{message, message_params, messages-arrive}

abbrev transport : Transport
transport = record {
  held = [];
  expected_size = negsuc 0;
  expected_packet = [];
  error = pos 0;
  error_stage = none_stage;
}

abbrev params : UnpackParams
params = message_params w16 100 2

-- Two chunkings of the bytes 0 3 7 8 9 0 0.
abbrev chunks : List (List ℕ)
chunks = (0 ∷ 3 ∷ 7 ∷ []) ∷ (8 ∷ 9 ∷ 0 ∷ []) ∷ (0 ∷ []) ∷ []

abbrev other_chunks : List (List ℕ)
other_chunks = (0 ∷ []) ∷ (3 ∷ 7 ∷ 8 ∷ 9 ∷ 0 ∷ 0 ∷ []) ∷ []

params-IsFraming : IsFraming (builtin_decode_len params) 2
params-IsFraming = builtin_decode_len-IsFraming params 0 refl (omega arith)

run-Cuts_example :
    Cuts
      (builtin_decode_len params)
      2
      (run (builtin_decode_len params) 2 (idle transport) chunks)
      (0 ∷ 3 ∷ 7 ∷ 8 ∷ 9 ∷ 0 ∷ 0 ∷ [])
run-Cuts_example =
    run-Cuts (builtin_decode_len params) 2 chunks (idle transport) [] params-IsFraming
      (inl (refl, refl, refl))

run-same_packets_example :
    (p : Progress) × (q : Progress) × (run
        (builtin_decode_len params)
        2
        (idle transport)
        (chunks ++ no_bytes 8)
      ≡ ok p)
    × (run (builtin_decode_len params) 2 (idle transport) (other_chunks ++ no_bytes 8) ≡ ok q)
    × (p.packets ≡ q.packets)
run-same_packets_example =
    run-same_packets (builtin_decode_len params) 2 chunks other_chunks 8 8 (idle transport) []
      params-IsFraming (inl (refl, refl, refl)) refl (omega arith) (omega arith)

messages-arrive_example :
    (p : Progress) × (run (builtin_decode_len params) 2 (idle transport) (chunks ++ no_bytes 8)
      ≡ ok p)
    × (p.packets ≡ map (λ vs. drop 2 (message w16 vs)) ((7 ∷ 8 ∷ 9 ∷ []) ∷ [] ∷ []))
messages-arrive_example =
    messages-arrive w16 100 2 ((7 ∷ 8 ∷ 9 ∷ []) ∷ [] ∷ []) chunks 8 transport (omega arith)
      (omega arith) (omega arith) ((omega arith, omega arith), ((omega arith, omega arith), tt))
      refl (omega arith)

abbrev datagrams : UnpackParams
datagrams = record params { length_field_offset = negsuc 0 }

-- A decoder that knows the length from the first byte.
abbrev first_byte : List ℕ → ℤ
first_byte [] = pos 0
first_byte (v ∷ vs) = pos v

-- The length counts the whole frame here, so that a length of 0 is one the peer can send.
abbrev whole_length : UnpackParams
whole_length = record params { length_adjustment = pos 0; no_bswap = true }
