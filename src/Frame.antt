-- ===== src/Frame.antt =====
-- Cutting the received bytes into packets: io_channel::__builtin_decode_len, io_transport::call_read,
-- io_service::do_read and io_service::unpack of yasio/io_service.cpp.
pub mod Decode
pub mod Stream
pub mod Step
pub mod Run
pub mod Complete
pub mod Faults
pub mod Messages
use yasio.Base.{
  ℕ, zero, suc, ◌+◌, ◌-◌, ◌*◌, ◌≤◌, ◌≡◌, List, [], ◌∷◌, ◌++◌, length, take, drop, Bool, true, false,
  ltb, leb, ◌==◌, ◌||◌, ◌&&◌, not, if◌then◌else◌, min,
}
use yasio.Base.Outcome.{Outcome, ok, err, ◌>>=◌, out_of_range}
use yasio.Base.Int.{ℤ, pos, negsuc, ◌+ℤ◌, ◌-ℤ◌, ltb_ℤ, signed32, pos_part}
use yasio.Endian.Bytes.{of_le}
use yasio.Endian.{network_to_host_int}

-- The unpack params of a channel.
pub record UnpackParams : Type 0 where
  pub max_frame_length : ℤ
  pub length_field_offset : ℤ
  pub length_field_length : ℕ
  pub length_adjustment : ℤ
  pub initial_bytes_to_strip : ℕ
  pub no_bswap : Bool

-- YOPT_C_UNPACK_PARAMS, YOPT_C_UNPACK_STRIP and YOPT_C_UNPACK_NO_BSWAP of set_option_internal.
abbrev pub unpack_max_strip : ℕ
unpack_max_strip = 32

abbrev pub clamp : ℤ → ℕ → ℕ → ℕ
clamp v lo hi = if ltb_ℤ v (pos lo) then lo else if ltb_ℤ (pos hi) v then hi else pos_part v

abbrev pub set_unpack_params : UnpackParams → ℤ → ℤ → ℤ → ℤ → UnpackParams
set_unpack_params p max_length offset size adjustment = record p {
  max_frame_length = max_length;
  length_field_offset = offset;
  length_field_length = clamp size 1 4;
  length_adjustment = adjustment;
}

abbrev pub set_unpack_strip : UnpackParams → ℤ → UnpackParams
set_unpack_strip p strip = record p { initial_bytes_to_strip = clamp strip 0 unpack_max_strip }

abbrev pub set_no_bswap : UnpackParams → ℤ → UnpackParams
set_no_bswap p v = record p { no_bswap = not (pos_part v == 0) || ltb_ℤ v (pos 0) }

-- The length of the frame, from the bytes of the length field.
unfoldable pub decode_field : UnpackParams → List ℕ → ℤ
decode_field p field =
    let raw = of_le field in
    let value = if p.no_bswap then raw else network_to_host_int raw p.length_field_length in
    let len = signed32 value +ℤ p.length_adjustment in
    if ltb_ℤ p.max_frame_length len then negsuc 0 else len

-- The length field at `offset`, where it has arrived, and 0 where it has not.
unfoldable pub decode_at : UnpackParams → ℤ → List ℕ → ℤ
decode_at p (pos offset) d =
    if leb (offset + p.length_field_length) (length d)
    then decode_field p (take p.length_field_length (drop offset d))
    else pos 0
decode_at p (negsuc offset) d = pos (length d)

-- __builtin_decode_len
unfoldable pub builtin_decode_len : UnpackParams → List ℕ → ℤ
unfolding decode_at
builtin_decode_len p d = decode_at p p.length_field_offset d

pub data ErrorStage : Type 0 where
  none_stage read_stage write_stage open_socket_stage bind_socket_stage listen_socket_stage :
      ErrorStage

-- yasio::errc, and the errors of the sockets.
abbrev pub invalid_packet : ℤ
invalid_packet = negsuc 26

abbrev pub eof : ℤ
eof = negsuc 19

abbrev pub would_block : ℕ
would_block = 11

abbrev pub interrupted : ℕ
interrupted = 4

-- xxsocket::not_recv_error; EWOULDBLOCK is EAGAIN.
abbrev pub not_recv_error : ℕ → Bool
not_recv_error e = e == would_block || e == interrupted

-- What `read_cb_` gives: the bytes, or the error of the socket.
pub data RawRead : Type 0 where
  bytes : List ℕ → RawRead
  failure : ℕ → RawRead

-- What `do_read` of the transport gives: n ≥ 0 bytes, or an error.
pub data Received : Type 0 where
  got : List ℕ → Received
  failed : ℤ → Received

-- io_transport::call_read
abbrev pub call_read : Bool → RawRead → Received
call_read tcp (bytes []) = if tcp then failed eof else got []
call_read tcp (bytes (v ∷ vs)) = got (v ∷ vs)
call_read tcp (failure e) = if not_recv_error e then got [] else failed (pos e)

-- The receiving half of io_transport. `held` are the first `offset_` bytes of its buffer.
pub record Transport : Type 0 where
  pub held : List ℕ
  pub expected_size : ℤ
  pub expected_packet : List ℕ
  pub error : ℤ
  pub error_stage : ErrorStage

pub set_last_errno : Transport → ℤ → ErrorStage → Transport
set_last_errno t e stage = record t { error = e; error_stage = stage }

-- The transport, the packets handed on, whether `wait_duration_` was set to 0, and the result of
-- `do_read`: false closes the connection.
pub record Progress : Type 0 where
  pub transport : Transport
  pub packets : List (List ℕ)
  pub no_wait : Bool
  pub alive : Bool

abbrev not_empty : List ℕ → Bool
not_empty [] = false
not_empty (v ∷ vs) = true

-- io_service::unpack; a range that ends before it begins is refused by pod_vector::insert.
pub unpack : Transport → ℤ → List ℕ → ℕ → Outcome Progress
unpack t (negsuc want) received strip = err out_of_range
unpack t (pos want) received strip =
    let available = t.held ++ received in
    let packet = t.expected_packet ++ drop strip (take want available) in
    let rest = drop want available in
    if leb strip (min want (length available))
    then if leb want (length available)
      then ok (record {
        transport = record t { held = rest; expected_size = negsuc 0; expected_packet = [] };
        packets = packet ∷ [];
        no_wait = not_empty rest;
        alive = true;
      })
      else ok (record {
        transport = record t { held = []; expected_packet = packet };
        packets = [];
        no_wait = false;
        alive = true;
      })
    else err out_of_range

-- The branch of do_read that has no packet begun, on the decoded length.
begin_packet : Transport → ℤ → List ℕ → ℕ → Outcome Progress
begin_packet t (pos zero) received strip = ok (record {
  transport = record t { held = t.held ++ received };
  packets = [];
  no_wait = false;
  alive = true;
})
begin_packet t (pos (suc n)) received strip =
    if ltb (suc n) strip
    then ok (record {
      transport = set_last_errno t invalid_packet read_stage;
      packets = [];
      no_wait = false;
      alive = false;
    })
    else unpack (record t { expected_size = pos (suc n) }) (pos (suc n)) received strip
begin_packet t (negsuc n) received strip = ok (record {
  transport = set_last_errno t invalid_packet read_stage;
  packets = [];
  no_wait = false;
  alive = false;
})

is_minus_one : ℤ → Bool
is_minus_one (negsuc n) = n == 0
is_minus_one (pos n) = false

-- The branch of do_read where packets are to be cut (`forward_packet_` is off).
pub read_packets : (List ℕ → ℤ) → ℕ → Transport → Received → Outcome Progress
unfolding begin_packet is_minus_one unpack
read_packets decode_len strip t (got received) =
    if is_minus_one t.expected_size
    then begin_packet t (decode_len (t.held ++ received)) received strip
    else unpack t (t.expected_size -ℤ pos (length t.expected_packet + strip)) received 0
read_packets decode_len strip t (failed e) = ok (record {
  transport = set_last_errno t e read_stage;
  packets = [];
  no_wait = false;
  alive = false;
})

-- The branch of do_read with `forward_packet_`: what was received goes on as it is.
abbrev pub read_forward : Transport → Received → Progress
read_forward t (got received) = record {
  transport = t;
  packets = if not_empty received then received ∷ [] else [];
  no_wait = false;
  alive = true;
}
read_forward t (failed e) = record {
  transport = set_last_errno t e read_stage;
  packets = [];
  no_wait = false;
  alive = false;
}

-- io_service::do_read. A closed socket ends the connection, and nothing is read.
abbrev pub do_read : Bool → Bool → (List ℕ → ℤ) → ℕ → Transport → Received → Outcome Progress
do_read is_open forward decode_len strip t r =
    if is_open
    then if forward then ok (read_forward t r) else read_packets decode_len strip t r
    else ok (record { transport = t; packets = []; no_wait = false; alive = false })
