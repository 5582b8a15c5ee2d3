-- ===== src/Sending.antt =====
-- The sending half of io_transport in yasio/io_service.cpp: write, do_write, call_write and
-- complete_op.
pub mod Drain
pub mod Stream
use yasio.Base.{
  ℕ, zero, suc, ◌+◌, ◌-◌, List, [], ◌∷◌, ◌++◌, length, drop, Bool, true, false, ◌==◌, ◌||◌, ◌&&◌,
  not, Option, some, none, if◌then◌else◌,
}
use yasio.Base.Int.{ℤ, pos, negsuc}
use yasio.Frame.{ErrorStage, write_stage, none_stage, would_block, interrupted}

abbrev pub no_buffers : ℕ
no_buffers = 105

-- xxsocket::not_send_error; EWOULDBLOCK is EAGAIN.
unfoldable pub not_send_error : ℕ → Bool
not_send_error e = e == would_block || e == interrupted || e == no_buffers

-- io_send_op, its handler known by a number.
pub record SendOp : Type 0 where
  pub offset : ℕ
  pub buffer : List ℕ
  pub handler : Option ℕ

-- What `perform` gives for the bytes from `offset_` on: how many were taken, or the error.
pub data Performed : Type 0 where
  accepted : ℕ → Performed
  refused : ℕ → Performed

-- A call of a handler: the error, and the bytes that were transferred.
pub record Completion : Type 0 where
  pub handler : ℕ
  pub error : ℕ
  pub transferred : ℕ

pub record Sender : Type 0 where
  pub send_queue : List SendOp
  pub pollout_registered : Bool
  pub error : ℕ
  pub error_stage : ErrorStage

-- io_transport::write and the check of io_service::write before it: the result, and the sender.
unfoldable pub write : Bool → Sender → List ℕ → Option ℕ → ℤ × Sender
write is_open s [] handler = (if is_open then pos 0 else negsuc 0, s)
write is_open s (v ∷ vs) handler =
    if is_open
    then (
      pos (length (v ∷ vs)),
      record s {
        send_queue = s.send_queue ++ record { offset = 0; buffer = v ∷ vs; handler = handler } ∷ [];
      },
    )
    else (negsuc 0, s)

-- complete_op: the handler is called, and the head of the queue popped.
abbrev pub completion : Option ℕ → ℕ → ℕ → List Completion
completion none error offset = []
completion (some h) error offset = record { handler = h; error = error; transferred = offset } ∷ []

abbrev pub advanced : SendOp → ℕ → SendOp
advanced op n = record op { offset = op.offset + n }

-- call_write for the head of the queue and the ops behind it: whether the result is negative, the
-- error, the queue, and the handlers called.
unfoldable pub call_write :
    Bool → SendOp → List SendOp → Performed → Bool × ℕ × List SendOp × List Completion
call_write udp op ops (accepted zero) = (false, 0, op ∷ ops, [])
call_write udp op ops (accepted (suc n)) =
    if op.offset + suc n == length op.buffer
    then (false, 0, ops, completion op.handler 0 (op.offset + suc n))
    else (false, 0, advanced op (suc n) ∷ ops, [])
call_write udp op ops (refused e) =
    if not_send_error e
    then (false, e, op ∷ ops, [])
    else if udp
    then (false, e, ops, completion op.handler e op.offset)
    else (true, e, op ∷ ops, [])

-- What do_write gives: the sender, the handlers called, whether `wait_duration` was set to 0, and
-- false where the connection is to be closed.
pub record Written : Type 0 where
  pub sender : Sender
  pub completions : List Completion
  pub no_wait : Bool
  pub alive : Bool

abbrev pub queue_is_empty : List SendOp → Bool
queue_is_empty [] = true
queue_is_empty (op ∷ ops) = false

-- The end of do_write: the poll for POLLOUT is on while the kernel's buffer is full.
unfoldable pub poll_out : Sender → List SendOp → ℕ → List Completion → Written
poll_out s ops e done =
    let empty = queue_is_empty ops in
    let full = e == would_block || e == no_buffers in
    record {
      sender = record s { send_queue = ops; pollout_registered = not empty && full };
      completions = done;
      no_wait = not empty && not full;
      alive = true;
    }

-- The part of do_write behind the check of the socket, on the queue.
write_queue : Bool → Sender → List SendOp → Performed → Written
write_queue udp s [] p = poll_out s [] 0 []
write_queue udp s (op ∷ ops) p =
    let (failed, e, left, done) = call_write udp op ops p in
    if failed
    then record {
      sender = record s { send_queue = left; error = e; error_stage = write_stage };
      completions = done;
      no_wait = false;
      alive = false;
    }
    else poll_out s left e done

unfoldable pub do_write : Bool → Bool → Sender → Performed → Written
unfolding write_queue
do_write is_open udp s p =
    if is_open
    then write_queue udp s s.send_queue p
    else record { sender = s; completions = []; no_wait = false; alive = false }
