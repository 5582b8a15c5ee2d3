-- ===== src/Transfer.antt =====
-- send_n and recv_n of yasio/xxsocket.cpp: loops that move a whole buffer over a non-blocking socket, and
-- disconnect. What the kernel, the poller and the clock answer is a list.
pub mod Whole
use yasio.Base.{
  ℕ, zero, suc, ◌+◌, ◌-◌, List, [], ◌∷◌, ◌++◌, length, take, drop, Bool, true, false, ◌==◌, ltb,
  not, ◌&&◌, ◌||◌, Option, some, none, if◌then◌else◌,
}
use yasio.Base.Int.{ℤ, pos, negsuc, ◌-ℤ◌}
use yasio.Sending.{not_send_error}
use yasio.Frame.{not_recv_error}

-- A call of send or recv: it moves bytes, returns 0, or fails with an errno; and what waiting gives after
-- it, where it is reached: whether select failed, and the microseconds that it took.
pub data Answer (A : Type 0) : Type 0 where
  moves : A → Answer A
  ends : Answer A
  fails : ℕ → Bool → ℤ → Answer A

-- The time that is left is positive.
abbrev pub is_positive : ℤ → Bool
is_positive (pos n) = not (n == 0)
is_positive (negsuc n) = false

-- Whether the loop goes on after a failure.
abbrev pub goes_on : Bool → Bool → ℤ → Bool
goes_on blocking select_failed left = blocking && (not select_failed && is_positive left)

-- How many bytes were sent in all, and the bytes on the wire; where the answers end, the loop has not yet.
pub send_n : List (Answer ℕ) → List ℕ → ℕ → ℤ → ℕ × List ℕ
unfolding not_send_error
send_n [] buf sent wtimeout = (sent, [])
send_n (moves n ∷ answers) buf sent wtimeout =
    let (total, wire) = send_n answers buf (sent + n) wtimeout in
    if ltb sent (length buf) then (total, take n (drop sent buf) ++ wire) else (sent, [])
send_n (ends ∷ answers) buf sent wtimeout = (sent, [])
send_n (fails e select_failed time ∷ answers) buf sent wtimeout =
    let rest = send_n answers buf sent (wtimeout -ℤ time) in
    if ltb sent (length buf) && goes_on (not_send_error e) select_failed (wtimeout -ℤ time)
    then rest
    else (sent, [])

-- The bytes that were received in all, of `len` that are wanted.
pub recv_n : List (Answer (List ℕ)) → ℕ → List ℕ → ℤ → List ℕ
recv_n [] len got wtimeout = got
recv_n (moves bytes ∷ answers) len got wtimeout =
    let rest = recv_n answers len (got ++ bytes) wtimeout in
    if ltb (length got) len then rest else got
recv_n (ends ∷ answers) len got wtimeout = got
recv_n (fails e select_failed time ∷ answers) len got wtimeout =
    let rest = recv_n answers len got (wtimeout -ℤ time) in
    if ltb (length got) len && goes_on (not_recv_error e) select_failed (wtimeout -ℤ time)
    then rest
    else got

-- disconnect: connect to no address, again where it is interrupted. The answers are the errnos, where it
-- failed; on systems of the BSD kind two of them stand for success.
pub data Disconnect : Type 0 where
  ok interrupted : Disconnect
  failed : ℕ → Disconnect

abbrev pub bsd_result : Bool → ℕ → ℤ
bsd_result bsd_like e = if bsd_like && (e == 47 || e == 22) then pos 0 else negsuc 0

abbrev pub disconnect : Bool → List Disconnect → Option ℤ
disconnect bsd_like [] = none
disconnect bsd_like (ok ∷ answers) = some (pos 0)
disconnect bsd_like (interrupted ∷ answers) = disconnect bsd_like answers
disconnect bsd_like (failed e ∷ answers) = some (bsd_result bsd_like e)
