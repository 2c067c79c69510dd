-- ===== src/Tests/Transfers.antt =====
-- Examples for include/async_frame/do_read.h, include/async_frame/do_write.h and
-- include/async_frame/cancellation_token.h.
use async_io_framework.Prelude.{◌≡◌, ◌≢◌, ◌↔◌, ◌⊎◌, refl, [], ◌∷◌, arith}
use async_io_framework.Buffer.Cursor.{dynamic_buffer}
use async_io_framework.Transfer.{no_error, eagain, RecvOutcome, SendOutcome, try_read, try_write}
use async_io_framework.Transfer.Laws.{
  Received, Sent, try_read-Received, try_write-Sent, try_read_silent,
}
use async_io_framework.CancelToken.{CancelToken, new_state, request_cancel, consume}
use async_io_framework.CancelToken.History.{Step, Reach, IsToken, Spent, Reach-IsToken, Reach-Spent}
use async_io_framework.Tests.Fixtures.{eventfd_counter, four, four-IsWithin}

abbrev two_bytes : RecvOutcome
two_bytes = RecvOutcome.received (7 ∷ 8 ∷ [])

try_read-Received_example :
    let (r, b') = try_read dynamic_buffer two_bytes four in
    Received dynamic_buffer two_bytes four r b'
try_read-Received_example =
    try_read-Received dynamic_buffer two_bytes four four-IsWithin (omega arith)

try_write-Sent_example :
    let (r, b') = try_write dynamic_buffer (SendOutcome.sent 3) four in
    Sent dynamic_buffer (SendOutcome.sent 3) four r b'
try_write-Sent_example =
    try_write-Sent dynamic_buffer (SendOutcome.sent 3) four four-IsWithin (omega arith)

again-not_zero : RecvOutcome.recv_failed eagain ≢ RecvOutcome.recv_failed 0
again-not_zero = ground arith

try_read_silent_case :
    ((try_read dynamic_buffer (RecvOutcome.recv_failed eagain) four).0
      ≡ record { ec = no_error; len = 0 })
    ↔ ((RecvOutcome.recv_failed eagain ≡ RecvOutcome.received [])
        ⊎ (RecvOutcome.recv_failed eagain ≡ RecvOutcome.recv_failed eagain))
try_read_silent_case =
    try_read_silent dynamic_buffer (RecvOutcome.recv_failed eagain) four again-not_zero

Reach-IsToken_case :
    IsToken eventfd_counter (request_cancel eventfd_counter (new_state eventfd_counter 0))
Reach-IsToken_case = Reach-IsToken eventfd_counter 0 refl (Reach.next Reach.here Step.requests)

Reach-Spent_example : Spent eventfd_counter (
    request_cancel eventfd_counter (
      consume eventfd_counter
        (CancelToken.event 3)
        (request_cancel eventfd_counter (new_state eventfd_counter 0))))
unfolding request_cancel
Reach-Spent_example =
    Reach-Spent eventfd_counter 3 (request_cancel eventfd_counter (new_state eventfd_counter 0))
      refl (Reach.next Reach.here Step.requests)
