-- ===== src/Awaiters/Send.antt =====
-- include/async_frame/async_write.h: `inner_send_awaiter` and `inner_send_timeout_awaiter`.
pub mod Registration
pub mod Timeout
pub mod Deadline
pub mod Loop
pub mod Progress
pub mod Rounds
pub mod TimedRounds
use async_io_framework.Prelude.{ℕ, Bool, true, false, Action, ok, pure, modify, branch, ◌>>=◌, ◌>>◌}
use async_io_framework.Scheduler.{submit_write, remove_write}
use async_io_framework.Timer.{set_timer, Timespec}
use async_io_framework.Transfer.{
  ErrorCode, OpStatus, WriteRet, SendOutcome, try_write, operation_cancelled_error, timeout_error,
}
use async_io_framework.Awaiters.{
  consume_timer, System, World, Frame, on_scheduler, on_timer, is_cancelled, cancel_submit,
  cancel_remove, other_thread, refresh_timer_registration, reading, writing, consume_token,
  has_timed_out, cancel_timer,
}

module _ {K T E B : Type 0} (sys : System K T E B) where
  -- `try_write(base_.conn, base_.buf)`
  abbrev pub transmit : SendOutcome → Action (World K T E B) WriteRet
  transmit outcome w =
      let (r, b) = try_write sys.cursor outcome w.buf in (ok r, record w { buf = b })

  -- An awaiter gives an error with no bytes.
  abbrev pub give_up : ErrorCode → OpStatus → Action (World K T E B) WriteRet
  give_up ec status = pure (record { ec = ec; len = 0; status = status })

  -- `inner_send_awaiter::await_suspend` past its first test of the token. `race` says whether
  -- another thread requests cancellation before `cancel_slot` tests the token again.
  unfoldable pub send_register : Bool → Frame → Action (World K T E B) Bool
  send_register race f = do
    on_scheduler (submit_write sys.epoll f.conn_fd (writing 0 f.operation))
    modify (other_thread sys race)
    cancel_submit sys f
    pure true

  unfoldable pub send_suspend : Bool → Frame → Action (World K T E B) Bool
  send_suspend race f = branch (is_cancelled sys f) (pure false) (send_register race f)

  -- `inner_send_awaiter::await_resume`, on a cancellation and otherwise.
  unfoldable pub send_cancelled : Frame → Action (World K T E B) WriteRet
  send_cancelled f = do
    consume_token sys f
    on_scheduler (remove_write sys.epoll f.conn_fd)
    cancel_remove sys f
    give_up operation_cancelled_error OpStatus.cancelled

  unfoldable pub send_ready : SendOutcome → Frame → Action (World K T E B) WriteRet
  send_ready outcome f = do
    cancel_remove sys f
    on_scheduler (remove_write sys.epoll f.conn_fd)
    transmit outcome

  unfoldable pub send_resume : SendOutcome → Frame → Action (World K T E B) WriteRet
  send_resume outcome f = branch (is_cancelled sys f) (send_cancelled f) (send_ready outcome f)

  -- `inner_send_timeout_awaiter::await_suspend` past its first test of the token. `now` is the
  -- clock's reading.
  unfoldable pub send_timeout_register : Bool → ℕ → ℕ → Frame → Action (World K T E B) Bool
  send_timeout_register race now delay f = do
    on_scheduler (submit_write sys.epoll f.conn_fd (writing f.conn_fd f.operation))
    on_timer (set_timer sys.timerfd now (reading f.timer_fd f.timer_read) delay)
    refresh_timer_registration sys f.timer_fd
    modify (other_thread sys race)
    cancel_submit sys f
    pure true

  unfoldable pub send_timeout_suspend : Bool → ℕ → ℕ → Frame → Action (World K T E B) Bool
  send_timeout_suspend race now delay f =
      branch (is_cancelled sys f) (pure false) (send_timeout_register race now delay f)

  -- `inner_send_timeout_awaiter::await_resume`: on a cancellation, past the timeout, and otherwise.
  unfoldable pub send_timeout_cancelled : Frame → Action (World K T E B) WriteRet
  send_timeout_cancelled f = do
    consume_token sys f
    cancel_timer sys f
    on_scheduler (remove_write sys.epoll f.conn_fd)
    cancel_remove sys f
    refresh_timer_registration sys f.timer_fd
    give_up operation_cancelled_error OpStatus.cancelled

  unfoldable pub send_timed_out : Frame → Action (World K T E B) WriteRet
  send_timed_out f = do
    consume_timer sys
    cancel_timer sys f
    on_scheduler (remove_write sys.epoll f.conn_fd)
    refresh_timer_registration sys f.timer_fd
    give_up timeout_error OpStatus.timeout

  unfoldable pub send_timeout_ready : SendOutcome → Frame → Action (World K T E B) WriteRet
  send_timeout_ready outcome f = do
    cancel_timer sys f
    refresh_timer_registration sys f.timer_fd
    r ← transmit outcome
    on_scheduler (remove_write sys.epoll f.conn_fd)
    pure r

  unfoldable pub send_timeout_resume :
      Timespec → SendOutcome → Frame → Action (World K T E B) WriteRet
  send_timeout_resume left outcome f = branch (is_cancelled sys f) (send_timeout_cancelled f) (
      cancel_remove sys f
      >> branch (has_timed_out sys left f) (send_timed_out f) (send_timeout_ready outcome f))
