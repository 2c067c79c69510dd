-- ===== src/Awaiters/Recv.antt =====
-- include/async_frame/async_read.h: `inner_recv_awaiter` and `inner_recv_timeout_awaiter`.
pub mod Registration
pub mod Races
pub mod Timeout
pub mod Deadline
pub mod Loop
pub mod Streams
pub mod Rounds
pub mod TimedRounds
use async_io_framework.Prelude.{ℕ, Bool, true, false, Action, ok, pure, modify, branch, ◌>>=◌, ◌>>◌}
use async_io_framework.Scheduler.{submit_read, remove_read}
use async_io_framework.Timer.{set_timer, Timespec}
use async_io_framework.Transfer.{
  ReadRet, RecvOutcome, try_read, operation_cancelled_error, timeout_error,
}
use async_io_framework.Awaiters.{
  consume_timer, consume_token, has_timed_out, cancel_timer, System, World, Frame, on_scheduler,
  on_timer, is_cancelled, cancel_submit, cancel_remove, other_thread, refresh_timer_registration,
  reading,
}

module _ {K T E B : Type 0} (sys : System K T E B) where
  -- `try_read(base_.conn, base_.buf)`
  abbrev pub receive : RecvOutcome → Action (World K T E B) ReadRet
  receive outcome w = let (r, b) = try_read sys.cursor outcome w.buf in (ok r, record w { buf = b })

  -- An awaiter gives an error and what the buffer holds.
  abbrev pub give_up : ℕ → Action (World K T E B) ReadRet
  give_up ec w = (ok (record { ec = ec; len = sys.cursor.read_count w.buf }), w)

  -- `inner_recv_awaiter::await_suspend` past its first test of the token. `race` says whether
  -- another thread requests cancellation before `cancel_slot` tests the token again.
  unfoldable pub recv_register : Bool → Frame → Action (World K T E B) Bool
  recv_register race f = do
    on_scheduler (submit_read sys.epoll f.conn_fd (reading 0 f.operation))
    modify (other_thread sys race)
    cancel_submit sys f
    pure true

  unfoldable pub recv_suspend : Bool → Frame → Action (World K T E B) Bool
  recv_suspend race f = branch (is_cancelled sys f) (pure false) (recv_register race f)

  -- `inner_recv_awaiter::await_resume`, on a cancellation and otherwise.
  unfoldable pub recv_cancelled : Frame → Action (World K T E B) ReadRet
  recv_cancelled f = do
    consume_token sys f
    on_scheduler (remove_read sys.epoll f.conn_fd)
    cancel_remove sys f
    give_up operation_cancelled_error

  unfoldable pub recv_ready : RecvOutcome → Frame → Action (World K T E B) ReadRet
  recv_ready outcome f = do
    cancel_remove sys f
    r ← receive outcome
    on_scheduler (remove_read sys.epoll f.conn_fd)
    pure r

  unfoldable pub recv_resume : RecvOutcome → Frame → Action (World K T E B) ReadRet
  recv_resume outcome f = branch (is_cancelled sys f) (recv_cancelled f) (recv_ready outcome f)

  -- `inner_recv_timeout_awaiter::await_suspend` past its first test of the token. `now` is the
  -- clock's reading.
  unfoldable pub recv_timeout_register : Bool → ℕ → ℕ → Frame → Action (World K T E B) Bool
  recv_timeout_register race now delay f = do
    on_scheduler (submit_read sys.epoll f.conn_fd (reading f.conn_fd f.operation))
    on_timer (set_timer sys.timerfd now (reading f.timer_fd f.timer_read) delay)
    refresh_timer_registration sys f.timer_fd
    modify (other_thread sys race)
    cancel_submit sys f
    pure true

  unfoldable pub recv_timeout_suspend : Bool → ℕ → ℕ → Frame → Action (World K T E B) Bool
  recv_timeout_suspend race now delay f =
      branch (is_cancelled sys f) (pure false) (recv_timeout_register race now delay f)

  -- `inner_recv_timeout_awaiter::await_resume`: on a cancellation, past the timeout, and otherwise.
  unfoldable pub recv_timeout_cancelled : Frame → Action (World K T E B) ReadRet
  recv_timeout_cancelled f = do
    consume_token sys f
    cancel_timer sys f
    on_scheduler (remove_read sys.epoll f.conn_fd)
    cancel_remove sys f
    refresh_timer_registration sys f.timer_fd
    give_up operation_cancelled_error

  unfoldable pub recv_timed_out : Frame → Action (World K T E B) ReadRet
  recv_timed_out f = do
    consume_timer sys
    cancel_timer sys f
    on_scheduler (remove_read sys.epoll f.conn_fd)
    refresh_timer_registration sys f.timer_fd
    give_up timeout_error

  unfoldable pub recv_timeout_ready : RecvOutcome → Frame → Action (World K T E B) ReadRet
  recv_timeout_ready outcome f = do
    cancel_timer sys f
    refresh_timer_registration sys f.timer_fd
    r ← receive outcome
    on_scheduler (remove_read sys.epoll f.conn_fd)
    pure r

  unfoldable pub recv_timeout_resume :
      Timespec → RecvOutcome → Frame → Action (World K T E B) ReadRet
  recv_timeout_resume left outcome f = branch (is_cancelled sys f) (recv_timeout_cancelled f) (
      cancel_remove sys f
      >> branch (has_timed_out sys left f) (recv_timed_out f) (recv_timeout_ready outcome f))
