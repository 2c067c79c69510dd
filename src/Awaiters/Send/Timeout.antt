-- ===== src/Awaiters/Send/Timeout.antt =====
-- include/async_frame/async_write.h: what `inner_send_timeout_awaiter` takes back from the
-- scheduler and the timers when it resumes.
use async_io_framework.Prelude.{none, some, ℕ, ◌≡◌, if◌then◌else◌}
use async_io_framework.Events.{RegisterType, to_underlying}
use async_io_framework.Epoll.{IsReliable}
use async_io_framework.Scheduler.{remove_write}
use async_io_framework.Scheduler.Agreement.{Agrees}
use async_io_framework.Scheduler.Slots.{waiters}
use async_io_framework.Timer.{TimerEvent, Timespec}
use async_io_framework.CancelToken.{consume, SharedState}
use async_io_framework.Transfer.{
  OpStatus, WriteRet, SendOutcome, try_write, operation_cancelled_error, timeout_error,
}
use async_io_framework.Awaiters.{System, World, Frame, on_scheduler, has_timed_out, is_cancelled}
use async_io_framework.Awaiters.Send.{
  send_timeout_cancelled, send_timed_out, send_timeout_ready, send_timeout_resume,
}
use async_io_framework.Awaiters.Steps.{
  with_writer, with_writer-ap, with_writer-with_reader, Ends, with_reader, with_token, Table,
  with_writer-with_token,
}
use async_io_framework.Awaiters.Calls.{remove-Moves}
use async_io_framework.Awaiters.Timers.{ended, Kept, current_reader, has_fired, ended-Sound, Sound}
use async_io_framework.Timer.Invariant.{pending}
use async_io_framework.Timer.History.{id_of, is_id}
use async_io_framework.Awaiters.Resuming.{IsWithdrawal, resume-Ends}

-- Nobody waits for the operation any more, and the current timer's operation for the timerfd.
abbrev pub released : {T : Type 0} → Frame → TimerEvent T → Table → Table
released f t slots =
    with_reader f.timer_fd (current_reader t)
      (with_token f.cancel_token none (with_writer f.conn_fd none slots))

module _ {K T E B : Type 0} (sys : System K T E B) where
  -- What `await_resume` returns, and the buffer that it leaves.
  abbrev pub timeout_result : Timespec → SendOutcome → Frame → World K T E B → WriteRet × B
  timeout_result left outcome f w =
      if is_cancelled sys f w
      then (record { ec = operation_cancelled_error; len = 0; status = OpStatus.cancelled }, w.buf)
      else if has_timed_out sys left f w
      then (record { ec = timeout_error; len = 0; status = OpStatus.timeout }, w.buf)
      else try_write sys.cursor outcome w.buf

  abbrev pub timeout_token : Frame → World K T E B → SharedState E
  timeout_token f w =
      if is_cancelled sys f w then consume sys.eventfd f.cancel_token w.token else w.token

module _ {K T E B : Type 0} (sys : System K T E B) (reliable : IsReliable sys.epoll) where
  withdrawal :
      (f : Frame)
      → IsWithdrawal sys f.timer_fd
          (on_scheduler (remove_write sys.epoll f.conn_fd))
          (with_writer f.conn_fd none)
  withdrawal f = record {
    moves = remove-Moves sys reliable f.conn_fd (to_underlying RegisterType.event_write);
    without-ap = with_writer-ap f.conn_fd none;
    without-token = λ token s j. with_writer-with_token token f.conn_fd none none s j;
    without-timer =
        λ t s j. with_writer-with_reader f.conn_fd f.timer_fd none (current_reader t) s j;
  }

  send_timeout_resume-Ends :
      (left : Timespec) (outcome : SendOutcome) (f : Frame) (w : World K T E B)
      → Agrees sys.epoll w.scheduler
      → Kept sys.timerfd w.timer
      → let (r, b) = timeout_result sys left outcome f w in
        Ends sys
          (send_timeout_resume sys left outcome f)
          w
          r
          (ended sys.timerfd f (has_fired sys left f w) w.timer)
          (timeout_token sys f w)
          b
          (released f (ended sys.timerfd f (has_fired sys left f w) w.timer) (waiters w.scheduler))
  unfolding send_timeout_resume send_timeout_cancelled send_timed_out send_timeout_ready
  send_timeout_resume-Ends left outcome f w a k =
      resume-Ends sys reliable f (on_scheduler (remove_write sys.epoll f.conn_fd))
        (with_writer f.conn_fd none) (withdrawal f) left
        (λ b. record { ec = operation_cancelled_error; len = 0; status = OpStatus.cancelled })
        (λ b. record { ec = timeout_error; len = 0; status = OpStatus.timeout })
        (try_write sys.cursor outcome) w a k

  -- On every branch (cancelled, timed out, ready), resuming takes back all that the operation
  -- registered: the connection has no writer and the token no reader, its own timer is pending no
  -- more and the others are, the earliest of them is current and its operation is the timerfd's
  -- reader, and table and epoll agree. It returns the error of its branch with no bytes, or
  -- `try_write`'s result, and consumes the request where it is cancelled. Every pending timer has an
  -- operation.
  pub send_timeout_resume-Sound :
      (left : Timespec) (outcome : SendOutcome) (f : Frame) (w : World K T E B)
      → Agrees sys.epoll w.scheduler
      → Kept sys.timerfd w.timer
      → let (r, b) = timeout_result sys left outcome f w in
        let t = ended sys.timerfd f (has_fired sys left f w) w.timer in
        Ends sys
          (send_timeout_resume sys left outcome f)
          w
          r
          t
          (timeout_token sys f w)
          b
          (released f t (waiters w.scheduler))
        × Sound sys.timerfd t
        × ((i : ℕ)
            → pending t i
              ≡ (if is_id (id_of (some f.timer_read) w.timer) i then none else pending w.timer i))
  send_timeout_resume-Sound left outcome f w a k =
      let (s, taken) = ended-Sound sys.timerfd f (has_fired sys left f w) w.timer k in
      (send_timeout_resume-Ends left outcome f w a k, s, taken)
