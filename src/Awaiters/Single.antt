-- ===== src/Awaiters/Single.antt =====
-- The operations that wait once: include/async_frame/async_read_some.h,
-- include/async_frame/async_accept.h, include/async_frame/async_connect.h with
-- include/async_frame/try_connect.h, and include/async_frame/wait_for.h. The outcomes of the system
-- calls are arguments.
pub mod Registration
pub mod Waiting
use async_io_framework.Prelude.{
  ℕ, Bool, true, false, Option, none, some, Action, ok, ⊤, pure, ◌>>=◌, ◌>>◌, ◌==◌, ◌||◌,
  if◌then◌else◌,
}
use async_io_framework.Scheduler.{
  submit_read, remove_read, submit_accept, remove_accept, submit_connect, remove_connect,
}
use async_io_framework.Timer.{set_timer, increment}
use async_io_framework.Transfer.{
  ErrorCode, no_error, eagain, einprogress, is_error, ReadRet, RecvOutcome, try_read,
}
use async_io_framework.Awaiters.{
  consume_timer, System, World, Frame, on_scheduler, on_timer, reading, writing, register_current,
  refresh_timer_registration,
}

-- What a call that makes a descriptor did: it returned one, or -1 with an errno.
pub data FdOutcome : Type 0 where
  opened : ℕ → FdOutcome
  open_failed : ErrorCode → FdOutcome

-- `accept_result`, and the pair that `async_connect` gives. `none` is the descriptor -1.
pub record FdRet : Type 0 where
  pub ec : ErrorCode
  pub fd : Option ℕ

-- `connect_status`
pub data ConnectStatus : Type 0 where
  connected error in_progress : ConnectStatus

-- What connect(2) did: it returned 0, or -1 with an errno.
pub data ConnectOutcome : Type 0 where
  connects : ConnectOutcome
  connect_failed : ErrorCode → ConnectOutcome

-- What getsockopt(2) did with SO_ERROR: it wrote an error, or returned -1 with an errno.
pub data SockoptOutcome : Type 0 where
  so_error : ErrorCode → SockoptOutcome
  sockopt_failed : ErrorCode → SockoptOutcome

abbrev pub accepted : FdOutcome → FdRet
accepted (FdOutcome.opened fd) = record { ec = no_error; fd = some fd }
accepted (FdOutcome.open_failed errno) = record { ec = errno; fd = none }

-- EWOULDBLOCK is EAGAIN.
abbrev pub try_connect : ConnectOutcome → ConnectStatus
try_connect ConnectOutcome.connects = ConnectStatus.connected
try_connect (ConnectOutcome.connect_failed errno) =
    if errno == einprogress || errno == eagain
    then ConnectStatus.in_progress
    else ConnectStatus.error

-- `errno` after connect(2).
abbrev pub errno_of : ConnectOutcome → ErrorCode
errno_of ConnectOutcome.connects = no_error
errno_of (ConnectOutcome.connect_failed errno) = errno

abbrev pub connect_error : SockoptOutcome → ErrorCode
connect_error (SockoptOutcome.sockopt_failed errno) = errno
connect_error (SockoptOutcome.so_error err) = if err == 0 then no_error else err

module _ {K T E B : Type 0} (sys : System K T E B) where
  -- `inner_recv_some_awaiter`
  unfoldable pub recv_some_suspend : Frame → Action (World K T E B) ⊤
  recv_some_suspend f =
      on_scheduler (submit_read sys.epoll f.conn_fd (reading f.conn_fd f.operation))

  unfoldable pub recv_some_resume : RecvOutcome → Frame → Action (World K T E B) ReadRet
  recv_some_resume outcome f = do
    on_scheduler (remove_read sys.epoll f.conn_fd)
    λ w. let (r, b) = try_read sys.cursor outcome w.buf in (ok r, record w { buf = b })

  -- `inner_accept_awaiter`
  unfoldable pub accept_suspend : Frame → Action (World K T E B) ⊤
  accept_suspend f =
      on_scheduler (submit_accept sys.epoll f.conn_fd (reading f.conn_fd f.operation))

  unfoldable pub accept_resume : FdOutcome → Frame → Action (World K T E B) FdRet
  accept_resume outcome f = do
    on_scheduler (remove_accept sys.epoll f.conn_fd)
    pure (accepted outcome)

  -- `inner_connect_awaiter`
  unfoldable pub connect_suspend : Frame → Action (World K T E B) ⊤
  connect_suspend f =
      on_scheduler (submit_connect sys.epoll f.conn_fd (writing f.conn_fd f.operation))

  unfoldable pub connect_resume : SockoptOutcome → Frame → Action (World K T E B) ErrorCode
  connect_resume outcome f = do
    on_scheduler (remove_connect sys.epoll f.conn_fd)
    pure (connect_error outcome)

  -- `async_connect_impl` after `try_connect`; `meanwhile` is what the rest of the program does while
  -- it is suspended.
  abbrev pub after_connect :
      ConnectStatus
      → ErrorCode
      → (World K T E B → World K T E B)
      → SockoptOutcome
      → Frame
      → Action (World K T E B) ErrorCode
  after_connect ConnectStatus.connected errno meanwhile outcome f = pure no_error
  after_connect ConnectStatus.error errno meanwhile outcome f = pure errno
  after_connect ConnectStatus.in_progress errno meanwhile outcome f =
      connect_suspend f >> (λ w. connect_resume outcome f (meanwhile w))

  unfoldable pub async_connect_impl :
      ConnectOutcome
      → (World K T E B → World K T E B)
      → SockoptOutcome
      → Frame
      → Action (World K T E B) ErrorCode
  async_connect_impl made meanwhile outcome f =
      after_connect (try_connect made) (errno_of made) meanwhile outcome f

  -- `connect_await::await_resume`, with whether it closed the descriptor.
  pub connect_result : ErrorCode → Frame → FdRet × Bool
  connect_result ec f =
      if is_error ec
      then (record { ec = ec; fd = none }, true)
      else (record { ec = no_error; fd = some f.conn_fd }, false)

  -- `timer_awaiter`
  unfoldable pub wait_suspend : ℕ → ℕ → Frame → Action (World K T E B) ⊤
  wait_suspend now delay f = do
    on_timer (set_timer sys.timerfd now (reading 0 f.timer_read) delay)
    register_current sys f.timer_fd

  unfoldable pub wait_resume : Frame → Action (World K T E B) ErrorCode
  wait_resume f = do
    consume_timer sys
    on_timer (increment sys.timerfd)
    refresh_timer_registration sys f.timer_fd
    pure no_error
