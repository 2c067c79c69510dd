-- ===== src/Awaiters.antt =====
-- The awaiters of the asynchronous operations over one state of the program: the scheduler, the
-- timers, the shared state of a cancellation token and the buffer of the operation. This file has
-- that state, `cancel_slot` (include/async_frame/single_operator.h) and
-- `refresh_timer_registration` (include/async_frame/timer.h); each child has the awaiters of one
-- header.
pub mod Steps
pub mod Calls
pub mod Timers
pub mod Suspending
pub mod Arming
pub mod Resuming
pub mod Meanwhile
pub mod Recv
pub mod Send
pub mod Single
pub mod Program
use async_io_framework.Prelude.{
  ℕ, Bool, true, false, Option, none, some, Action, ok, ⊤, branch, on_member, ◌>>=◌, ◌>>◌, ◌&&◌,
  ◌==◌, modify, if◌then◌else◌,
}
use async_io_framework.Epoll.{Epoll}
use async_io_framework.Operations.{FdOps}
use async_io_framework.Scheduler.{
  Scheduler, submit_cancel, remove_cancel, submit_timer, remove_timer,
}
use async_io_framework.Timer.{
  consume_expirations, Timespec, cancel, is_current, count_of, TimerFd, TimerEvent, current_empty,
  refresh_current_timer,
}
use async_io_framework.CancelToken.{
  consume, EventFd, SharedState, CancelToken, is_requested, request_cancel,
}
use async_io_framework.Buffer.Cursor.{Cursor}

-- What lies outside the library, and the buffer type of the operation.
pub record System (K T E B : Type 0) : Type 0 where
  pub epoll : Epoll K
  pub timerfd : TimerFd T
  pub eventfd : EventFd E
  pub cursor : Cursor B

pub record World (K T E B : Type 0) : Type 0 where
  pub scheduler : Scheduler K
  pub timer : TimerEvent T
  pub token : SharedState E
  pub buf : B

-- An awaiter: the descriptors that it waits for, and the addresses of its operations `read_` or
-- `write_`, `timer_read_` and `cancel_.read`. `timer_fd` is the descriptor of the shared timerfd.
pub record Frame : Type 0 where
  pub conn_fd : ℕ
  pub timer_fd : ℕ
  pub operation : ℕ
  pub timer_read : ℕ
  pub cancel_read : ℕ
  pub cancel_token : CancelToken

-- `fd_ops` with a read operation, or with a write operation.
abbrev pub reading : ℕ → ℕ → FdOps
reading fd op = record { fd = fd; write = none; read = some op }

abbrev pub writing : ℕ → ℕ → FdOps
writing fd op = record { fd = fd; write = some op; read = none }

module _ {K T E B : Type 0} where
  abbrev pub on_scheduler : {A : Type 0} → Action (Scheduler K) A → Action (World K T E B) A
  on_scheduler = on_member (λ w. w.scheduler) (λ s w. record w { scheduler = s })

  abbrev pub on_timer : {A : Type 0} → Action (TimerEvent T) A → Action (World K T E B) A
  on_timer = on_member (λ w. w.timer) (λ t w. record w { timer = t })

module _ {K T E B : Type 0} (sys : System K T E B) where
  -- `cancel_token.cancel()` and `cancel_slot::is_cancel_event`
  abbrev pub is_cancelled : Frame → World K T E B → Bool
  is_cancelled f w = is_requested sys.eventfd f.cancel_token w.token

  abbrev pub submit_slot : CancelToken → ℕ → Action (World K T E B) ⊤
  submit_slot CancelToken.noop op w = (ok tt, w)
  submit_slot (CancelToken.event fd) op w =
      if w.token.cancelled
      then (ok tt, w)
      else on_scheduler (submit_cancel sys.epoll fd (reading fd op)) w

  -- `cancel_slot::submit`
  unfoldable pub cancel_submit : Frame → Action (World K T E B) ⊤
  cancel_submit f = submit_slot f.cancel_token f.cancel_read

  abbrev pub remove_slot : CancelToken → Action (World K T E B) ⊤
  remove_slot CancelToken.noop w = (ok tt, w)
  remove_slot (CancelToken.event fd) w = on_scheduler (remove_cancel sys.epoll fd) w

  -- `cancel_slot::remove`
  unfoldable pub cancel_remove : Frame → Action (World K T E B) ⊤
  cancel_remove f = remove_slot f.cancel_token

  -- Another thread may call `request_cancel` between two steps of an awaiter.
  abbrev pub other_thread : Bool → World K T E B → World K T E B
  other_thread requests w =
      if requests then record w { token = request_cancel sys.eventfd w.token } else w

  -- `s.submit_timer(instance.fd(), &instance.current().state_)`
  abbrev pub register_current : ℕ → Action (World K T E B) ⊤
  register_current timer_fd w = on_scheduler (submit_timer sys.epoll timer_fd w.timer.cur.state_) w

  unfoldable pub refresh_timer_registration : ℕ → Action (World K T E B) ⊤
  refresh_timer_registration timer_fd = do
    on_timer (refresh_current_timer sys.timerfd)
    branch (λ w. current_empty w.timer) (on_scheduler (remove_timer sys.epoll timer_fd))
        (register_current timer_fd)

  -- `cancel_.consume(base_.cancel_token)`
  abbrev pub consume_token : Frame → Action (World K T E B) ⊤
  consume_token f = modify λ w. record w { token = consume sys.eventfd f.cancel_token w.token }

  -- `timer.is_current(&timer_read_) && timer.get_timer().count() == 0`; `left` is what
  -- timerfd_gettime(2) writes.
  abbrev pub has_timed_out : Timespec → Frame → World K T E B → Bool
  has_timed_out left f w = is_current (some f.timer_read) w.timer && count_of left == 0

  -- `timer.consume()`
  abbrev pub consume_timer : Action (World K T E B) ⊤
  consume_timer = modify λ w. record w { timer = consume_expirations sys.timerfd w.timer }

  -- `timer.cancel(&timer_read_)`
  abbrev pub cancel_timer : Frame → Action (World K T E B) ⊤
  cancel_timer f = modify λ w. record w { timer = cancel (some f.timer_read) w.timer }
