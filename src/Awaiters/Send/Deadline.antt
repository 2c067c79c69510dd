-- ===== src/Awaiters/Send/Deadline.antt =====
-- include/async_frame/async_write.h: what `inner_send_timeout_awaiter` registers with the scheduler
-- and the timers when it suspends.
use async_io_framework.Prelude.{ℕ, ◌+◌, ◌≤◌, ◌<◌, ◌≡◌, true, false, some, ◌==◌, if◌then◌else◌}
use async_io_framework.Prelude.Words.{u64_mod}
use async_io_framework.Epoll.{IsReliable}
use async_io_framework.Scheduler.{submit_write}
use async_io_framework.Scheduler.Agreement.{Agrees}
use async_io_framework.Scheduler.Slots.{waiters}
use async_io_framework.Timer.{to_time_point}
use async_io_framework.Timer.Invariant.{pending}
use async_io_framework.Timer.Setting.{new_task}
use async_io_framework.Awaiters.{System, World, Frame, on_scheduler, is_cancelled, reading, writing}
use async_io_framework.Awaiters.Send.{send_timeout_register, send_timeout_suspend}
use async_io_framework.Awaiters.Steps.{Ends, with_reader, with_writer, with_token}
use async_io_framework.Awaiters.Calls.{submit_write-Moves}
use async_io_framework.Awaiters.Timers.{started, Kept, Sound, current_reader}
use async_io_framework.Awaiters.Arming.{suspend-Sound}

module _ {K T E B : Type 0} (sys : System K T E B) (reliable : IsReliable sys.epoll) where
  -- While no cancellation is requested, suspending registers the operation as the connection's
  -- writer and the slot's operation as the token's, and adds a timer with the deadline now + delay
  -- to the pending ones; the earliest pending timer is current and its operation is the timerfd's
  -- reader. Every other slot, the token and the buffer stay, and table and epoll agree. The deadline
  -- is positive, the 64-bit id counter does not wrap, and every pending timer has an operation.
  pub send_timeout_suspend-Sound :
      (now delay : ℕ) (f : Frame) (w : World K T E B)
      → Agrees sys.epoll w.scheduler
      → Kept sys.timerfd w.timer
      → is_cancelled sys f w ≡ false
      → 1 ≤ to_time_point now delay
      → w.timer.next_timer_id + 1 < u64_mod
      → let t = started sys.timerfd now delay f w.timer in
        Ends sys (send_timeout_suspend sys false now delay f) w true t w.token w.buf (
          with_token f.cancel_token (some f.cancel_read) (
            with_reader f.timer_fd
              (current_reader t)
              (with_writer f.conn_fd (some f.operation) (waiters w.scheduler))))
        × Sound sys.timerfd t
        × ((i : ℕ)
            → pending t i ≡ (
                if w.timer.next_timer_id == i
                then some (
                    new_task sys.timerfd
                      (reading f.timer_fd f.timer_read)
                      (to_time_point now delay)
                      w.timer)
                else pending w.timer i))
  unfolding send_timeout_suspend send_timeout_register
  send_timeout_suspend-Sound now delay f w a =
      suspend-Sound sys reliable f
        (on_scheduler (submit_write sys.epoll f.conn_fd (writing f.conn_fd f.operation)))
        (with_writer f.conn_fd (some f.operation) (waiters w.scheduler)) now delay w
        (submit_write-Moves sys reliable f.conn_fd f.conn_fd f.operation w a)
