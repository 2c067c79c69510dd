-- ===== src/Awaiters/Timers.antt =====
-- include/async_frame/timer.h: `refresh_timer_registration` and the calls of `TimerEvent` in an awaiter:
-- the timers and the reader of the timerfd.
mod Pending
pub use async_io_framework.Awaiters.Timers.Pending.{
  current_reader, Kept, Sound, Sound-Kept, refresh-Sound, cancel-Kept, set_timer-Sound, if_fired,
  if_fired-Kept, ended, ended-Sound, ended-next, started,
}
use async_io_framework.Awaiters.Timers.Pending.{current_pending}
use async_io_framework.Prelude.{
  Bool, not, ◌&&◌, ℕ, ◌≡◌, refl, ap, true, is_some, branch, arith, Bool-cases, inl, inr,
}
use async_io_framework.Events.{RegisterType, to_underlying}
use async_io_framework.Epoll.{IsReliable}
use async_io_framework.Scheduler.{remove_timer}
use async_io_framework.Scheduler.Agreement.{Agrees}
use async_io_framework.Scheduler.Slots.{waiters}
use async_io_framework.Timer.{Timespec, TimerEvent, current_empty, refresh_current_timer}
use async_io_framework.Timer.Total.{refresh_current_timer_total}
use async_io_framework.Awaiters.{
  is_cancelled, has_timed_out, Frame, System, World, on_scheduler, on_timer, register_current,
  refresh_timer_registration,
}
use async_io_framework.Awaiters.Steps.{
  Ends, Ends-from, Ends-branch-true, Ends-branch-false, Ends-as, with_reader, bind-ok,
}
use async_io_framework.Awaiters.Calls.{submit-Moves, remove-Moves}

module _ {K T E B : Type 0} (sys : System K T E B) where
  -- `await_resume` reads the timerfd if no cancellation comes before the timeout.
  abbrev pub has_fired : Timespec → Frame → World K T E B → Bool
  has_fired left f w = not (is_cancelled sys f w) && has_timed_out sys left f w

module _ {K T E B : Type 0} (sys : System K T E B) (reliable : IsReliable sys.epoll) where
  pub register-Moves :
      (timer_fd : ℕ) (w : World K T E B)
      → Agrees sys.epoll w.scheduler
      → is_some w.timer.cur.state_.read ≡ true
      → Ends sys
          (register_current sys timer_fd)
          w
          tt
          w.timer
          w.token
          w.buf
          (with_reader timer_fd w.timer.cur.state_.read (waiters w.scheduler))
  register-Moves timer_fd w a some_reader =
      let e =
        submit-Moves sys reliable timer_fd w.timer.cur.state_
          (to_underlying RegisterType.event_timer) w a
          (record {
            some_event = refl;
            read_op = λ h. some_reader;
            write_op = λ h. ground arith;
          }) in
      record { after = e.after; returns = e.returns; agrees = e.agrees; waits = e.waits }

  -- `refresh_timer_registration` returns, refreshes the queue, and makes the operation of the
  -- current timer, or nobody, the reader of the timerfd; other slots stay.
  pub refresh_timer_registration-Ends :
      (timer_fd : ℕ) (w : World K T E B)
      → Agrees sys.epoll w.scheduler
      → Kept sys.timerfd w.timer
      → let t = (refresh_current_timer sys.timerfd w.timer).1 in
        Ends sys
          (refresh_timer_registration sys timer_fd)
          w
          tt
          t
          w.token
          w.buf
          (with_reader timer_fd (current_reader t) (waiters w.scheduler))
  unfolding refresh_timer_registration
  refresh_timer_registration-Ends timer_fd w a s =
      let t : TimerEvent T = (refresh_current_timer sys.timerfd w.timer).1 in
      let w1 : World K T E B = record w { timer = t } in
      let test = λ (v : World K T E B). current_empty v.timer in
      let unregister = on_scheduler (remove_timer sys.epoll timer_fd) in
      let registers = branch test unregister (register_current sys timer_fd) in
      let sound = (refresh-Sound sys.timerfd w.timer s).0 in
      Ends-from sys (refresh_timer_registration sys timer_fd) w registers w1
        (bind-ok (on_timer (refresh_current_timer sys.timerfd)) (λ _. registers) w tt w1
          (ap (λ r. (r, w1)) (refresh_current_timer_total sys.timerfd w.timer)))
        (elim (Bool-cases (current_empty t)) [
          | inl idle ↦
              Ends-as sys
                (Ends-branch-true sys test unregister (register_current sys timer_fd) w1 tt idle (
                  remove-Moves sys reliable timer_fd (to_underlying RegisterType.event_timer) w1 a))
                (λ j. rw idle refl)
          | inr busy ↦
              Ends-as sys
                (Ends-branch-false sys test unregister (register_current sys timer_fd) w1 tt busy (
                  register-Moves timer_fd w1 a
                    (sound.readers t.cur.id t.cur (current_pending sys.timerfd t sound busy))))
                (λ j. rw busy refl)
        ])
