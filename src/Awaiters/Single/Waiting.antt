-- ===== src/Awaiters/Single/Waiting.antt =====
-- include/async_frame/wait_for.h: the timers, and the timerfd's reader, around a wait.
use async_io_framework.Prelude.{
  true, ℕ, ◌+◌, ◌≤◌, ◌<◌, ◌≡◌, ◌∙◌, refl, ap, not, ◌&&◌, false, none, some, ◌>>◌, pure, arith, ◌==◌,
  if◌then◌else◌,
}
use async_io_framework.Prelude.Words.{u64_mod}
use async_io_framework.Epoll.{IsReliable}
use async_io_framework.Scheduler.Agreement.{Agrees}
use async_io_framework.Scheduler.Slots.{waiters}
use async_io_framework.Transfer.{no_error}
use async_io_framework.Timer.{
  consume_expirations, TimerEvent, refresh_current_timer, set_timer, increment, to_time_point,
  empty_task, current_empty,
}
use async_io_framework.Timer.Invariant.{pending}
use async_io_framework.Timer.Contract.{increment-Settled}
use async_io_framework.Timer.Setting.{new_task}
use async_io_framework.Timer.Total.{timer_total}
use async_io_framework.Timer.Counter.{refresh-next, increment-next}
use async_io_framework.Timer.History.{current_earliest}
use async_io_framework.Awaiters.{
  System, World, Frame, on_timer, reading, register_current, refresh_timer_registration,
}
use async_io_framework.Awaiters.Single.{wait_suspend, wait_resume}
use async_io_framework.Awaiters.Steps.{Ends, Ends-next, Ends-from, with_reader, bind-ok}
use async_io_framework.Awaiters.Timers.{
  if_fired-Kept, Sound-Kept, Kept, Sound, current_reader, set_timer-Sound, refresh-Sound,
  register-Moves, refresh_timer_registration-Ends,
}

module _ {K T E B : Type 0} (sys : System K T E B) (reliable : IsReliable sys.epoll) where
  abbrev pub set : ℕ → ℕ → Frame → TimerEvent T → TimerEvent T
  set now delay f t = (set_timer sys.timerfd now (reading 0 f.timer_read) delay t).1

  abbrev pub fired : TimerEvent T → TimerEvent T
  fired t =
      let t' = (increment sys.timerfd (consume_expirations sys.timerfd t)).1 in
      (refresh_current_timer sys.timerfd t').1

  -- A timer that fires uses no id.
  pub fired-next : (t : TimerEvent T) → (fired t).next_timer_id ≡ t.next_timer_id
  unfolding consume_expirations
  fired-next t =
      refresh-next sys.timerfd (increment sys.timerfd (consume_expirations sys.timerfd t)).1
      ∙ increment-next sys.timerfd (consume_expirations sys.timerfd t)

  -- The task that was set is pending, so some task is current, and it has an operation.
  set-busy :
      (now delay : ℕ) (f : Frame) (t : TimerEvent T)
      → Kept sys.timerfd t
      → 1 ≤ to_time_point now delay
      → t.next_timer_id + 1 < u64_mod
      → (current_empty (set now delay f t) ≡ false)
        × (pending (set now delay f t) (set now delay f t).cur.id ≡ some (set now delay f t).cur)
  set-busy now delay f t k pos room =
      let (s, added) = set_timer-Sound sys.timerfd now 0 f.timer_read delay t k pos room in
      let (busy, _, pends) =
        current_earliest sys.timerfd (set now delay f t) t.next_timer_id
          (new_task sys.timerfd (reading 0 f.timer_read) (to_time_point now delay) t) s.settled
          (ground (arith, added t.next_timer_id)) in
      (busy, pends)

  -- `wait_for` adds a timer for its operation with the deadline now + delay, and registers the
  -- operation of the earliest pending timer as the timerfd's reader; other slots, the token and the
  -- buffer stay, and table and epoll agree. The deadline is positive, the 64-bit id counter does not
  -- wrap, and every pending timer has an operation.
  pub wait_suspend-Sound :
      (now delay : ℕ) (f : Frame) (w : World K T E B)
      → Agrees sys.epoll w.scheduler
      → Kept sys.timerfd w.timer
      → 1 ≤ to_time_point now delay
      → w.timer.next_timer_id + 1 < u64_mod
      → let t = set now delay f w.timer in
        Ends sys
          (wait_suspend sys now delay f)
          w
          tt
          t
          w.token
          w.buf
          (with_reader f.timer_fd t.cur.state_.read (waiters w.scheduler))
        × Sound sys.timerfd t
        × ((i : ℕ)
            → pending t i ≡ (
                if w.timer.next_timer_id == i
                then some (
                    new_task sys.timerfd (reading 0 f.timer_read) (to_time_point now delay) w.timer)
                else pending w.timer i))
  unfolding wait_suspend
  wait_suspend-Sound now delay f w a k pos room =
      let (s, added) = set_timer-Sound sys.timerfd now 0 f.timer_read delay w.timer k pos room in
      let t = set now delay f w.timer in
      let w1 : World K T E B = record w { timer = t } in
      let sets = on_timer (set_timer sys.timerfd now (reading 0 f.timer_read) delay) in
      let total = (timer_total sys.timerfd now (reading 0 f.timer_read) delay w.timer).2 in
      let (busy, pends) = set-busy now delay f w.timer k pos room in
      (
        Ends-from sys (wait_suspend sys now delay f) w (register_current sys f.timer_fd) w1
            (bind-ok sets (λ _. register_current sys f.timer_fd) w tt w1 (ap (λ r. (r, w1)) total))
            (register-Moves sys reliable f.timer_fd w1 a (s.readers t.cur.id t.cur pends)),
        s,
        added,
      )

  -- When the timer fires, the current task is taken out of the pending ones and no other, the
  -- earliest of the others is current, and its operation, or nobody, is the timerfd's reader; other
  -- slots, the token and the buffer stay, table and epoll agree, and no error is returned.
  pub wait_resume-Sound :
      (f : Frame) (w : World K T E B)
      → Agrees sys.epoll w.scheduler
      → Sound sys.timerfd w.timer
      → let t = fired w.timer in
        Ends sys
          (wait_resume sys f)
          w
          no_error
          t
          w.token
          w.buf
          (with_reader f.timer_fd (current_reader t) (waiters w.scheduler))
        × Sound sys.timerfd t
        × ((i : ℕ)
            → pending t i ≡ (
                if not (empty_task w.timer.cur) && w.timer.cur.id == i
                then none
                else pending w.timer i))
  unfolding wait_resume consume_expirations
  wait_resume-Sound f w a s =
      let t0 = consume_expirations sys.timerfd w.timer in
      let t1 = (increment sys.timerfd t0).1 in
      let w1 : World K T E B = record w { timer = t1 } in
      let k0 = if_fired-Kept sys.timerfd true w.timer (Sound-Kept sys.timerfd w.timer s) in
      let (settled, taken) = increment-Settled sys.timerfd t0 k0.valid s.settled.live in
      let k1 : Kept sys.timerfd t1 = record {
        valid = settled.valid;
        armed = settled.armed;
        readers = λ i task h. ground (arith, taken i, s.readers i task);
      } in
      let (s2, same) = refresh-Sound sys.timerfd t1 k1 in
      let refreshes = refresh_timer_registration sys f.timer_fd in
      let total = (timer_total sys.timerfd 0 (reading 0 0) 0 t0).0 in
      (
        Ends-from sys (wait_resume sys f) w (refreshes >> pure no_error) w1
            (bind-ok (on_timer (increment sys.timerfd)) (λ _. refreshes >> pure no_error)
              (record w { timer = t0 }) tt w1 (ap (λ r. (r, w1)) total))
            (Ends-next sys refreshes (pure no_error) w1 tt no_error
              (refresh_timer_registration-Ends sys reliable f.timer_fd w1 a k1)
              (λ s3 a3 w3. record { after = s3; returns = refl; agrees = a3; waits = w3 })),
        s2,
        λ i. same i ∙ taken i,
      )
