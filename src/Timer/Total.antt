-- ===== src/Timer/Total.antt =====
-- include/async_frame/timer.h: `timespec`s, and when the calls of `TimerEvent` return.
use async_io_framework.Prelude.{
  ℕ, ◌<◌, ◌≡◌, List, [], ◌∷◌, ok, arith, Bool-cases, inl, inr, >>-eq-ok, ltb,
}
use async_io_framework.Operations.{FdOps}
use async_io_framework.Timer.{
  TimerTask, Timespec, TimerFd, TimerEvent, nano, to_timespec, count_of, activate_from,
  activate_next_timer, increment, refresh_current_timer, schedule, set_timer, settime,
  to_time_point, is_cancelled, empty_task,
}

-- For every time point, `to_timespec` gives a nanosecond part below a second, and `get_timer`'s
-- arithmetic gives the time point back.
pub count_of-to_timespec :
    (time : ℕ) → (count_of (to_timespec time) ≡ time) × ((to_timespec time).tv_nsec < nano)
count_of-to_timespec time = omega arith

module _ {T : Type 0} (os : TimerFd T) where
  pub settime_total :
      (v : Timespec) (t : TimerEvent T) → v.tv_nsec < nano → (settime os v t).0 ≡ ok tt
  settime_total v t h = ground (arith, os.settime_valid t.fd_ v h)

  pub activate_from_total :
      (xs : List TimerTask) (t : TimerEvent T) → (activate_from os xs t).0 ≡ ok tt
  unfolding activate_from
  activate_from_total [] t = settime_total _ _ (omega arith)
  activate_from_total (x ∷ xs) t = elim (Bool-cases (is_cancelled x t.cancelled_timer_ids)) [
    | inl hit ↦ rw hit (activate_from_total xs _)
    | inr live ↦ rw live (settime_total (to_timespec x.time_point) _ (omega arith))
  ]

  pub increment_total : (t : TimerEvent T) → (increment os t).0 ≡ ok tt
  unfolding increment activate_next_timer
  increment_total t = activate_from_total t.waiting_queue _

  pub refresh_current_timer_total : (t : TimerEvent T) → (refresh_current_timer os t).0 ≡ ok tt
  unfolding refresh_current_timer activate_next_timer
  refresh_current_timer_total t = elim (Bool-cases (empty_task t.cur)) [
    | inl idle ↦ rw idle (activate_from_total t.waiting_queue _)
    | inr busy ↦ elim (Bool-cases (is_cancelled t.cur t.cancelled_timer_ids)) [
      | inl hit ↦ rw (busy, hit) (activate_from_total t.waiting_queue _)
      | inr live ↦ rw (busy, live)
    ]
  ]

  pub schedule_total :
      (state : FdOps) (final_time : ℕ) (t : TimerEvent T)
      → (schedule os state final_time t).0 ≡ ok tt
  unfolding schedule
  schedule_total state final_time t = elim (Bool-cases (empty_task t.cur)) [
    | inl idle ↦ rw idle (settime_total (to_timespec final_time) _ (omega arith))
    | inr busy ↦ elim (Bool-cases (ltb final_time t.cur.time_point)) [
      | inl first ↦ rw (busy, first) (settime_total (to_timespec final_time) _ (omega arith))
      | inr later ↦ rw (busy, later)
    ]
  ]

  pub set_timer-eq :
      (now : ℕ) (state : FdOps) (delay : ℕ) (t : TimerEvent T)
      → set_timer os now state delay t
        ≡ schedule os state (to_time_point now delay) (refresh_current_timer os t).1
  unfolding set_timer
  set_timer-eq now state delay t =
      >>-eq-ok (refresh_current_timer os) (schedule os state (to_time_point now delay)) t tt
        (refresh_current_timer_total t)

  -- Whatever the state, the clock and the delay, advancing, refreshing and setting a timer return:
  -- no call throws, however many cancelled timers are skipped.
  pub timer_total :
      (now : ℕ) (state : FdOps) (delay : ℕ) (t : TimerEvent T)
      → ((increment os t).0 ≡ ok tt)
        × ((refresh_current_timer os t).0 ≡ ok tt)
        × ((set_timer os now state delay t).0 ≡ ok tt)
  timer_total now state delay t = (
    increment_total t,
    refresh_current_timer_total t,
    rw (set_timer-eq now state delay t)
        (schedule_total state (to_time_point now delay) (refresh_current_timer os t).1),
  )
