-- ===== src/Timer/Counter.antt =====
-- include/async_frame/timer.h: the ids that the calls of `TimerEvent` use up.
use async_io_framework.Prelude.{
  ℕ, ◌+◌, ◌<◌, ◌≡◌, ◌∙◌, refl, List, [], ◌∷◌, Option, none, some, arith, lookup, ltb, Bool-cases,
  Option-cases, inl, inr, ap,
}
use async_io_framework.Prelude.Words.{u64_mod, add64_exact}
use async_io_framework.Operations.{FdOps}
use async_io_framework.Timer.{
  increment, TimerTask, TimerFd, TimerEvent, activate_from, activate_next_timer,
  refresh_current_timer, is_cancelled, empty_task, cancel, schedule, set_timer, to_time_point,
}
use async_io_framework.Timer.Total.{set_timer-eq}

pub cancel-next :
    {T : Type 0} (read : Option ℕ) (t : TimerEvent T)
    → (cancel read t).next_timer_id ≡ t.next_timer_id
unfolding cancel
cancel-next none t = refl
cancel-next (some read) t = elim (Option-cases (lookup read t.active_timer_ids)) [
  | inl e ↦ rw (e, cancel) refl
  | inr (id, e) ↦ rw (e, cancel) refl
]

module _ {T : Type 0} (os : TimerFd T) where
  activate_from-next :
      (xs : List TimerTask) (t : TimerEvent T)
      → (activate_from os xs t).1.next_timer_id ≡ t.next_timer_id
  unfolding activate_from
  activate_from-next [] t = ground arith
  activate_from-next (x ∷ xs) t = elim (Bool-cases (is_cancelled x t.cancelled_timer_ids)) [
    | inl hit ↦ rw hit (activate_from-next xs _)
    | inr live ↦ rw live (ground arith)
  ]

  pub refresh-next :
      (t : TimerEvent T) → (refresh_current_timer os t).1.next_timer_id ≡ t.next_timer_id
  unfolding refresh_current_timer activate_next_timer
  refresh-next t = elim (Bool-cases (empty_task t.cur)) [
    | inl idle ↦ rw idle (activate_from-next t.waiting_queue _)
    | inr busy ↦ elim (Bool-cases (is_cancelled t.cur t.cancelled_timer_ids)) [
      | inl hit ↦ rw (busy, hit) (activate_from-next t.waiting_queue _)
      | inr live ↦ rw (busy, live)
    ]
  ]

  pub increment-next : (t : TimerEvent T) → (increment os t).1.next_timer_id ≡ t.next_timer_id
  unfolding increment activate_next_timer
  increment-next t = activate_from-next t.waiting_queue _

  schedule-next :
      (state : FdOps) (final_time : ℕ) (t : TimerEvent T)
      → t.next_timer_id + 1 < u64_mod
      → (schedule os state final_time t).1.next_timer_id ≡ t.next_timer_id + 1
  unfolding schedule
  schedule-next state final_time t room = elim (Bool-cases (empty_task t.cur)) [
    | inl idle ↦ rw (idle, add64_exact t.next_timer_id 1 room) (ground arith)
    | inr busy ↦ elim (Bool-cases (ltb final_time t.cur.time_point)) [
      | inl first ↦ rw (busy, first, add64_exact t.next_timer_id 1 room) (ground arith)
      | inr later ↦ rw (busy, later, add64_exact t.next_timer_id 1 room) refl
    ]
  ]

  -- `set_timer` uses one id.
  pub set_timer-next :
      (now : ℕ) (state : FdOps) (delay : ℕ) (t : TimerEvent T)
      → t.next_timer_id + 1 < u64_mod
      → (set_timer os now state delay t).1.next_timer_id ≡ t.next_timer_id + 1
  set_timer-next now state delay t room =
      let r = refresh-next t in
      rw (set_timer-eq os now state delay t) (
        schedule-next state (to_time_point now delay) (refresh_current_timer os t).1
          (omega (arith, r))
        ∙ ap (λ n. n + 1) r)
