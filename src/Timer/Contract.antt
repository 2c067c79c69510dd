-- ===== src/Timer/Contract.antt =====
-- include/async_frame/timer.h against its contract: a finite map from ids to tasks, of which the
-- earliest is current and armed.
use async_io_framework.Prelude.{
  ℕ, ◌<◌, ◌≡◌, refl, ◌∙◌, sym, not, ◌&&◌, drop_id, has-drop_id, true, false, List, ◌∷◌, none, has,
  ok, arith, ◌==◌, if◌then◌else◌, inl, inr, Bool-cases,
}
use async_io_framework.Timer.{
  TimerTask, TimerFd, TimerEvent, empty_task, is_cancelled, forget, activate_from,
  activate_next_timer, increment, refresh_current_timer,
}
use async_io_framework.Timer.Agenda.{
  IsAgenda, find_task, skip-IsAgenda, pop-IsAgenda, forget-IsAgenda,
}
use async_io_framework.Timer.Invariant.{
  WellFormed, IsArmed, pending, Activated, activate_from-Activated, is_cancelled_positive,
}
use async_io_framework.Timer.Total.{activate_from_total}

-- What a call leaves: a valid state, the timerfd in step, the current task live.
pub record Settled {T : Type 0} (os : TimerFd T) (t : TimerEvent T) : Type 0 where
  pub valid : WellFormed t
  pub armed : IsArmed os t
  pub live : is_cancelled t.cur t.cancelled_timer_ids ≡ false

module _ {T : Type 0} (os : TimerFd T) where
  -- Once the current task is out of the way, the queue settles the state.
  from_queue :
      (t : TimerEvent T) (cancelled : List ℕ)
      → IsAgenda t.next_timer_id cancelled (forget t.cur t.active_timer_ids) t.waiting_queue
      → 0 < t.next_timer_id
      → Activated os cancelled t.waiting_queue
          (activate_from os t.waiting_queue (record t {
            active_timer_ids = forget t.cur t.active_timer_ids;
            cancelled_timer_ids = cancelled;
          })).1
  from_queue t cancelled a p =
      let t' = record t {
        active_timer_ids = forget t.cur t.active_timer_ids;
        cancelled_timer_ids = cancelled;
      } in
      activate_from-Activated os t.waiting_queue t' a p (activate_from_total os t.waiting_queue t')

  pub IsAgenda-idle :
      (t : TimerEvent T)
      → WellFormed t
      → empty_task t.cur ≡ true
      → IsAgenda t.next_timer_id t.cancelled_timer_ids t.active_timer_ids t.waiting_queue
  IsAgenda-idle t v e = rw e at v.agenda

  pub IsAgenda-busy :
      (t : TimerEvent T)
      → WellFormed t
      → empty_task t.cur ≡ false
      → IsAgenda t.next_timer_id t.cancelled_timer_ids t.active_timer_ids (t.cur ∷ t.waiting_queue)
  IsAgenda-busy t v e = rw e at v.agenda

  pub pending_idle :
      (t : TimerEvent T) (i : ℕ)
      → empty_task t.cur ≡ true
      → pending t i ≡ (if has i t.cancelled_timer_ids then none else find_task i t.waiting_queue)
  pending_idle t i e = rw e

  pub pending_busy :
      (t : TimerEvent T) (i : ℕ)
      → empty_task t.cur ≡ false
      → pending t i
        ≡ (if has i t.cancelled_timer_ids then none else find_task i (t.cur ∷ t.waiting_queue))
  pending_busy t i e = rw e

  refresh_idle :
      (t : TimerEvent T)
      → empty_task t.cur ≡ true
      → refresh_current_timer os t
        ≡ activate_from os t.waiting_queue
            (record t { active_timer_ids = forget t.cur t.active_timer_ids })
  unfolding refresh_current_timer activate_next_timer
  refresh_idle t e = rw e

  refresh_hit :
      (t : TimerEvent T)
      → empty_task t.cur ≡ false
      → is_cancelled t.cur t.cancelled_timer_ids ≡ true
      → refresh_current_timer os t
        ≡ activate_from os t.waiting_queue (record t {
          active_timer_ids = forget t.cur t.active_timer_ids;
          cancelled_timer_ids = drop_id t.cur.id t.cancelled_timer_ids;
        })
  unfolding refresh_current_timer activate_next_timer
  refresh_hit t e h = rw (e, h)

  refresh_live :
      (t : TimerEvent T)
      → empty_task t.cur ≡ false
      → is_cancelled t.cur t.cancelled_timer_ids ≡ false
      → refresh_current_timer os t ≡ (ok tt, t)
  unfolding refresh_current_timer
  refresh_live t e h = rw (e, h)

  settled :
      (cancelled : List ℕ) (xs : List TimerTask) (t : TimerEvent T)
      → Activated os cancelled xs t
      → Settled os t
  settled cancelled xs t a = record { valid = a.valid; armed = a.armed; live = a.live }

  -- `refresh_current_timer` settles a valid state and keeps every pending task: a current task with
  -- a tombstone gives way to the earliest task without one.
  pub refresh-Settled :
      (t : TimerEvent T)
      → WellFormed t
      → IsArmed os t
      → let t' = (refresh_current_timer os t).1 in
        Settled os t' × ((i : ℕ) → pending t' i ≡ pending t i)
  refresh-Settled t v w = elim (Bool-cases (empty_task t.cur)) [
    | inl idle ↦
        let a =
          from_queue t t.cancelled_timer_ids
            (forget-IsAgenda t.next_timer_id t.cancelled_timer_ids t.active_timer_ids t.cur
              t.waiting_queue (IsAgenda-idle t v idle))
            v.counter in
        rw (refresh_idle t idle) (settled _ _ _ a, λ i. a.same i ∙ sym (pending_idle t i idle))
    | inr busy ↦ elim (Bool-cases (is_cancelled t.cur t.cancelled_timer_ids)) [
      | inl hit ↦
          let b = IsAgenda-busy t v busy in
          let h = rw (is_cancelled_positive t.cur t.cancelled_timer_ids b.issued.0) at hit in
          let a =
            from_queue t (drop_id t.cur.id t.cancelled_timer_ids)
              (skip-IsAgenda t.next_timer_id t.cancelled_timer_ids t.active_timer_ids t.cur
                t.waiting_queue b h)
              v.counter in
          rw (refresh_hit t busy hit) (
            settled _ _ _ a,
            λ i. ground (
              arith,
              a.same i,
              pending_busy t i busy,
              has-drop_id i t.cur.id t.cancelled_timer_ids,
              b.distinct.0,
              h,
            ),
          )
      | inr live ↦
          rw (refresh_live t busy live) (record { valid = v; armed = w; live = live }, λ i. refl)
    ]
  ]

  -- `operator++` on a current task without a tombstone settles the state and takes that task, and
  -- no other, out of the pending ones.
  pub increment-Settled :
      (t : TimerEvent T)
      → WellFormed t
      → is_cancelled t.cur t.cancelled_timer_ids ≡ false
      → let t' = (increment os t).1 in
        Settled os t'
        × ((i : ℕ)
            → pending t' i
              ≡ (if not (empty_task t.cur) && t.cur.id == i then none else pending t i))
  unfolding increment activate_next_timer
  increment-Settled t v live = elim (Bool-cases (empty_task t.cur)) [
    | inl idle ↦
        let a =
          from_queue t t.cancelled_timer_ids
            (forget-IsAgenda t.next_timer_id t.cancelled_timer_ids t.active_timer_ids t.cur
              t.waiting_queue (IsAgenda-idle t v idle))
            v.counter in
        (settled _ _ _ a, λ i. ground (arith, a.same i, pending_idle t i idle, idle))
    | inr busy ↦
        let b = IsAgenda-busy t v busy in
        let h = rw (is_cancelled_positive t.cur t.cancelled_timer_ids b.issued.0) at live in
        let a =
          from_queue t t.cancelled_timer_ids
            (pop-IsAgenda t.next_timer_id t.cancelled_timer_ids t.active_timer_ids t.cur
              t.waiting_queue b h)
            v.counter in
        (settled _ _ _ a, λ i. ground (arith, a.same i, pending_busy t i busy, b.distinct.0, busy))
  ]
