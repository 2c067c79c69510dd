-- ===== src/Timer/Setting.antt =====
-- include/async_frame/timer.h: the tasks after `set_timer`.
use async_io_framework.Prelude.{
  ℕ, ◌+◌, ◌≤◌, ◌<◌, ◌≡◌, refl, true, false, List, ◌∷◌, some, has, arith, ◌==◌, if◌then◌else◌, inl,
  inr, Bool-cases, ltb, Map,
}
use async_io_framework.Prelude.Words.{u64_mod, add64_exact}
use async_io_framework.Operations.{FdOps}
use async_io_framework.Timer.{
  TimerTask, TimerFd, TimerEvent, to_timespec, empty_task, remember, push, schedule, update_timer,
}
use async_io_framework.Timer.Agenda.{
  IsAgenda, find_task, Ordered, Distinct, Issued, add-IsAgenda, find-push, find-Issued,
  Ordered-push, Distinct-push, Issued-push, Issued-mono, Ordered-mono,
}
use async_io_framework.Timer.Invariant.{
  WellFormed, pending, scheduled, running_state, settime-eq-ok,
}
use async_io_framework.Timer.Contract.{Settled, IsAgenda-busy, pending_busy}
use async_io_framework.Timer.Total.{settime_total}

-- No tombstone is laid for an id that was not issued yet.
not_cancelled :
    (n : ℕ) (cancelled : List ℕ) (active : Map ℕ) (xs : List TimerTask)
    → IsAgenda n cancelled active xs
    → has n cancelled ≡ false
not_cancelled n cancelled active xs a = ground (arith, a.tombs n, find-Issued n n xs a.issued)

ltb→le : (a b : ℕ) → ltb a b ≡ true → a ≤ b
ltb→le a b h = ground arith

not_ltb→le : (a b : ℕ) → ltb a b ≡ false → b ≤ a
not_ltb→le a b h = ground arith

scheduled_idle :
    {T : Type 0} (t : TimerEvent T) → empty_task t.cur ≡ true → scheduled t ≡ t.waiting_queue
scheduled_idle t e = rw e

scheduled_busy :
    {T : Type 0} (t : TimerEvent T)
    → empty_task t.cur ≡ false
    → scheduled t ≡ t.cur ∷ t.waiting_queue
scheduled_busy t e = rw e

WellFormed-busy :
    {T : Type 0} (t : TimerEvent T)
    → empty_task t.cur ≡ false
    → IsAgenda t.next_timer_id t.cancelled_timer_ids t.active_timer_ids (t.cur ∷ t.waiting_queue)
    → 0 < t.next_timer_id
    → WellFormed t
WellFormed-busy t e a p = record {
  agenda = rw (scheduled_busy t e) a;
  idle = λ h. absurd (ground arith);
  counter = p;
}

module _ {T : Type 0} (os : TimerFd T) where
  -- What `set_timer` leaves: a settled state with one more pending task.
  pub record HasAdded (task : TimerTask) (t t' : TimerEvent T) : Type 0 where
    pub now_settled : Settled os t'
    pub added : (i : ℕ) → pending t' i ≡ (if task.id == i then some task else pending t i)

  -- The new task becomes current, and `ys` waits.
  place_current :
      (t : TimerEvent T) (task : TimerTask) (ys : List TimerTask)
      → IsAgenda t.next_timer_id t.cancelled_timer_ids t.active_timer_ids (scheduled t)
      → task.id ≡ t.next_timer_id
      → 0 < t.next_timer_id
      → Ordered 1 (task ∷ ys)
      → Distinct (task ∷ ys)
      → Issued (t.next_timer_id + 1) (task ∷ ys)
      → ((i : ℕ)
          → find_task i (task ∷ ys)
            ≡ (if task.id == i then some task else find_task i (scheduled t)))
      → HasAdded task t
          (update_timer os task.time_point (record t {
            next_timer_id = t.next_timer_id + 1;
            active_timer_ids = remember task t.active_timer_ids;
            cur = task;
            waiting_queue = ys;
          })).1
  place_current t task ys a e p o d s f =
      let t' : TimerEvent T = record t {
        next_timer_id = t.next_timer_id + 1;
        active_timer_ids = remember task t.active_timer_ids;
        cur = task;
        waiting_queue = ys;
      } in
      let (fd, set, after) =
        settime-eq-ok os (to_timespec task.time_point) t'
          (settime_total os (to_timespec task.time_point) t' (omega arith)) in
      let b =
        add-IsAgenda t.next_timer_id t.cancelled_timer_ids t.active_timer_ids task (scheduled t)
          (task ∷ ys) a e p o d s f in
      let r = running_state os task ys fd t' b (omega arith) set in
      let free =
        not_cancelled t.next_timer_id t.cancelled_timer_ids t.active_timer_ids (scheduled t) a in
      rw after (record {
        now_settled = record { valid = r.0; armed = r.1; live = ground (arith, free) };
        added = λ i. ground (arith, r.2 i, f i, free);
      })

  abbrev pub new_task : FdOps → ℕ → TimerEvent T → TimerTask
  new_task state final_time t = record {
    state_ = state;
    time_point = final_time;
    id = t.next_timer_id;
  }

  schedule_idle :
      (state : FdOps) (final_time : ℕ) (t : TimerEvent T)
      → Settled os t
      → 1 ≤ final_time
      → t.next_timer_id + 1 < u64_mod
      → empty_task t.cur ≡ true
      → HasAdded (new_task state final_time t) t (schedule os state final_time t).1
  unfolding schedule
  schedule_idle state final_time t s pos room idle =
      let task = new_task state final_time t in
      rw (idle, add64_exact t.next_timer_id 1 room)
        (place_current t task t.waiting_queue s.valid.agenda refl s.valid.counter
          (rw (s.valid.idle idle) (pos, tt)) (rw (s.valid.idle idle) (refl, tt))
          (rw (s.valid.idle idle) (s.valid.counter, omega arith, tt))
          (λ i. rw (scheduled_idle t idle)))

  schedule_first :
      (state : FdOps) (final_time : ℕ) (t : TimerEvent T)
      → Settled os t
      → 1 ≤ final_time
      → t.next_timer_id + 1 < u64_mod
      → empty_task t.cur ≡ false
      → ltb final_time t.cur.time_point ≡ true
      → HasAdded (new_task state final_time t) t (schedule os state final_time t).1
  unfolding schedule
  schedule_first state final_time t s pos room busy first =
      let task = new_task state final_time t in
      let b = IsAgenda-busy os t s.valid busy in
      let new =
        find-Issued t.next_timer_id t.next_timer_id (t.cur ∷ t.waiting_queue) b.issued
          (omega arith) in
      rw (busy, first, add64_exact t.next_timer_id 1 room)
        (place_current t task (push t.cur t.waiting_queue) s.valid.agenda refl s.valid.counter
          (
            pos,
            Ordered-push final_time t.cur t.waiting_queue
                (Ordered-mono t.cur.time_point final_time t.waiting_queue
                  (ltb→le final_time t.cur.time_point first) b.ordered.1)
                (ltb→le final_time t.cur.time_point first),
          )
          (
            ground (arith, find-push t.next_timer_id t.cur t.waiting_queue b.distinct.0, new),
            Distinct-push t.cur t.waiting_queue b.distinct.1 b.distinct.0,
          )
          (
            s.valid.counter,
            omega arith,
            Issued-push (t.next_timer_id + 1) t.cur t.waiting_queue
                (Issued-mono t.next_timer_id (t.next_timer_id + 1) t.waiting_queue (omega arith)
                  b.issued.2)
                b.issued.0 (omega arith),
          )
          (λ i.
            rw (scheduled_busy t busy)
              (ground (arith, find-push i t.cur t.waiting_queue b.distinct.0))))

  schedule_later :
      (state : FdOps) (final_time : ℕ) (t : TimerEvent T)
      → Settled os t
      → 1 ≤ final_time
      → t.next_timer_id + 1 < u64_mod
      → empty_task t.cur ≡ false
      → ltb final_time t.cur.time_point ≡ false
      → HasAdded (new_task state final_time t) t (schedule os state final_time t).1
  unfolding schedule
  schedule_later state final_time t s pos room busy later =
      let task = new_task state final_time t in
      let b = IsAgenda-busy os t s.valid busy in
      let new =
        find-Issued t.next_timer_id t.next_timer_id t.waiting_queue b.issued.2 (omega arith) in
      let free =
        not_cancelled t.next_timer_id t.cancelled_timer_ids t.active_timer_ids
          (t.cur ∷ t.waiting_queue) b in
      rw (busy, later, add64_exact t.next_timer_id 1 room)
        (let t' : TimerEvent T = record t {
          waiting_queue = push task t.waiting_queue;
          next_timer_id = t.next_timer_id + 1;
          active_timer_ids = remember task t.active_timer_ids;
        } in
          record {
            now_settled = record {
              valid =
                  WellFormed-busy t' busy
                    (add-IsAgenda t.next_timer_id t.cancelled_timer_ids t.active_timer_ids task
                      (t.cur ∷ t.waiting_queue) (t.cur ∷ push task t.waiting_queue) b refl
                      s.valid.counter
                      (
                        b.ordered.0,
                        Ordered-push t.cur.time_point task t.waiting_queue b.ordered.1
                            (not_ltb→le final_time t.cur.time_point later),
                      )
                      (
                        ground (
                          arith,
                          find-push t.cur.id task t.waiting_queue new,
                          b.distinct.0,
                          b.issued.1,
                        ),
                        Distinct-push task t.waiting_queue b.distinct.1 new,
                      )
                      (
                        b.issued.0,
                        omega arith,
                        Issued-push (t.next_timer_id + 1) task t.waiting_queue
                            (Issued-mono t.next_timer_id (t.next_timer_id + 1) t.waiting_queue
                              (omega arith) b.issued.2)
                            s.valid.counter (omega arith),
                      )
                      (λ i. ground (arith, find-push i task t.waiting_queue new, b.issued.1)))
                    (omega arith);
              armed = s.armed;
              live = s.live;
            };
            added = λ i. ground (
              arith,
              pending_busy os t' i busy,
              pending_busy os t i busy,
              find-push i task t.waiting_queue new,
              free,
              b.issued.1,
            );
          })

  pub schedule-HasAdded :
      (state : FdOps) (final_time : ℕ) (t : TimerEvent T)
      → Settled os t
      → 1 ≤ final_time
      → t.next_timer_id + 1 < u64_mod
      → HasAdded (new_task state final_time t) t (schedule os state final_time t).1
  schedule-HasAdded state final_time t s pos room = elim (Bool-cases (empty_task t.cur)) [
    | inl idle ↦ schedule_idle state final_time t s pos room idle
    | inr busy ↦ elim (Bool-cases (ltb final_time t.cur.time_point)) [
      | inl first ↦ schedule_first state final_time t s pos room busy first
      | inr later ↦ schedule_later state final_time t s pos room busy later
    ]
  ]
