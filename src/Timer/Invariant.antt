-- ===== src/Timer/Invariant.antt =====
-- include/async_frame/timer.h: the state of `TimerEvent` between its calls, and the loop of
-- `activate_next_timer`.
use async_io_framework.Prelude.{
  ℕ, ◌≤◌, ◌<◌, ◌≡◌, refl, true, false, List, [], ◌∷◌, Option, none, some, has, has-drop_id, drop_id,
  Map, ok, arith, ◌==◌, if◌then◌else◌, Option-cases, inl, inr, Bool-cases,
}
use async_io_framework.Timer.{
  TimerTask, Timespec, TimerFd, TimerEvent, to_timespec, is_zero, empty_task, is_cancelled, no_task,
  forget, activate_from, settime, update_timer,
}
use async_io_framework.Timer.Agenda.{IsAgenda, find_task, skip-IsAgenda}

abbrev pub scheduled : {T : Type 0} → TimerEvent T → List TimerTask
scheduled t = if empty_task t.cur then t.waiting_queue else t.cur ∷ t.waiting_queue

pub record WellFormed {T : Type 0} (t : TimerEvent T) : Type 0 where
  pub agenda : IsAgenda t.next_timer_id t.cancelled_timer_ids t.active_timer_ids (scheduled t)
  -- With no current task nothing waits either.
  pub idle : empty_task t.cur ≡ true → t.waiting_queue ≡ []
  pub counter : 0 < t.next_timer_id

-- The timerfd is set to the current deadline, and disarmed where there is none.
abbrev pub IsArmed : {T : Type 0} → TimerFd T → TimerEvent T → Type 0
IsArmed os t =
    os.programmed t.fd_ ≡ (if empty_task t.cur then none else some (to_timespec t.cur.time_point))

-- The tasks that will still fire, as a map from ids.
abbrev pub pending : {T : Type 0} → TimerEvent T → ℕ → Option TimerTask
pending t i = if has i t.cancelled_timer_ids then none else find_task i (scheduled t)

pub record Activated {T : Type 0} (os : TimerFd T) (cancelled : List ℕ) (xs : List TimerTask)
    (t : TimerEvent T) : Type 0 where
  pub valid : WellFormed t
  pub armed : IsArmed os t
  pub live : is_cancelled t.cur t.cancelled_timer_ids ≡ false
  pub same : (i : ℕ) → pending t i ≡ (if has i cancelled then none else find_task i xs)

is_zero-to_timespec : (tp : ℕ) → 0 < tp → is_zero (to_timespec tp) ≡ false
is_zero-to_timespec tp h = ground arith

pub positive-==_zero : (n : ℕ) → 1 ≤ n → (n == 0) ≡ false
positive-==_zero n h = ground arith

pub is_cancelled_positive :
    (x : TimerTask) (cancelled : List ℕ) → 0 < x.id → is_cancelled x cancelled ≡ has x.id cancelled
is_cancelled_positive x cancelled h = ground arith

module _ {T : Type 0} (os : TimerFd T) where
  pub settime-eq-ok :
      (v : Timespec) (t : TimerEvent T)
      → (settime os v t).0 ≡ ok tt
      → (fd : T) × (os.programmed fd ≡ (if is_zero v then none else some v))
        × ((settime os v t).1 ≡ record t { fd_ = fd })
  settime-eq-ok v t h = elim (Option-cases (os.settime t.fd_ v)) [
    | inl e ↦ absurd (ground arith)
    | inr (fd, e) ↦ (fd, os.settime-programmed t.fd_ v fd e, rw (e, settime))
  ]

  activate_from-skip :
      (x : TimerTask) (xs : List TimerTask) (t : TimerEvent T)
      → 0 < x.id
      → has x.id t.cancelled_timer_ids ≡ true
      → activate_from os (x ∷ xs) t
        ≡ activate_from os xs (record t {
          waiting_queue = xs;
          cancelled_timer_ids = drop_id x.id t.cancelled_timer_ids;
          active_timer_ids = forget x t.active_timer_ids;
        })
  unfolding activate_from
  activate_from-skip x xs t p h = rw (is_cancelled_positive x t.cancelled_timer_ids p, h)

  activate_from-live :
      (x : TimerTask) (xs : List TimerTask) (t : TimerEvent T)
      → 0 < x.id
      → has x.id t.cancelled_timer_ids ≡ false
      → activate_from os (x ∷ xs) t
        ≡ update_timer os x.time_point (record t { cur = x; waiting_queue = xs })
  unfolding activate_from
  activate_from-live x xs t p h = rw (is_cancelled_positive x t.cancelled_timer_ids p, h)

  Activated-skip :
      (n : ℕ) (cancelled : List ℕ) (active : Map ℕ) (x : TimerTask) (xs : List TimerTask)
      (t : TimerEvent T)
      → IsAgenda n cancelled active (x ∷ xs)
      → has x.id cancelled ≡ true
      → Activated os (drop_id x.id cancelled) xs t
      → Activated os cancelled (x ∷ xs) t
  Activated-skip n cancelled active x xs t a h v = record {
    valid = v.valid;
    armed = v.armed;
    live = v.live;
    same = λ i. ground (arith, v.same i, has-drop_id i x.id cancelled, a.distinct.0);
  }

  -- The state in which `x` is current and `xs` waits.
  pub running_state :
      (x : TimerTask) (xs : List TimerTask) (fd : T) (t : TimerEvent T)
      → IsAgenda t.next_timer_id t.cancelled_timer_ids t.active_timer_ids (x ∷ xs)
      → 0 < t.next_timer_id
      → os.programmed fd
        ≡ (if is_zero (to_timespec x.time_point) then none else some (to_timespec x.time_point))
      → let t' = record t { cur = x; waiting_queue = xs; fd_ = fd } in
        WellFormed t'
        × IsArmed os t'
        × ((i : ℕ)
            → pending t' i ≡ (if has i t.cancelled_timer_ids then none else find_task i (x ∷ xs)))
  running_state x xs fd t a p set = rw (positive-==_zero x.time_point a.ordered.0) (
    record {
      agenda = rw (positive-==_zero x.time_point a.ordered.0) a;
      idle = λ e. absurd (ground arith);
      counter = p;
    },
    rw (is_zero-to_timespec x.time_point a.ordered.0) at set,
    λ i. refl,
  )

  pub activate_from-Activated :
      (xs : List TimerTask) (t : TimerEvent T)
      → IsAgenda t.next_timer_id t.cancelled_timer_ids t.active_timer_ids xs
      → 0 < t.next_timer_id
      → (activate_from os xs t).0 ≡ ok tt
      → Activated os t.cancelled_timer_ids xs (activate_from os xs t).1
  unfolding activate_from
  activate_from-Activated [] t a p h =
      let (fd, set, after) = settime-eq-ok _ (record t { cur = no_task; waiting_queue = [] }) h in
      rw after (record {
        valid = record { agenda = a; idle = λ e. refl; counter = p };
        armed = set;
        live = refl;
        same = λ i. refl;
      })
  activate_from-Activated (x ∷ xs) t a p h = elim (Bool-cases (has x.id t.cancelled_timer_ids)) [
    | inl hit ↦ rw (activate_from-skip x xs t a.issued.0 hit) (
        Activated-skip t.next_timer_id t.cancelled_timer_ids t.active_timer_ids x xs _ a hit (
          activate_from-Activated xs
            (record t {
              waiting_queue = xs;
              cancelled_timer_ids = drop_id x.id t.cancelled_timer_ids;
              active_timer_ids = forget x t.active_timer_ids;
            })
            (skip-IsAgenda t.next_timer_id t.cancelled_timer_ids t.active_timer_ids x xs a hit) p
            (rw (activate_from-skip x xs t a.issued.0 hit) at h)))
    | inr live ↦
        let (fd, set, after) =
          settime-eq-ok (to_timespec x.time_point) (record t { cur = x; waiting_queue = xs })
            (rw (activate_from-live x xs t a.issued.0 live) at h) in
        rw (activate_from-live x xs t a.issued.0 live) (
          rw after (
            let r = running_state x xs fd t a p set in
            record {
              valid = r.0;
              armed = r.1;
              live = rw (is_cancelled_positive x t.cancelled_timer_ids a.issued.0) live;
              same = r.2;
            }))
  ]
