-- ===== src/Awaiters/Timers/Pending.antt =====
-- include/async_frame/timer.h: the pending timers around the calls of `TimerEvent` in an awaiter.
use async_io_framework.Timer.Counter.{cancel-next, refresh-next}
use async_io_framework.Prelude.{
  Bool, ◌∙◌, ℕ, ◌+◌, ◌<◌, ◌≤◌, ◌≡◌, true, false, Option, none, some, is_some, arith, ◌==◌,
  if◌then◌else◌,
}
use async_io_framework.Prelude.Words.{u64_mod}
use async_io_framework.Timer.{
  consume_expirations, TimerFd, TimerEvent, TimerTask, current_empty, refresh_current_timer, cancel,
  set_timer, to_time_point,
}
use async_io_framework.Timer.Invariant.{WellFormed, IsArmed, pending}
use async_io_framework.Timer.Contract.{Settled, refresh-Settled, IsAgenda-busy, pending_busy}
use async_io_framework.Timer.Setting.{new_task}
use async_io_framework.Timer.History.{id_of, is_id, cancel-pending, set_timer-pending}
use async_io_framework.Awaiters.{Frame, reading}

-- The operation of the current timer.
abbrev pub current_reader : {T : Type 0} → TimerEvent T → Option ℕ
current_reader t = if current_empty t then none else t.cur.state_.read

-- A valid state, with the timerfd in step, in which every pending timer has an operation to
-- complete.
pub record Kept {T : Type 0} (os : TimerFd T) (t : TimerEvent T) : Type 0 where
  pub valid : WellFormed t
  pub armed : IsArmed os t
  pub readers :
      (i : ℕ) (task : TimerTask) → pending t i ≡ some task → is_some task.state_.read ≡ true

-- The same with a current task that is live, as `refresh_current_timer` leaves it.
pub record Sound {T : Type 0} (os : TimerFd T) (t : TimerEvent T) : Type 0 where
  pub settled : Settled os t
  pub readers :
      (i : ℕ) (task : TimerTask) → pending t i ≡ some task → is_some task.state_.read ≡ true

module _ {T : Type 0} (os : TimerFd T) where
  pub Sound-Kept : (t : TimerEvent T) → Sound os t → Kept os t
  Sound-Kept t s = record { valid = s.settled.valid; armed = s.settled.armed; readers = s.readers }

  pub refresh-Sound :
      (t : TimerEvent T)
      → Kept os t
      → let t' = (refresh_current_timer os t).1 in
        Sound os t' × ((i : ℕ) → pending t' i ≡ pending t i)
  refresh-Sound t s =
      let (settled, same) = refresh-Settled os t s.valid s.armed in
      (
        record {
          settled = settled;
          readers = λ i task h. ground (arith, same i, s.readers i task);
        },
        same,
      )

  pub cancel-Kept :
      (read : Option ℕ) (t : TimerEvent T)
      → Kept os t
      → Kept os (cancel read t)
        × ((i : ℕ)
            → pending (cancel read t) i ≡ (if is_id (id_of read t) i then none else pending t i))
  cancel-Kept read t s =
      let (v, taken, cur, fd) = cancel-pending os read t s.valid in
      (
        record {
          valid = v;
          armed = rw (fd, cur) s.armed;
          readers = λ i task h. ground (arith, taken i, s.readers i task);
        },
        taken,
      )

  pub set_timer-Sound :
      (now fd op delay : ℕ) (t : TimerEvent T)
      → Kept os t
      → 1 ≤ to_time_point now delay
      → t.next_timer_id + 1 < u64_mod
      → let t' = (set_timer os now (reading fd op) delay t).1 in
        Sound os t'
        × ((i : ℕ)
            → pending t' i ≡ (
                if t.next_timer_id == i
                then some (new_task os (reading fd op) (to_time_point now delay) t)
                else pending t i))
  set_timer-Sound now fd op delay t s pos room =
      let (settled, added) =
        set_timer-pending os now (reading fd op) delay t s.valid s.armed pos room in
      (
        record {
          settled = settled;
          readers = λ i task h. ground (arith, added i, s.readers i task);
        },
        added,
      )

  consume-Kept : (t : TimerEvent T) → Kept os t → Kept os (consume_expirations os t)
  unfolding consume_expirations
  consume-Kept t k = record {
    valid = record { agenda = k.valid.agenda; idle = k.valid.idle; counter = k.valid.counter };
    armed = os.read_expirations-programmed t.fd_ ∙ k.armed;
    readers = k.readers;
  }

  -- `await_resume` consumes the expiration if the timer has fired.
  abbrev pub if_fired : Bool → TimerEvent T → TimerEvent T
  if_fired b t = if b then consume_expirations os t else t

  pub if_fired-Kept : (b : Bool) (t : TimerEvent T) → Kept os t → Kept os (if_fired b t)
  if_fired-Kept true t k = consume-Kept t k
  if_fired-Kept false t k = k

  pub current_pending :
      (t : TimerEvent T) → Sound os t → current_empty t ≡ false → pending t t.cur.id ≡ some t.cur
  current_pending t s busy =
      let b = IsAgenda-busy os t s.settled.valid busy in
      ground (arith, pending_busy os t t.cur.id busy, s.settled.live, b.issued.0)

module _ {T : Type 0} (os : TimerFd T) where
  -- The timers after an operation with a timeout has ended, with an expiration or without.
  abbrev pub ended : Frame → Bool → TimerEvent T → TimerEvent T
  ended f b t = (refresh_current_timer os (cancel (some f.timer_read) (if_fired os b t))).1

  -- The operation's own timer is pending no more, and the others are.
  pub ended-Sound :
      (f : Frame) (b : Bool) (t : TimerEvent T)
      → Kept os t
      → Sound os (ended f b t)
        × ((i : ℕ)
            → pending (ended f b t) i
              ≡ (if is_id (id_of (some f.timer_read) t) i then none else pending t i))
  unfolding consume_expirations
  ended-Sound f true t k =
      let (k', taken) =
        cancel-Kept os (some f.timer_read) (consume_expirations os t) (if_fired-Kept os true t k) in
      let (s, same) = refresh-Sound os (cancel (some f.timer_read) (consume_expirations os t)) k' in
      (s, λ i. same i ∙ taken i)
  ended-Sound f false t k =
      let (k', taken) = cancel-Kept os (some f.timer_read) t k in
      let (s, same) = refresh-Sound os (cancel (some f.timer_read) t) k' in
      (s, λ i. same i ∙ taken i)

  -- It uses no id.
  pub ended-next :
      (f : Frame) (b : Bool) (t : TimerEvent T) → (ended f b t).next_timer_id ≡ t.next_timer_id
  unfolding consume_expirations
  ended-next f true t =
      refresh-next os (cancel (some f.timer_read) (consume_expirations os t))
      ∙ cancel-next (some f.timer_read) (consume_expirations os t)
  ended-next f false t =
      refresh-next os (cancel (some f.timer_read) t) ∙ cancel-next (some f.timer_read) t

  -- The timers after an operation with a timeout has been submitted.
  abbrev pub started : ℕ → ℕ → Frame → TimerEvent T → TimerEvent T
  started now delay f t =
      (refresh_current_timer os (set_timer os now (reading f.timer_fd f.timer_read) delay t).1).1
