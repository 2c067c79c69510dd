-- ===== src/Timer/History.antt =====
-- include/async_frame/timer.h: the contract of `TimerEvent` over whole histories of its calls, in the
-- orders in which the awaiters make them (include/async_frame/wait_for.h,
-- include/async_frame/async_read.h, include/async_frame/async_write.h).
use async_io_framework.Prelude.{
  ℕ, ◌+◌, ◌≤◌, ◌<◌, ◌≡◌, refl, ◌∙◌, ap, Bool, false, List, [], ◌∷◌, Option, none, some, has,
  has-put, lookup, arith, ◌==◌, if◌then◌else◌, Option-cases, inl, inr, Bool-cases,
}
use async_io_framework.Prelude.Words.{u64_mod}
use async_io_framework.Operations.{FdOps}
use async_io_framework.Timer.{
  TimerTask, TimerFd, TimerEvent, empty_task, no_task, refresh_current_timer, increment, set_timer,
  cancel, to_time_point,
}
use async_io_framework.Timer.Agenda.{find_task, Ordered, cancel-IsAgenda}
use async_io_framework.Timer.Invariant.{WellFormed, IsArmed, pending, scheduled}
use async_io_framework.Timer.Contract.{
  Settled, refresh-Settled, increment-Settled, IsAgenda-busy, pending_idle, pending_busy,
}
use async_io_framework.Timer.Setting.{new_task, schedule-HasAdded}
use async_io_framework.Timer.Counter.{refresh-next}
use async_io_framework.Timer.Total.{set_timer-eq}

-- The id that `active_timer_ids` gives an operation, if any.
abbrev pub id_of : Option ℕ → {T : Type 0} → TimerEvent T → Option ℕ
id_of none t = none
id_of (some read) t = lookup read t.active_timer_ids

abbrev pub is_id : Option ℕ → ℕ → Bool
is_id none i = false
is_id (some j) i = j == i

Ordered-find :
    (b i : ℕ) (xs : List TimerTask) (task : TimerTask)
    → Ordered b xs
    → find_task i xs ≡ some task
    → b ≤ task.time_point
Ordered-find b i [] task o h = absurd (ground arith)
Ordered-find b i (x ∷ xs) task o h = ground (arith, Ordered-find x.time_point i xs task o.1)

same_task :
    (state : FdOps) (final_time i : ℕ) {n m : ℕ} {p q : Option TimerTask}
    → n ≡ m
    → p ≡ q
    → (if n == i then some (record { state_ = state; time_point = final_time; id = n }) else p)
      ≡ (if m == i then some (record { state_ = state; time_point = final_time; id = m }) else q)
same_task state final_time i e h = cc

module _ {T : Type 0} (os : TimerFd T) where
  -- A pending task is never due before the current one, which is itself pending.
  pub current_earliest :
      (t : TimerEvent T) (i : ℕ) (task : TimerTask)
      → Settled os t
      → pending t i ≡ some task
      → (empty_task t.cur ≡ false)
        × (t.cur.time_point ≤ task.time_point)
        × (pending t t.cur.id ≡ some t.cur)
  current_earliest t i task s h = elim (Bool-cases (empty_task t.cur)) [
    | inl idle ↦
        absurd (ground (arith, pending_idle os t i idle, ap (find_task i) (s.valid.idle idle)))
    | inr busy ↦
        let b = IsAgenda-busy os t s.valid busy in
        (
          busy,
          ground (
            arith,
            pending_busy os t i busy,
            Ordered-find t.cur.time_point i t.waiting_queue task b.ordered.1,
          ),
          ground (arith, pending_busy os t t.cur.id busy, s.live, b.issued.0),
        )
  ]

  -- For a valid state, `cancel` takes the operation's task out of the pending ones, leaves the
  -- others, the current task and the timerfd, and keeps the state valid; an operation that waits
  -- for no task changes nothing.
  pub cancel-pending :
      (read : Option ℕ) (t : TimerEvent T)
      → WellFormed t
      → let t' = cancel read t in
        WellFormed t'
        × ((i : ℕ) → pending t' i ≡ (if is_id (id_of read t) i then none else pending t i))
        × (t'.cur ≡ t.cur)
        × (t'.fd_ ≡ t.fd_)
  unfolding cancel
  cancel-pending none t v = (v, λ i. refl, refl, refl)
  cancel-pending (some read) t v = elim (Option-cases (lookup read t.active_timer_ids)) [
    | inl e ↦ rw (e, cancel) (v, λ i. refl, refl, refl)
    | inr (id, e) ↦
        rw (e, cancel)
          (
            record {
              agenda =
                  cancel-IsAgenda t.next_timer_id t.cancelled_timer_ids t.active_timer_ids
                    (scheduled t) read id v.agenda e;
              idle = v.idle;
              counter = v.counter;
            },
            λ i. ground (arith, has-put i id t.cancelled_timer_ids),
            refl,
            refl,
          )
  ]

  -- From a valid state with the timerfd in step, `set_timer` adds one pending task, under the next
  -- id and with the deadline now + delay, keeps the others, and leaves the earliest pending task
  -- current and armed. The deadline is positive and the 64-bit id counter does not wrap.
  pub set_timer-pending :
      (now : ℕ) (state : FdOps) (delay : ℕ) (t : TimerEvent T)
      → WellFormed t
      → IsArmed os t
      → 1 ≤ to_time_point now delay
      → t.next_timer_id + 1 < u64_mod
      → let t' = (set_timer os now state delay t).1 in
        Settled os t'
        × ((i : ℕ)
            → pending t' i ≡ (
                if t.next_timer_id == i
                then some (new_task os state (to_time_point now delay) t)
                else pending t i))
  set_timer-pending now state delay t v w pos room =
      let t1 = (refresh_current_timer os t).1 in
      let (s, same) = refresh-Settled os t v w in
      let next = refresh-next os t in
      let a = schedule-HasAdded os state (to_time_point now delay) t1 s pos (rw next room) in
      rw (set_timer-eq os now state delay t)
        (a.now_settled, λ i. a.added i ∙ same_task state (to_time_point now delay) i next (same i))

  -- The calls that the library makes, one after another. `fires` is `wait_for` coming back: the
  -- current task is taken and the next one registered. `cancels` is an operation with a timeout that
  -- ends, whatever ended it.
  pub data Step (t : TimerEvent T) : TimerEvent T → Type 0 where
    sets :
        (now : ℕ) (state : FdOps) (delay : ℕ)
        → 1 ≤ to_time_point now delay
        → t.next_timer_id + 1 < u64_mod
        → Step t (set_timer os now state delay t).1
    refreshes : Step t (refresh_current_timer os t).1
    cancels : (read : Option ℕ) → Step t (refresh_current_timer os (cancel read t)).1
    fires : Step t (refresh_current_timer os (increment os t).1).1

  pub data Reach (s : TimerEvent T) : TimerEvent T → Type 0 where
    here : Reach s s
    next : {t u : TimerEvent T} → Reach s t → Step t u → Reach s u

  -- The state of a new `TimerEvent`, over a new timerfd.
  abbrev pub initial : T → TimerEvent T
  initial fd = record {
    cur = no_task;
    fd_ = fd;
    waiting_queue = [];
    next_timer_id = 1;
    active_timer_ids = [];
    cancelled_timer_ids = [];
  }

  pub cancel_refresh :
      (read : Option ℕ) (t : TimerEvent T)
      → Settled os t
      → Settled os (refresh_current_timer os (cancel read t)).1
  cancel_refresh read t s =
      let (v, _, cur, fd) = cancel-pending read t s.valid in
      (refresh-Settled os (cancel read t) v (rw (fd, cur) s.armed)).0

  initial-Settled : (fd : T) → os.programmed fd ≡ none → Settled os (initial fd)
  unfolding has lookup
  initial-Settled fd p = record {
    valid = record {
      agenda = record {
        ordered = tt;
        distinct = tt;
        issued = tt;
        tombs = λ i h. cc;
        active_task = λ read i h. cc;
      };
      idle = λ e. refl;
      counter = omega arith;
    };
    armed = p;
    live = refl;
  }

  Step-Settled : {t u : TimerEvent T} → Step t u → Settled os t → Settled os u
  Step-Settled (sets now state delay pos room) s =
      (set_timer-pending now state delay _ s.valid s.armed pos room).0
  Step-Settled refreshes s = (refresh-Settled os _ s.valid s.armed).0
  Step-Settled (cancels read) s = cancel_refresh read _ s
  Step-Settled fires s =
      let (s', same) = increment-Settled os _ s.valid s.live in
      (refresh-Settled os _ s'.valid s'.armed).0

  -- After any history of the library's calls on a new `TimerEvent`, the state is settled: the
  -- current task is the earliest one without a tombstone, the timerfd is set to its deadline or
  -- disarmed with none left, and no tombstone outlives its task.
  pub Reach-Settled :
      (fd : T) {t : TimerEvent T} → os.programmed fd ≡ none → Reach (initial fd) t → Settled os t
  Reach-Settled fd p here = initial-Settled fd p
  Reach-Settled fd p (next r s) = Step-Settled s (Reach-Settled fd p r)
