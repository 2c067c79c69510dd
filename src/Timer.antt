-- ===== src/Timer.antt =====
-- include/async_frame/timer.h: `class TimerEvent`, the queue of timers behind one timerfd. The
-- kernel's timer and the clock are parameters. Deadlines are numbers of nanoseconds that are not
-- negative and do not overflow; timer ids are `uint64_t`.
pub mod Agenda
pub mod Invariant
pub mod Total
pub mod Counter
pub mod Contract
pub mod Setting
pub mod History
use async_io_framework.Prelude.{
  ℕ, ◌+◌, ◌-◌, ◌*◌, ◌/◌, ◌%◌, ◌^◌, ◌≡◌, ◌≢◌, ◌<◌, Bool, true, false, ◌&&◌, List, [], ◌∷◌, Option,
  none, some, Map, lookup, insert, erase, has, put, drop_id, Action, ok, thrown, ⊤, ◌>>◌, ◌>>=◌,
  get, modify, pure, when, throw, on_member, if◌then◌else◌, ltb, leb, ◌==◌, same_pointer, is_some,
}
use async_io_framework.Prelude.Words.{add64}
use async_io_framework.Operations.{FdOps}

pub record Timespec : Type 0 where
  pub tv_sec : ℕ
  pub tv_nsec : ℕ

abbrev pub nano : ℕ
nano = 1_000_000_000

-- `to_timespec`, for a time point that is not negative.
abbrev pub to_timespec : ℕ → Timespec
to_timespec time = record { tv_sec = time / nano; tv_nsec = time % nano }

-- The count of `get_timer`, from what timerfd_gettime(2) wrote.
abbrev pub count_of : Timespec → ℕ
count_of v = v.tv_nsec + v.tv_sec * nano

-- `now` is the clock's reading, in nanoseconds; `to_time_point` adds the delay to it.
abbrev pub to_time_point : ℕ → ℕ → ℕ
to_time_point now delay = delay + now

abbrev pub is_zero : Timespec → Bool
is_zero v = v.tv_sec == 0 && v.tv_nsec == 0

-- A timerfd as timerfd_create(2) describes it. `programmed` is the expiration last set, if the timer
-- was not disarmed since; `none` as a result stands for -1.
pub record TimerFd (T : Type 0) : Type 0 where
  pub programmed : T → Option Timespec
  pub settime : T → Timespec → Option T
  pub settime-programmed :
      (t : T) (v : Timespec) (t' : T)
      → settime t v ≡ some t'
      → programmed t' ≡ (if is_zero v then none else some v)
  -- read(2), once the timer has expired: it takes the number of expirations.
  pub read_expirations : T → T
  pub read_expirations-programmed : (t : T) → programmed (read_expirations t) ≡ programmed t
  -- EINVAL is the only failure on a valid descriptor.
  pub settime_valid : (t : T) (v : Timespec) → v.tv_nsec < nano → settime t v ≢ none

pub record TimerTask : Type 0 where
  pub state_ : FdOps
  pub time_point : ℕ
  pub id : ℕ

-- `TimerTask{}`
abbrev pub no_task : TimerTask
no_task = record { state_ = record { fd = 0; write = none; read = none }; time_point = 0; id = 0 }

-- `TimerTaskComp`: the left task yields to the right one.
abbrev pub timer_task_comp : TimerTask → TimerTask → Bool
timer_task_comp lhs rhs = leb rhs.time_point lhs.time_point

-- `waiting_queue.push`: the priority queue in the order in which it is popped, each task before
-- those that yield to it.
unfoldable pub push : TimerTask → List TimerTask → List TimerTask
push task [] = task ∷ []
push task (x ∷ xs) = if timer_task_comp x task then task ∷ x ∷ xs else x ∷ push task xs

pub record TimerEvent (T : Type 0) : Type 0 where
  pub cur : TimerTask
  pub fd_ : T
  pub waiting_queue : List TimerTask
  pub next_timer_id : ℕ
  pub active_timer_ids : Map ℕ
  pub cancelled_timer_ids : List ℕ

abbrev pub empty_task : TimerTask → Bool
empty_task task = task.time_point == 0

abbrev pub remember : TimerTask → Map ℕ → Map ℕ
remember task active = elim task.state_.read [
  | none ↦ active
  | some read ↦ insert read task.id active
]

abbrev pub forget : TimerTask → Map ℕ → Map ℕ
forget task active = elim task.state_.read [
  | none ↦ active
  | some read ↦ elim (lookup read active) [
    | none ↦ active
    | some id ↦ if id == task.id then erase read active else active
  ]
]

-- `consume_cancelled` as a test; `consumed` is what it leaves.
abbrev pub is_cancelled : TimerTask → List ℕ → Bool
is_cancelled task cancelled = if task.id == 0 then false else has task.id cancelled

abbrev pub consumed : TimerTask → List ℕ → List ℕ
consumed task cancelled =
    if is_cancelled task cancelled then drop_id task.id cancelled else cancelled

module _ {T : Type 0} where
  abbrev pub remember_active : TimerTask → TimerEvent T → TimerEvent T
  remember_active task t = record t { active_timer_ids = remember task t.active_timer_ids }

  abbrev pub forget_active : TimerTask → TimerEvent T → TimerEvent T
  forget_active task t = record t { active_timer_ids = forget task t.active_timer_ids }

  abbrev pub consume_cancelled : TimerTask → TimerEvent T → Bool × TimerEvent T
  consume_cancelled task t = (
    is_cancelled task t.cancelled_timer_ids,
    record t { cancelled_timer_ids = consumed task t.cancelled_timer_ids },
  )

  abbrev pub current_empty : TimerEvent T → Bool
  current_empty t = empty_task t.cur

  abbrev pub is_current : Option ℕ → TimerEvent T → Bool
  is_current read t = same_pointer t.cur.state_.read read

  -- `TimerEvent::empty`
  abbrev pub queue_empty : TimerEvent T → Bool
  queue_empty t = elim t.waiting_queue [ [] ↦ true | x ∷ xs ↦ false ]

  unfoldable pub cancel : Option ℕ → TimerEvent T → TimerEvent T
  cancel none t = t
  cancel (some read) t = elim (lookup read t.active_timer_ids) [
    | none ↦ t
    | some id ↦ record t {
      cancelled_timer_ids = put id t.cancelled_timer_ids;
      active_timer_ids = erase read t.active_timer_ids;
    }
  ]

module _ {T : Type 0} (os : TimerFd T) where
  -- `consume`, once no signal interrupts it (`reads_made` in CancelToken is its loop).
  unfoldable pub consume_expirations : TimerEvent T → TimerEvent T
  consume_expirations t = record t { fd_ = os.read_expirations t.fd_ }

  -- timerfd_settime(2) with the error check of `update_timer` and `clear_timer`.
  abbrev pub settime : Timespec → Action (TimerEvent T) ⊤
  settime v t = elim (os.settime t.fd_ v) [
    | none ↦ (thrown, t)
    | some fd ↦ (ok tt, record t { fd_ = fd })
  ]

  abbrev pub update_timer : ℕ → Action (TimerEvent T) ⊤
  update_timer tp = settime (to_timespec tp)

  abbrev pub clear_timer : Action (TimerEvent T) ⊤
  clear_timer = settime (record { tv_sec = 0; tv_nsec = 0 })

  -- The `while` loop of `activate_next_timer`, over what is left of the queue.
  unfoldable pub activate_from : List TimerTask → Action (TimerEvent T) ⊤
  activate_from [] t = clear_timer (record t { cur = no_task; waiting_queue = [] })
  activate_from (task ∷ rest) t =
      let (hit, t') = consume_cancelled task (record t { waiting_queue = rest }) in
      let skip = activate_from rest (forget_active task t') in
      if hit then skip else update_timer task.time_point (record t' { cur = task })

  unfoldable pub activate_next_timer : Action (TimerEvent T) ⊤
  activate_next_timer t = activate_from t.waiting_queue t

  -- `operator++`
  unfoldable pub increment : Action (TimerEvent T) ⊤
  increment t = activate_next_timer (forget_active t.cur t)

  unfoldable pub refresh_current_timer : Action (TimerEvent T) ⊤
  refresh_current_timer t =
      let (hit, t') = consume_cancelled t.cur t in
      if empty_task t.cur
      then activate_next_timer (forget_active t.cur t)
      else if hit
      then activate_next_timer (forget_active t.cur t')
      else (ok tt, t')

  -- The part of `set_timer` that follows `refresh_current_timer`; `final_time` is the deadline.
  unfoldable pub schedule : FdOps → ℕ → Action (TimerEvent T) ⊤
  schedule state final_time t =
      let task : TimerTask = record {
        state_ = state;
        time_point = final_time;
        id = t.next_timer_id;
      } in
      let t' = remember_active task (record t { next_timer_id = add64 t.next_timer_id 1 }) in
      if empty_task t'.cur
      then update_timer final_time (record t' { cur = task })
      else if ltb final_time t'.cur.time_point
      then update_timer final_time
          (record t' { waiting_queue = push t'.cur t'.waiting_queue; cur = task })
      else (ok tt, record t' { waiting_queue = push task t'.waiting_queue })

  unfoldable pub set_timer : ℕ → FdOps → ℕ → Action (TimerEvent T) ⊤
  set_timer now state delay = do refresh_current_timer; schedule state (to_time_point now delay)
