-- ===== src/Tests/Timers.antt =====
-- Examples for include/async_frame/timer.h.
use async_io_framework.Prelude.{
  has, ℕ, ◌≡◌, refl, not, ◌&&◌, ◌≤◌, false, Option, none, some, arith, ◌==◌, if◌then◌else◌,
}
use async_io_framework.Operations.{FdOps}
use async_io_framework.Timer.{
  Timespec, activate_next_timer, activate_from, schedule, push, TimerEvent, empty_task,
  refresh_current_timer, increment, set_timer, cancel,
}
use async_io_framework.Timer.Invariant.{WellFormed, pending}
use async_io_framework.Timer.Setting.{new_task}
use async_io_framework.Timer.Contract.{Settled, refresh-Settled, increment-Settled}
use async_io_framework.Timer.History.{
  id_of, is_id, current_earliest, cancel-pending, set_timer-pending, Step, Reach, initial,
  Reach-Settled,
}
use async_io_framework.Tests.Fixtures.{timerfd_table}

abbrev timer_read : FdOps
timer_read = record { fd = 5; write = none; read = some 100 }

abbrev other_read : FdOps
other_read = record { fd = 5; write = none; read = some 101 }

-- The timer 1 of operation 100, due at 30, and then the timer 2 of operation 101, due at 15.
abbrev one_timer : TimerEvent (Option Timespec)
one_timer = (set_timer timerfd_table 10 timer_read 20 (initial timerfd_table none)).1

abbrev two_timers : TimerEvent (Option Timespec)
two_timers = (set_timer timerfd_table 10 other_read 5 one_timer).1

two_timers-Reach : Reach timerfd_table (initial timerfd_table none) two_timers
unfolding set_timer refresh_current_timer activate_next_timer activate_from schedule
two_timers-Reach =
    Reach.next (Reach.next Reach.here (Step.sets 10 timer_read 20 (omega arith) (omega arith)))
      (Step.sets 10 other_read 5 (omega arith) (omega arith))

two_timers-Settled : Settled timerfd_table two_timers
two_timers-Settled = Reach-Settled timerfd_table none refl two_timers-Reach

two_timers-pending :
    pending two_timers 1 ≡ some (record { state_ = timer_read; time_point = 30; id = 1 })
unfolding set_timer refresh_current_timer activate_next_timer activate_from schedule push has
two_timers-pending = refl

refreshed-Settled :
    let t' = (refresh_current_timer timerfd_table two_timers).1 in
    Settled timerfd_table t' × ((i : ℕ) → pending t' i ≡ pending two_timers i)
refreshed-Settled =
    refresh-Settled timerfd_table two_timers two_timers-Settled.valid two_timers-Settled.armed

increment-Settled_case :
    let t' = (increment timerfd_table two_timers).1 in
    Settled timerfd_table t'
    × ((i : ℕ)
        → pending t' i ≡ (
            if not (empty_task two_timers.cur) && two_timers.cur.id == i
            then none
            else pending two_timers i))
increment-Settled_case =
    increment-Settled timerfd_table two_timers two_timers-Settled.valid two_timers-Settled.live

current_earliest_case :
    (empty_task two_timers.cur ≡ false)
    × (two_timers.cur.time_point ≤ 30)
    × (pending two_timers two_timers.cur.id ≡ some two_timers.cur)
current_earliest_case =
    current_earliest timerfd_table two_timers 1 _ two_timers-Settled two_timers-pending

cancel_keeps_others :
    let t' = cancel (some 101) two_timers in
    WellFormed t'
    × ((i : ℕ)
        → pending t' i
          ≡ (if is_id (id_of (some 101) two_timers) i then none else pending two_timers i))
    × (t'.cur ≡ two_timers.cur)
    × (t'.fd_ ≡ two_timers.fd_)
cancel_keeps_others = cancel-pending timerfd_table (some 101) two_timers two_timers-Settled.valid

set_timer-pending_example :
    let t' = (set_timer timerfd_table 12 timer_read 7 two_timers).1 in
    Settled timerfd_table t'
    × ((i : ℕ)
        → pending t' i ≡ (
            if two_timers.next_timer_id == i
            then some (new_task timerfd_table timer_read 19 two_timers)
            else pending two_timers i))
unfolding set_timer refresh_current_timer activate_next_timer activate_from schedule has
set_timer-pending_example =
    set_timer-pending timerfd_table 12 timer_read 7 two_timers two_timers-Settled.valid
      two_timers-Settled.armed (omega arith) (omega arith)

Reach-Settled_example : Settled timerfd_table two_timers
Reach-Settled_example = Reach-Settled timerfd_table none refl two_timers-Reach
