-- ===== src/Tests/Single.antt =====
-- Examples for include/async_frame/async_read_some.h, include/async_frame/async_accept.h,
-- include/async_frame/async_connect.h and include/async_frame/wait_for.h.
use async_io_framework.Prelude.{
  ℕ, lookup, not, ◌&&◌, ◌≡◌, refl, [], ◌∷◌, none, some, arith, ◌==◌, if◌then◌else◌,
}
use async_io_framework.Scheduler.Slots.{waiters}
use async_io_framework.Timer.{empty_task}
use async_io_framework.Timer.Invariant.{pending}
use async_io_framework.Timer.Setting.{new_task}
use async_io_framework.Transfer.{no_error, einprogress, RecvOutcome, try_read}
use async_io_framework.Awaiters.{reading}
use async_io_framework.Awaiters.Steps.{Ends, Moves, with_reader}
use async_io_framework.Awaiters.Timers.{Sound, current_reader}
use async_io_framework.Awaiters.Single.{
  FdOutcome, ConnectOutcome, SockoptOutcome, accepted, recv_some_suspend, recv_some_resume,
  accept_suspend, accept_resume, async_connect_impl, wait_suspend, wait_resume,
}
use async_io_framework.Awaiters.Single.Registration.{
  read_once-Ends, Restores, async_connect_impl-Restores,
}
use async_io_framework.Awaiters.Single.Waiting.{set, fired, wait_suspend-Sound, wait_resume-Sound}
use async_io_framework.Tests.Fixtures.{
  system, epoll_table-IsReliable, idle, idle-Agrees, idle-Kept, timed, timed-Sound, frame, Program,
}

abbrev two_bytes : RecvOutcome
two_bytes = RecvOutcome.received (7 ∷ 8 ∷ [])

single_operations-Ends :
    let (r, b) = try_read system.cursor two_bytes idle.buf in
    Moves system
      (recv_some_suspend system frame)
      idle
      tt
      (with_reader 7 (some 100) (waiters idle.scheduler))
    × Ends system
        (recv_some_resume system two_bytes frame)
        idle
        r
        idle.timer
        idle.token
        b
        (with_reader 7 none (waiters idle.scheduler))
    × Moves system
        (accept_suspend system frame)
        idle
        tt
        (with_reader 7 (some 100) (waiters idle.scheduler))
    × Moves system
        (accept_resume system (FdOutcome.opened 9) frame)
        idle
        (accepted (FdOutcome.opened 9))
        (with_reader 7 none (waiters idle.scheduler))
single_operations-Ends =
    read_once-Ends system epoll_table-IsReliable two_bytes (FdOutcome.opened 9) frame idle idle
      idle-Agrees idle-Agrees

abbrev nothing_else : Program → Program
nothing_else w = w

async_connect_impl-Restores_example :
    Restores system epoll_table-IsReliable
      (async_connect_impl system
        (ConnectOutcome.connect_failed einprogress)
        nothing_else
        (SockoptOutcome.so_error 111)
        frame)
      idle
      111
unfolding lookup
async_connect_impl-Restores_example =
    async_connect_impl-Restores system epoll_table-IsReliable
      (ConnectOutcome.connect_failed einprogress) nothing_else (SockoptOutcome.so_error 111) frame
      idle (λ v a. a) (λ v j. refl) idle-Agrees refl

wait_suspend-Sound_example :
    let t = set system epoll_table-IsReliable 10 20 frame idle.timer in
    Ends system
      (wait_suspend system 10 20 frame)
      idle
      tt
      t
      idle.token
      idle.buf
      (with_reader 5 t.cur.state_.read (waiters idle.scheduler))
    × Sound system.timerfd t
    × ((i : ℕ)
        → pending t i ≡ (
            if idle.timer.next_timer_id == i
            then some (new_task system.timerfd (reading 0 101) 30 idle.timer)
            else pending idle.timer i))
wait_suspend-Sound_example =
    wait_suspend-Sound system epoll_table-IsReliable 10 20 frame idle idle-Agrees idle-Kept
      (omega arith) (omega arith)

wait_resume-Sound_example :
    let t = fired system epoll_table-IsReliable timed.timer in
    Ends system
      (wait_resume system frame)
      timed
      no_error
      t
      timed.token
      timed.buf
      (with_reader 5 (current_reader t) (waiters timed.scheduler))
    × Sound system.timerfd t
    × ((i : ℕ)
        → pending t i ≡ (
            if not (empty_task timed.timer.cur) && timed.timer.cur.id == i
            then none
            else pending timed.timer i))
wait_resume-Sound_example =
    wait_resume-Sound system epoll_table-IsReliable frame timed idle-Agrees timed-Sound
