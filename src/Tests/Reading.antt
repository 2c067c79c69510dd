-- ===== src/Tests/Reading.antt =====
-- Examples for include/async_frame/async_read.h and `refresh_timer_registration` of
-- include/async_frame/timer.h.
use async_io_framework.Prelude.{
  ℕ, zero, suc, lookup, ◌≡◌, ◌≢◌, ◌≤◌, refl, [], ◌∷◌, List, length, true, false, none, some, arith,
  ok, thrown, ◌==◌, if◌then◌else◌, ◌>>◌, modify,
}
use async_io_framework.Scheduler.Agreement.{Agrees}
use async_io_framework.Scheduler.Slots.{waiters}
use async_io_framework.Timer.{
  set_timer, refresh_current_timer, activate_next_timer, activate_from, schedule, Timespec,
  refresh_current_timer,
}
use async_io_framework.Timer.Invariant.{pending}
use async_io_framework.Timer.Setting.{new_task}
use async_io_framework.Timer.History.{id_of, is_id}
use async_io_framework.CancelToken.{request_cancel}
use async_io_framework.Transfer.{ReadRet, RecvOutcome}
use async_io_framework.Transfer.Laws.{bytes_of}
use async_io_framework.Awaiters.{is_cancelled, other_thread, reading, refresh_timer_registration}
use async_io_framework.Awaiters.Steps.{Ends, Moves, with_reader, with_token}
use async_io_framework.Awaiters.Timers.{
  has_fired, ended, started, Sound, current_reader, refresh_timer_registration-Ends,
}
use async_io_framework.Awaiters.Recv.{
  recv_suspend, recv_resume, recv_timeout_suspend, recv_timeout_resume,
}
use async_io_framework.Awaiters.Recv.Loop.{Round, async_read_impl}
use async_io_framework.Awaiters.Recv.Streams.{IsRound, AllRounds}
use async_io_framework.Awaiters.Recv.Rounds.{async_read_impl_ends}
use async_io_framework.Awaiters.Recv.Registration.{
  recv_suspend-Moves, recv_resume-Ends, resume_result, resume_token,
}
use async_io_framework.Awaiters.Recv.Races.{recv_suspend_race, recv_suspend-recv_resume}
use async_io_framework.Awaiters.Recv.Timeout.{
  released, timeout_result, timeout_token, recv_timeout_resume-Sound,
}
use async_io_framework.Awaiters.Recv.Deadline.{recv_timeout_suspend-Sound}
use async_io_framework.Tests.Fixtures.{
  system, epoll_table-IsReliable, idle, idle-Agrees, idle-Kept, timed, timed-Kept, frame, Program,
  four-IsWithin,
}

abbrev two_bytes : RecvOutcome
two_bytes = RecvOutcome.received (7 ∷ 8 ∷ [])

recv_suspend-Moves_case :
    Moves system
      (recv_suspend system false frame)
      idle
      true
      (with_token frame.cancel_token (some 102) (with_reader 7 (some 100) (waiters idle.scheduler)))
recv_suspend-Moves_case =
    recv_suspend-Moves system epoll_table-IsReliable frame idle idle-Agrees refl

recv_suspend_race_example :
    Ends system
      (recv_suspend system true frame)
      idle
      true
      idle.timer
      (request_cancel system.eventfd idle.token)
      idle.buf
      (with_reader 7 (some 100) (waiters idle.scheduler))
    × (is_cancelled system frame (recv_suspend system true frame idle).1 ≡ true)
recv_suspend_race_example =
    recv_suspend_race system epoll_table-IsReliable 3 frame idle idle-Agrees refl refl

recv_resume-Ends_example :
    let (r, b) = resume_result system two_bytes frame idle in
    Ends system
      (recv_resume system two_bytes frame)
      idle
      r
      idle.timer
      (resume_token system frame idle)
      b
      (with_token frame.cancel_token none (with_reader 7 none (waiters idle.scheduler)))
recv_resume-Ends_example =
    recv_resume-Ends system epoll_table-IsReliable two_bytes frame idle idle-Agrees

recv_suspend-recv_resume_example :
    let (r, w') =
      (recv_suspend system false frame
          >> (modify (other_thread system true) >> recv_resume system two_bytes frame))
        idle in
    (r ≢ thrown) × ((j : ℕ) → waiters w'.scheduler j ≡ waiters idle.scheduler j)
unfolding lookup
recv_suspend-recv_resume_example =
    recv_suspend-recv_resume system epoll_table-IsReliable true two_bytes frame idle idle-Agrees
      refl refl (λ j. ground arith)

refreshed_registration :
    let t = (refresh_current_timer system.timerfd timed.timer).1 in
    Ends system
      (refresh_timer_registration system 5)
      timed
      tt
      t
      timed.token
      timed.buf
      (with_reader 5 (current_reader t) (waiters timed.scheduler))
refreshed_registration =
    refresh_timer_registration-Ends system epoll_table-IsReliable 5 timed idle-Agrees timed-Kept

recv_timeout_suspend-Sound_example :
    let t = started system.timerfd 10 20 frame idle.timer in
    Ends system (recv_timeout_suspend system false 10 20 frame) idle true t idle.token idle.buf (
      with_token frame.cancel_token
        (some 102)
        (with_reader 5 (current_reader t) (with_reader 7 (some 100) (waiters idle.scheduler))))
    × Sound system.timerfd t
    × ((i : ℕ)
        → pending t i ≡ (
            if idle.timer.next_timer_id == i
            then some (new_task system.timerfd (reading 5 101) 30 idle.timer)
            else pending idle.timer i))
recv_timeout_suspend-Sound_example =
    recv_timeout_suspend-Sound system epoll_table-IsReliable 10 20 frame idle idle-Agrees idle-Kept
      refl (omega arith) (omega arith)

abbrev expired : Timespec
expired = record { tv_sec = 0; tv_nsec = 0 }

recv_timeout_resume-Sound_example :
    let (r, b) = timeout_result system expired two_bytes frame timed in
    let t = ended system.timerfd frame (has_fired system expired frame timed) timed.timer in
    Ends system
      (recv_timeout_resume system expired two_bytes frame)
      timed
      r
      t
      (timeout_token system frame timed)
      b
      (released frame t (waiters timed.scheduler))
    × Sound system.timerfd t
    × ((i : ℕ)
        → pending t i
          ≡ (if is_id (id_of (some 101) timed.timer) i then none else pending timed.timer i))
recv_timeout_resume-Sound_example =
    recv_timeout_resume-Sound system epoll_table-IsReliable expired two_bytes frame timed
      idle-Agrees timed-Kept refl

-- A peer that sends one byte at a time, to a reader with room for it.
abbrev one_byte : ℕ → RecvOutcome
one_byte zero = RecvOutcome.received []
one_byte (suc n) = RecvOutcome.received (5 ∷ [])

one_byte_bounded : (n : ℕ) → length (bytes_of (one_byte n)) ≤ n
one_byte_bounded zero = omega arith
one_byte_bounded (suc n) = omega arith

abbrev round : Round Program
round = record { race = false; meanwhile = λ w. w; recv = one_byte; now = 0; left = expired }

abbrev rounds : List (Round Program)
rounds = round ∷ round ∷ round ∷ round ∷ []

abbrev Inv : Program → Type 0
Inv w = Agrees system.epoll w.scheduler

rounds-AllRounds : AllRounds system Inv rounds
rounds-AllRounds =
    let ok_round : IsRound system Inv round = record {
      bounded = one_byte_bounded;
      keeps = λ w a. a;
      keeps_buf = λ w. refl;
    } in
    (ok_round, (ok_round, (ok_round, (ok_round, tt))))

async_read_impl_ends_example :
    (r : ReadRet) × ((async_read_impl system frame rounds idle).0 ≡ ok (some r))
async_read_impl_ends_example =
    async_read_impl_ends system epoll_table-IsReliable frame rounds idle rounds-AllRounds
      idle-Agrees four-IsWithin (omega arith)

-- The example of `recv_timeout_resume` times out.
timed_read_fires : has_fired system expired frame timed ≡ true
unfolding set_timer refresh_current_timer activate_next_timer activate_from schedule
timed_read_fires = refl
