-- ===== src/Tests/Writing.antt =====
-- Examples for include/async_frame/async_write.h.
use async_io_framework.Prelude.{
  ℕ, zero, suc, ◌≡◌, ◌≢◌, ◌≤◌, refl, [], ◌∷◌, List, true, false, none, some, arith, ok, ◌==◌,
  if◌then◌else◌,
}
use async_io_framework.Scheduler.Agreement.{Agrees}
use async_io_framework.Scheduler.Slots.{waiters}
use async_io_framework.Timer.{Timespec}
use async_io_framework.Timer.Invariant.{pending}
use async_io_framework.Timer.Setting.{new_task}
use async_io_framework.Timer.History.{id_of, is_id}
use async_io_framework.Transfer.{eagain, ReadRet, SendOutcome}
use async_io_framework.Transfer.Laws.{taken_by}
use async_io_framework.Awaiters.{reading}
use async_io_framework.Awaiters.Steps.{Ends, with_reader, with_writer, with_token}
use async_io_framework.Awaiters.Timers.{has_fired, ended, started, Sound, current_reader}
use async_io_framework.Awaiters.Send.{send_resume, send_timeout_suspend, send_timeout_resume}
use async_io_framework.Awaiters.Send.Loop.{SendRound, async_write_impl}
use async_io_framework.Awaiters.Send.Progress.{IsSendRound, AllSendRounds, NeverFull}
use async_io_framework.Awaiters.Send.Rounds.{async_write_impl_ends}
use async_io_framework.Awaiters.Send.Registration.{send_resume-Ends, resume_result, resume_token}
use async_io_framework.Awaiters.Send.Timeout.{
  released, timeout_result, timeout_token, send_timeout_resume-Sound,
}
use async_io_framework.Awaiters.Send.Deadline.{send_timeout_suspend-Sound}
use async_io_framework.Tests.Fixtures.{
  system, epoll_table-IsReliable, idle, idle-Agrees, idle-Kept, timed, timed-Kept, frame, Program,
  four-IsWithin,
}

abbrev two_taken : SendOutcome
two_taken = SendOutcome.sent 2

send_resume-Ends_case :
    let (r, b) = resume_result system two_taken frame idle in
    Ends system
      (send_resume system two_taken frame)
      idle
      r
      idle.timer
      (resume_token system frame idle)
      b
      (with_token frame.cancel_token none (with_writer 7 none (waiters idle.scheduler)))
send_resume-Ends_case =
    send_resume-Ends system epoll_table-IsReliable two_taken frame idle idle-Agrees

send_timeout_suspend-Sound_case :
    let t = started system.timerfd 10 20 frame idle.timer in
    Ends system (send_timeout_suspend system false 10 20 frame) idle true t idle.token idle.buf (
      with_token frame.cancel_token
        (some 102)
        (with_reader 5 (current_reader t) (with_writer 7 (some 100) (waiters idle.scheduler))))
    × Sound system.timerfd t
    × ((i : ℕ)
        → pending t i ≡ (
            if idle.timer.next_timer_id == i
            then some (new_task system.timerfd (reading 5 101) 30 idle.timer)
            else pending idle.timer i))
send_timeout_suspend-Sound_case =
    send_timeout_suspend-Sound system epoll_table-IsReliable 10 20 frame idle idle-Agrees idle-Kept
      refl (omega arith) (omega arith)

abbrev expired : Timespec
expired = record { tv_sec = 0; tv_nsec = 0 }

send_timeout_resume-Sound_example :
    let (r, b) = timeout_result system expired two_taken frame timed in
    let t = ended system.timerfd frame (has_fired system expired frame timed) timed.timer in
    Ends system
      (send_timeout_resume system expired two_taken frame)
      timed
      r
      t
      (timeout_token system frame timed)
      b
      (released frame t (waiters timed.scheduler))
    × Sound system.timerfd t
    × ((i : ℕ)
        → pending t i
          ≡ (if is_id (id_of (some 101) timed.timer) i then none else pending timed.timer i))
send_timeout_resume-Sound_example =
    send_timeout_resume-Sound system epoll_table-IsReliable expired two_taken frame timed
      idle-Agrees timed-Kept

-- A socket that takes one byte at a time.
abbrev one_taken : ℕ → SendOutcome
one_taken zero = SendOutcome.sent 0
one_taken (suc n) = SendOutcome.sent 1

one_taken_bounded : (n : ℕ) → taken_by (one_taken n) ≤ n
one_taken_bounded zero = omega arith
one_taken_bounded (suc n) = omega arith

one_taken_works : (n e : ℕ) → one_taken n ≢ SendOutcome.send_failed e
one_taken_works zero e = ground arith
one_taken_works (suc n) e = ground arith

abbrev round : SendRound Program
round = record { race = false; meanwhile = λ w. w; send = one_taken; now = 0; left = expired }

abbrev rounds : List (SendRound Program)
rounds = round ∷ round ∷ round ∷ round ∷ []

abbrev Inv : Program → Type 0
Inv w = Agrees system.epoll w.scheduler

rounds-AllSendRounds : AllSendRounds system Inv rounds
rounds-AllSendRounds =
    let ok_round : IsSendRound system Inv round = record {
      answers = record { bounded = one_taken_bounded; errno = λ n. one_taken_works n 0 };
      keeps = λ w a. a;
      keeps_buf = λ w. refl;
    } in
    (ok_round, (ok_round, (ok_round, (ok_round, tt))))

rounds-NeverFull : NeverFull rounds
rounds-NeverFull =
    let never : (n : ℕ) → one_taken n ≢ SendOutcome.send_failed eagain =
      λ n. one_taken_works n eagain in
    (never, (never, (never, (never, tt))))

async_write_impl_ends_example :
    (r : ReadRet) × ((async_write_impl system frame rounds idle).0 ≡ ok (some r))
async_write_impl_ends_example =
    async_write_impl_ends system epoll_table-IsReliable frame rounds idle rounds-AllSendRounds
      idle-Agrees four-IsWithin rounds-NeverFull (omega arith)
