-- ===== src/Tests/TimedLoops.antt =====
-- Examples for `async_read_timeout_impl` (include/async_frame/async_read.h) and
-- `async_write_timeout_impl` (include/async_frame/async_write.h).
use async_io_framework.Prelude.{
  ℕ, zero, suc, ◌≤◌, ◌≡◌, ◌≢◌, refl, false, some, List, [], ◌∷◌, length, ok, arith,
}
use async_io_framework.Timer.{Timespec}
use async_io_framework.Transfer.{eagain, ReadRet, RecvOutcome, SendOutcome}
use async_io_framework.Transfer.Laws.{bytes_of, taken_by}
use async_io_framework.Awaiters.Suspending.{Ready}
use async_io_framework.Awaiters.Recv.Loop.{Round, async_read_timeout_impl}
use async_io_framework.Awaiters.Recv.TimedRounds.{
  IsTimedRound, AllTimedRounds, async_read_timeout_impl_ends,
}
use async_io_framework.Awaiters.Send.Loop.{SendRound, async_write_timeout_impl}
use async_io_framework.Awaiters.Send.Progress.{SendLooped, NeverFull}
use async_io_framework.Awaiters.Send.TimedRounds.{
  IsTimedSendRound, AllTimedSendRounds, async_write_timeout_impl-SendLooped,
  async_write_timeout_impl_ends,
}
use async_io_framework.Tests.Fixtures.{
  system, epoll_table-IsReliable, idle, idle-Agrees, idle-Sound, frame, Program, four-IsWithin,
}

abbrev not_expired : Timespec
not_expired = record { tv_sec = 0; tv_nsec = 7 }

abbrev one_byte : ℕ → RecvOutcome
one_byte zero = RecvOutcome.received []
one_byte (suc n) = RecvOutcome.received (5 ∷ [])

one_byte_bounded : (n : ℕ) → length (bytes_of (one_byte n)) ≤ n
one_byte_bounded zero = omega arith
one_byte_bounded (suc n) = omega arith

abbrev round : Round Program
round = record { race = false; meanwhile = λ w. w; recv = one_byte; now = 10; left = not_expired }

abbrev rounds : List (Round Program)
rounds = round ∷ round ∷ round ∷ round ∷ []

idle-Ready : Ready system 4 idle
idle-Ready = record { agrees = idle-Agrees; timers = idle-Sound; room = omega arith }

-- Nobody else takes an id.
timed_round : (n : ℕ) → IsTimedRound system 20 n n round
timed_round n = record {
  bounded = one_byte_bounded;
  deadline = omega arith;
  keeps = λ w r. r;
  keeps_buf = λ w. refl;
}

rounds-AllTimedRounds : AllTimedRounds system 20 4 rounds
rounds-AllTimedRounds = (
  0,
  3,
  refl,
  timed_round 3,
  (0, 2, refl, timed_round 2, (0, 1, refl, timed_round 1, (0, 0, refl, timed_round 0, tt))),
)

timed_reads_end :
    (r : ReadRet) × ((async_read_timeout_impl system 20 frame rounds idle).0 ≡ ok (some r))
timed_reads_end =
    async_read_timeout_impl_ends system epoll_table-IsReliable 20 frame refl 4 rounds idle
      rounds-AllTimedRounds idle-Ready four-IsWithin (omega arith)

abbrev one_taken : ℕ → SendOutcome
one_taken zero = SendOutcome.sent 0
one_taken (suc n) = SendOutcome.sent 1

one_taken_bounded : (n : ℕ) → taken_by (one_taken n) ≤ n
one_taken_bounded zero = omega arith
one_taken_bounded (suc n) = omega arith

one_taken_works : (n e : ℕ) → one_taken n ≢ SendOutcome.send_failed e
one_taken_works zero e = ground arith
one_taken_works (suc n) e = ground arith

abbrev send_round : SendRound Program
send_round = record {
  race = false;
  meanwhile = λ w. w;
  send = one_taken;
  now = 10;
  left = not_expired;
}

abbrev send_rounds : List (SendRound Program)
send_rounds = send_round ∷ send_round ∷ send_round ∷ send_round ∷ []

timed_send_round : (n : ℕ) → IsTimedSendRound system 20 n n send_round
timed_send_round n = record {
  answers = record { bounded = one_taken_bounded; errno = λ n. one_taken_works n 0 };
  deadline = omega arith;
  keeps = λ w r. r;
  keeps_buf = λ w. refl;
}

send_rounds-AllTimedSendRounds : AllTimedSendRounds system 20 4 send_rounds
send_rounds-AllTimedSendRounds = (
  0,
  3,
  refl,
  timed_send_round 3,
  (
    0,
    2,
    refl,
    timed_send_round 2,
    (0, 1, refl, timed_send_round 1, (0, 0, refl, timed_send_round 0, tt)),
  ),
)

timed_writes_loop :
    let (r, w') = async_write_timeout_impl system 20 frame send_rounds idle in
    SendLooped system (Ready system 0) 0 send_rounds idle r w'
timed_writes_loop =
    async_write_timeout_impl-SendLooped system epoll_table-IsReliable 20 frame 4 send_rounds idle
      send_rounds-AllTimedSendRounds idle-Ready four-IsWithin

send_rounds-NeverFull : NeverFull send_rounds
send_rounds-NeverFull =
    let never : (n : ℕ) → one_taken n ≢ SendOutcome.send_failed eagain =
      λ n. one_taken_works n eagain in
    (never, (never, (never, (never, tt))))

timed_writes_end :
    (r : ReadRet) × ((async_write_timeout_impl system 20 frame send_rounds idle).0 ≡ ok (some r))
timed_writes_end =
    async_write_timeout_impl_ends system epoll_table-IsReliable 20 frame 4 send_rounds idle
      send_rounds-AllTimedSendRounds idle-Ready four-IsWithin send_rounds-NeverFull (omega arith)
