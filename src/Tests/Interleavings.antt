-- ===== src/Tests/Interleavings.antt =====
-- Examples in which several operations share the scheduler and the timers.
use async_io_framework.Prelude.{
  Option, ℕ, zero, suc, ◌≤◌, ◌≡◌, refl, false, none, some, List, [], ◌∷◌, length, ok, arith,
}
use async_io_framework.Timer.{Timespec}
use async_io_framework.CancelToken.{CancelToken, new_state}
use async_io_framework.Transfer.{ReadRet, RecvOutcome, SendOutcome}
use async_io_framework.Transfer.Laws.{bytes_of}
use async_io_framework.Buffer.DynamicBuffer.{DynamicBuffer}
use async_io_framework.Awaiters.{Frame}
use async_io_framework.Awaiters.Suspending.{Ready}
use async_io_framework.Awaiters.Recv.Loop.{async_read_timeout_impl}
use async_io_framework.Awaiters.Single.{FdOutcome}
use async_io_framework.Awaiters.Program.{Part, Other, AllAdmissible, others_do}
use async_io_framework.Awaiters.Program.EventLoop.{Machine}
use async_io_framework.Epoll.{EpollEvent}
use async_io_framework.Awaiters.Program.Reading.{Turn, AllTurns, rounds_of, interleaved_read_ends}
use async_io_framework.Awaiters.Program.Writing.{SendTurn}
use async_io_framework.Tests.Fixtures.{
  EpollTable, reads, eventfd_counter, system, epoll_table-IsReliable, idle, idle-Agrees, idle-Sound,
  frame, four, four-IsWithin,
}

-- A second connection, at descriptor 8, with a token of its own at descriptor 4.
abbrev second : Frame
second = record {
  conn_fd = 8;
  timer_fd = 5;
  operation = 200;
  timer_read = 201;
  cancel_read = 202;
  cancel_token = CancelToken.event 4;
}

abbrev expired : Timespec
expired = record { tv_sec = 0; tv_nsec = 0 }

-- A part of an operation with its own token.
abbrev apart : Part → Other ℕ DynamicBuffer
apart part = record { part = part; own_token = some (new_state eventfd_counter 0); own_buf = four }

-- A part of an operation that shares the token.
abbrev sharing : Part → Other ℕ DynamicBuffer
sharing part = record { part = part; own_token = none; own_buf = four }

-- The second connection starts a read with a timeout, an acceptor comes and goes, a wait starts and
-- fires, and the read times out.
abbrev others : List (Other ℕ DynamicBuffer)
others =
    apart (Part.recv_timeout_suspends false 10 5 second)
    ∷ apart (Part.accept_suspends second)
    ∷ apart (Part.accept_resumes (FdOutcome.opened 9) second)
    ∷ apart (Part.wait_suspends 11 3 second)
    ∷ apart (Part.wait_resumes second)
    ∷ apart (Part.recv_timeout_resumes expired (RecvOutcome.received []) second)
    ∷ []

others-AllAdmissible : AllAdmissible others
others-AllAdmissible = (omega arith, (tt, (tt, (omega arith, (tt, (refl, tt))))))

idle-Ready : (ids : ℕ) → ids ≤ 100 → Ready system ids idle
idle-Ready ids h = record { agrees = idle-Agrees; timers = idle-Sound; room = omega arith }

-- A request to cancel comes first.
abbrev cancelled_others : List (Other ℕ DynamicBuffer)
cancelled_others = sharing Part.requests_cancel ∷ others

abbrev one_byte : ℕ → RecvOutcome
one_byte zero = RecvOutcome.received []
one_byte (suc n) = RecvOutcome.received (5 ∷ [])

one_byte_bounded : (n : ℕ) → length (bytes_of (one_byte n)) ≤ n
one_byte_bounded zero = omega arith
one_byte_bounded (suc n) = omega arith

abbrev turn : Turn ℕ DynamicBuffer
turn = record {
  race = false;
  others = others;
  recv = one_byte;
  now = 10;
  left = record { tv_sec = 0; tv_nsec = 7 };
}

abbrev turns : List (Turn ℕ DynamicBuffer)
turns = turn ∷ turn ∷ turn ∷ turn ∷ []

turns-AllTurns : AllTurns 20 turns
turns-AllTurns = (
  one_byte_bounded,
  omega arith,
  others-AllAdmissible,
  (
    one_byte_bounded,
    omega arith,
    others-AllAdmissible,
    (
      one_byte_bounded,
      omega arith,
      others-AllAdmissible,
      (one_byte_bounded, omega arith, others-AllAdmissible, tt),
    ),
  ),
)

interleaved_read_ends_example :
    (x : ReadRet) × ((async_read_timeout_impl system 20 frame (rounds_of system turns) idle).0
      ≡ ok (some x))
interleaved_read_ends_example =
    interleaved_read_ends system epoll_table-IsReliable 20 frame turns idle refl turns-AllTurns
      (idle-Ready 12 (omega arith)) four-IsWithin (omega arith)

abbrev one_taken : ℕ → SendOutcome
one_taken zero = SendOutcome.sent 0
one_taken (suc n) = SendOutcome.sent 1

abbrev send_turns : List (SendTurn ℕ DynamicBuffer)
send_turns =
    record {
      race = false;
      others = others;
      send = one_taken;
      now = 10;
      left = record { tv_sec = 0; tv_nsec = 7 };
    }
    ∷ []

-- A single read waits at descriptor 8; an event completes it.
abbrev submission : List (Other ℕ DynamicBuffer)
submission = apart (Part.recv_some_suspends second) ∷ []

abbrev machine : Machine EpollTable (Option Timespec) ℕ DynamicBuffer
machine = record {
  world = others_do system submission idle;
  scripts = (apart (Part.recv_some_resumes (RecvOutcome.received (5 ∷ [])) second) ∷ others) ∷ [];
  threw = false;
}

abbrev arrivals : List (List EpollEvent)
arrivals = (record { events = reads; fd = 8 } ∷ []) ∷ []
