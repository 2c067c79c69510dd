-- ===== src/Awaiters/Program/Reading.antt =====
-- include/async_frame/async_read.h: `async_read_timeout_impl` among the other operations of the
-- program, which run between its rounds.
use async_io_framework.Prelude.{
  ℕ, ◌+◌, ◌≤◌, ◌<◌, ◌≡◌, refl, false, some, Bool, List, [], ◌∷◌, length, ok, ⊤, ◌==◌,
}
use async_io_framework.Epoll.{IsReliable}
use async_io_framework.Buffer.Filled.{IsWithin}
use async_io_framework.Timer.{Timespec, to_time_point}
use async_io_framework.Transfer.{ReadRet, RecvOutcome}
use async_io_framework.Transfer.Laws.{bytes_of}
use async_io_framework.Awaiters.{System, World, Frame}
use async_io_framework.Awaiters.Suspending.{Ready}
use async_io_framework.Awaiters.Recv.Loop.{Round, async_read_timeout_impl}
use async_io_framework.Awaiters.Recv.TimedRounds.{AllTimedRounds, async_read_timeout_impl_ends}
use async_io_framework.Awaiters.Program.{Other, ids_of_all, AllAdmissible, others_do}
use async_io_framework.Awaiters.Program.Parts.{others_do-Ready, others_do-buf}

-- A round of the loop, in which the rest of the program is a sequence of parts of other operations.
pub record Turn (E B : Type 0) : Type 0 where
  pub race : Bool
  pub others : List (Other E B)
  pub recv : ℕ → RecvOutcome
  pub now : ℕ
  pub left : Timespec

-- Each turn takes one timer id, and the other operations theirs.
abbrev pub ids_of_turns : {E B : Type 0} → List (Turn E B) → ℕ
ids_of_turns [] = 0
ids_of_turns (turn ∷ turns) = ids_of_turns turns + ids_of_all turn.others + 1

module _ {K T E B : Type 0} (sys : System K T E B) where
  abbrev pub round_of : Turn E B → Round (World K T E B)
  round_of turn = record {
    race = turn.race;
    meanwhile = others_do sys turn.others;
    recv = turn.recv;
    now = turn.now;
    left = turn.left;
  }

  abbrev pub rounds_of : List (Turn E B) → List (Round (World K T E B))
  rounds_of [] = []
  rounds_of (turn ∷ turns) = round_of turn ∷ rounds_of turns

-- recv(2) keeps to the size that it is given, deadlines are positive, and no connection with a
-- timeout is the timerfd.
abbrev pub AllTurns : {E B : Type 0} → ℕ → List (Turn E B) → Type 0
AllTurns delay [] = ⊤
AllTurns delay (turn ∷ turns) =
    ((n : ℕ) → length (bytes_of (turn.recv n)) ≤ n)
    × (1 ≤ to_time_point turn.now delay)
    × AllAdmissible turn.others
    × AllTurns delay turns

module _ {K T E B : Type 0} (sys : System K T E B) (reliable : IsReliable sys.epoll)
    (delay : ℕ) where
  rounds_of-AllTimedRounds :
      (turns : List (Turn E B))
      → AllTurns delay turns
      → AllTimedRounds sys delay (ids_of_turns turns) (rounds_of sys turns)
  rounds_of-AllTimedRounds [] v = tt
  rounds_of-AllTimedRounds (turn ∷ turns) v = (
    ids_of_all turn.others,
    ids_of_turns turns,
    refl,
    record {
      bounded = v.0;
      deadline = v.1;
      keeps = λ w r. (others_do-Ready sys reliable turn.others (ids_of_turns turns) w v.2 r).1;
      keeps_buf = others_do-buf sys reliable turn.others;
    },
    rounds_of-AllTimedRounds turns v.3,
  )

  -- It ends, whatever the other operations do: with more rounds than bytes that the buffer has room
  -- for, `async_read_timeout_impl` has returned a result, under the same conditions.
  pub interleaved_read_ends :
      (f : Frame) (turns : List (Turn E B)) (w : World K T E B)
      → (f.conn_fd == f.timer_fd) ≡ false
      → AllTurns delay turns
      → Ready sys (ids_of_turns turns) w
      → IsWithin sys.cursor w.buf
      → sys.cursor.remain w.buf < length (rounds_of sys turns)
      → (x : ReadRet) × ((async_read_timeout_impl sys delay f (rounds_of sys turns) w).0
          ≡ ok (some x))
  interleaved_read_ends f turns w apart v r within room =
      async_read_timeout_impl_ends sys reliable delay f apart (ids_of_turns turns)
        (rounds_of sys turns) w (rounds_of-AllTimedRounds turns v) r within room
