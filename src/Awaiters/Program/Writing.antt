-- ===== src/Awaiters/Program/Writing.antt =====
-- include/async_frame/async_write.h: `async_write_timeout_impl` among the other operations of the
-- program, which run between its rounds.
use async_io_framework.Prelude.{
  ℕ, ◌+◌, ◌≤◌, ◌<◌, ◌≡◌, ◌≢◌, refl, some, Bool, List, [], ◌∷◌, length, ok, ⊤,
}
use async_io_framework.Epoll.{IsReliable}
use async_io_framework.Buffer.Filled.{IsWithin}
use async_io_framework.Timer.{Timespec, to_time_point}
use async_io_framework.Transfer.{ReadRet, SendOutcome}
use async_io_framework.Transfer.Laws.{taken_by}
use async_io_framework.Awaiters.{System, World, Frame}
use async_io_framework.Awaiters.Suspending.{Ready}
use async_io_framework.Awaiters.Send.Loop.{SendRound, async_write_timeout_impl}
use async_io_framework.Awaiters.Send.Progress.{NeverFull}
use async_io_framework.Awaiters.Send.TimedRounds.{AllTimedSendRounds, async_write_timeout_impl_ends}
use async_io_framework.Awaiters.Program.{Other, ids_of_all, AllAdmissible, others_do}
use async_io_framework.Awaiters.Program.Parts.{others_do-Ready, others_do-buf}

-- A round of the loop, in which the rest of the program is a sequence of parts of other operations.
pub record SendTurn (E B : Type 0) : Type 0 where
  pub race : Bool
  pub others : List (Other E B)
  pub send : ℕ → SendOutcome
  pub now : ℕ
  pub left : Timespec

-- Each turn takes one timer id, and the other operations theirs.
abbrev pub ids_of_send_turns : {E B : Type 0} → List (SendTurn E B) → ℕ
ids_of_send_turns [] = 0
ids_of_send_turns (turn ∷ turns) = ids_of_send_turns turns + ids_of_all turn.others + 1

module _ {K T E B : Type 0} (sys : System K T E B) where
  abbrev pub send_round_of : SendTurn E B → SendRound (World K T E B)
  send_round_of turn = record {
    race = turn.race;
    meanwhile = others_do sys turn.others;
    send = turn.send;
    now = turn.now;
    left = turn.left;
  }

  abbrev pub send_rounds_of : List (SendTurn E B) → List (SendRound (World K T E B))
  send_rounds_of [] = []
  send_rounds_of (turn ∷ turns) = send_round_of turn ∷ send_rounds_of turns

-- send(2) keeps to the size that it is given and fails with an errno that is not 0, deadlines are
-- positive, and no connection with a timeout to read is the timerfd.
abbrev pub AllSendTurns : {E B : Type 0} → ℕ → List (SendTurn E B) → Type 0
AllSendTurns delay [] = ⊤
AllSendTurns delay (turn ∷ turns) =
    ((n : ℕ) → taken_by (turn.send n) ≤ n)
    × ((n : ℕ) → turn.send n ≢ SendOutcome.send_failed 0)
    × (1 ≤ to_time_point turn.now delay)
    × AllAdmissible turn.others
    × AllSendTurns delay turns

module _ {K T E B : Type 0} (sys : System K T E B) (reliable : IsReliable sys.epoll)
    (delay : ℕ) where
  send_rounds_of-AllTimedSendRounds :
      (turns : List (SendTurn E B))
      → AllSendTurns delay turns
      → AllTimedSendRounds sys delay (ids_of_send_turns turns) (send_rounds_of sys turns)
  send_rounds_of-AllTimedSendRounds [] v = tt
  send_rounds_of-AllTimedSendRounds (turn ∷ turns) v = (
    ids_of_all turn.others,
    ids_of_send_turns turns,
    refl,
    record {
      answers = record { bounded = v.0; errno = v.1 };
      deadline = v.2;
      keeps = λ w r. (others_do-Ready sys reliable turn.others (ids_of_send_turns turns) w v.3 r).1;
      keeps_buf = others_do-buf sys reliable turn.others;
    },
    send_rounds_of-AllTimedSendRounds turns v.4,
  )

  -- It ends, whatever the other operations do: if send(2) never reports EAGAIN, then with more rounds
  -- than bytes that remain `async_write_timeout_impl` has returned a result, under the same
  -- conditions.
  pub interleaved_write_ends :
      (f : Frame) (turns : List (SendTurn E B)) (w : World K T E B)
      → AllSendTurns delay turns
      → Ready sys (ids_of_send_turns turns) w
      → IsWithin sys.cursor w.buf
      → NeverFull (send_rounds_of sys turns)
      → sys.cursor.remain w.buf < length (send_rounds_of sys turns)
      → (x : ReadRet) × ((async_write_timeout_impl sys delay f (send_rounds_of sys turns) w).0
          ≡ ok (some x))
  interleaved_write_ends f turns w v r within never room =
      async_write_timeout_impl_ends sys reliable delay f (ids_of_send_turns turns)
        (send_rounds_of sys turns) w (send_rounds_of-AllTimedSendRounds turns v) r within never room
