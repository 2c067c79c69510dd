-- ===== src/Awaiters/Send/Progress.antt =====
-- include/async_frame/async_write.h: the byte count, the buffer and the length of the loops, for any
-- awaiter.
mod Step
pub use async_io_framework.Awaiters.Send.Progress.Step.{
  Answers, IsSendRound, AllSendRounds, SendAwaited, SendLooped,
}
use async_io_framework.Awaiters.Send.Progress.Step.{
  write_loop-first, round-Sent, last_round, next_round,
}
use async_io_framework.Prelude.{
  length, ℕ, ◌+◌, ◌<◌, ◌≡◌, ◌≢◌, refl, true, false, Option, none, some, List, [], ◌∷◌, Action,
  Result, ok, ⊤, inl, inr, arith, Bool-cases,
}
use async_io_framework.Prelude.Words.{u64_mod, add64, add64_exact}
use async_io_framework.Buffer.Filled.{IsWithin}
use async_io_framework.Transfer.{eagain, ReadRet, WriteRet, SendOutcome}
use async_io_framework.Awaiters.{System, World}
use async_io_framework.Awaiters.Send.Loop.{
  SendRound, is_in_progress, write_loop, Blocked, SendVerdict,
}

-- No round meets a full socket.
abbrev pub NeverFull : {W : Type 0} → List (SendRound W) → Type 0
NeverFull [] = ⊤
NeverFull (round ∷ rounds) =
    ((n : ℕ) → round.send n ≢ SendOutcome.send_failed eagain) × NeverFull rounds

Blocked-NeverFull :
    {W : Type 0} (rounds : List (SendRound W)) (k : ℕ) → Blocked rounds k → NeverFull rounds → k ≡ 0
Blocked-NeverFull rounds k Blocked.stop never = refl
Blocked-NeverFull rounds k (Blocked.again round n full b) never = absurd (never.0 n full)
Blocked-NeverFull rounds k (Blocked.goes round b) never = Blocked-NeverFull _ k b never.1

module _ {K T E B : Type 0} (sys : System K T E B) where
  -- With more rounds than bytes that remain, a loop that never meets a full socket has returned.
  pub send_rounds_end :
      {Kept : World K T E B → Type 0} (total : ℕ) (rounds : List (SendRound (World K T E B)))
      (w : World K T E B) {r : Result (Option ReadRet)} {w' : World K T E B}
      → SendLooped sys Kept total rounds w r w'
      → NeverFull rounds
      → sys.cursor.remain w.buf < length rounds
      → (x : ReadRet) × (r ≡ ok (some x))
  send_rounds_end total rounds w {r} {w'} l never room =
      some_result l.value l.returns l.sending.verdict
    where
      some_result :
          (x : Option ReadRet)
          → r ≡ ok x
          → SendVerdict sys.cursor total rounds w.buf w'.buf x
          → (y : ReadRet) × (r ≡ ok (some y))
      some_result none e (k, blocked, bound) =
          absurd (omega (arith, Blocked-NeverFull rounds k blocked never))
      some_result (some y) e h = (y, e)

  -- `Inv rounds w`: what holds where these rounds are still to come. It gives what a round needs,
  -- each `co_await` keeps it, and it implies `Kept`.
  module _ (Inv : List (SendRound (World K T E B)) → World K T E B → Type 0)
      (Kept : World K T E B → Type 0)
      (await : SendRound (World K T E B) → Action (World K T E B) WriteRet)
      (keeps : (rounds : List (SendRound (World K T E B))) (w : World K T E B)
        → Inv rounds w
        → Kept w)
      (answers : (round : SendRound (World K T E B)) (rounds : List (SendRound (World K T E B)))
          (w : World K T E B)
        → Inv (round ∷ rounds) w
        → Answers sys round)
      (awaits : (round : SendRound (World K T E B)) (rounds : List (SendRound (World K T E B)))
          (w : World K T E B)
        → Inv (round ∷ rounds) w
        → SendAwaited sys (Inv rounds) (await round) round w) where
    pub write_loop-SendLooped :
        (total : ℕ) (rounds : List (SendRound (World K T E B))) (w : World K T E B)
        → Inv rounds w
        → IsWithin sys.cursor w.buf
        → total + sys.cursor.remain w.buf < u64_mod
        → let (r, w') = write_loop sys await total rounds w in
          SendLooped sys Kept total rounds w r w'
    unfolding write_loop
    write_loop-SendLooped total [] w i within room = record {
      value = none;
      returns = refl;
      inv = keeps [] w i;
      sending = record {
        within = within;
        kept = refl;
        moved = omega arith;
        verdict = (0, Blocked.stop, omega arith);
      };
    }
    write_loop-SendLooped total (round ∷ rounds) w i within room =
        let v = answers round rounds w i in
        let a = awaits round rounds w i in
        elim (Bool-cases (is_in_progress a.value.status)) [
          | inl going ↦
              let (within', _, _, less, _, _) = round-Sent sys await round w within v a in
              let sum = add64_exact total a.value.len (omega (arith, less)) in
              let l =
                write_loop-SendLooped (total + a.value.len) rounds a.after a.inv within'
                  (omega (arith, less)) in
              rw
                (
                  write_loop-first sys await total round rounds w a.value a.after true a.returns
                      going,
                  sum,
                )
                (record {
                  value = l.value;
                  returns = l.returns;
                  inv = l.inv;
                  sending =
                      next_round sys await total round rounds w _ l.value within v a going
                        l.sending;
                })
          | inr over ↦
              rw
                (write_loop-first sys await total round rounds w a.value a.after false a.returns
                  over)
                (record {
                  value = some (record { ec = a.value.ec; len = add64 total a.value.len });
                  returns = refl;
                  inv = keeps rounds a.after a.inv;
                  sending = last_round sys await total round rounds w within room v a over;
                })
        ]
