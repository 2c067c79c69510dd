-- ===== src/Awaiters/Recv/Streams.antt =====
-- include/async_frame/async_read.h: the buffer that the loops leave, for any awaiter, against the bytes
-- that the rounds received.
mod Step
pub use async_io_framework.Awaiters.Recv.Streams.Step.{IsRound, AllRounds, Awaited, Looped, Bounded}
use async_io_framework.Awaiters.Recv.Streams.Step.{
  read_loop-first, round-IsWithin, last_round, next_round,
}
use async_io_framework.Prelude.{
  ◌<◌, ◌≡◌, refl, sym, true, false, Option, none, some, List, [], ◌∷◌, length, Action, Result, ok,
  inl, inr, arith, Bool-cases,
}
use mathlib.Core.List.{append-nil}
use async_io_framework.Buffer.Filled.{filled, IsWithin}
use async_io_framework.Transfer.{ReadRet}
use async_io_framework.Awaiters.{System, World}
use async_io_framework.Awaiters.Recv.Loop.{Round, reading_ends, read_loop, Arrives, Verdict}

module _ {K T E B : Type 0} (sys : System K T E B) where
  -- With more rounds than bytes that there is room for, a loop has returned a result.
  pub read_rounds_end :
      {Kept : World K T E B → Type 0} (rounds : List (Round (World K T E B))) (w : World K T E B)
      {r : Result (Option ReadRet)} {w' : World K T E B}
      → Looped sys Kept rounds w r w'
      → sys.cursor.remain w.buf < length rounds
      → (x : ReadRet) × (r ≡ ok (some x))
  read_rounds_end rounds w {r} {w'} l room = some_result l.value l.returns l.streamed.verdict
    where
      some_result :
          (x : Option ReadRet)
          → r ≡ ok x
          → Verdict sys.cursor rounds w.buf w'.buf x
          → (y : ReadRet) × (r ≡ ok (some y))
      some_result none e h = absurd (omega arith)
      some_result (some y) e h = (y, e)

  -- `Inv rounds w`: what holds where these rounds are still to come. It gives what a round needs,
  -- each `co_await` keeps it, and it implies `Kept`.
  module _ (Inv : List (Round (World K T E B)) → World K T E B → Type 0)
      (Kept : World K T E B → Type 0)
      (await : Round (World K T E B) → Action (World K T E B) ReadRet)
      (keeps : (rounds : List (Round (World K T E B))) (w : World K T E B) → Inv rounds w → Kept w)
      (bounded : (round : Round (World K T E B)) (rounds : List (Round (World K T E B)))
          (w : World K T E B)
        → Inv (round ∷ rounds) w
        → Bounded sys round)
      (awaits : (round : Round (World K T E B)) (rounds : List (Round (World K T E B)))
          (w : World K T E B)
        → Inv (round ∷ rounds) w
        → Awaited sys (Inv rounds) (await round) round w) where
    pub read_loop-Looped :
        (rounds : List (Round (World K T E B))) (w : World K T E B)
        → Inv rounds w
        → IsWithin sys.cursor w.buf
        → let (r, w') = read_loop sys await rounds w in Looped sys Kept rounds w r w'
    unfolding read_loop
    read_loop-Looped [] w i within = record {
      value = none;
      returns = refl;
      inv = keeps [] w i;
      streamed = record {
        bytes = [];
        arrived = Arrives.stop;
        within = within;
        appended = sym (append-nil (filled sys.cursor w.buf));
        verdict = omega arith;
      };
    }
    read_loop-Looped (round ∷ rounds) w i within =
        let v = bounded round rounds w i in
        let a = awaits round rounds w i in
        elim (Bool-cases (reading_ends sys a.value a.after)) [
          | inl ends ↦
              rw (read_loop-first sys await round rounds w a.value a.after true a.returns ends)
                (record {
                  value =
                      some (record { ec = a.value.ec; len = sys.cursor.read_count a.after.buf });
                  returns = refl;
                  inv = keeps rounds a.after a.inv;
                  streamed = last_round sys await round rounds w within v a ends;
                })
          | inr goes ↦
              rw (read_loop-first sys await round rounds w a.value a.after false a.returns goes) (
                let l =
                  read_loop-Looped rounds a.after a.inv
                    (round-IsWithin sys await round w within v a) in
                record {
                  value = l.value;
                  returns = l.returns;
                  inv = l.inv;
                  streamed =
                      next_round sys await round rounds w _ l.value within v a goes l.streamed;
                })
        ]
