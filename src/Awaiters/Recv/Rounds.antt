-- ===== src/Awaiters/Recv/Rounds.antt =====
-- include/async_frame/async_read.h: `async_read_impl` with `inner_recv_awaiter`, whatever races and
-- whatever the rest of the program does between its rounds.
use async_io_framework.Prelude.{
  ◌<◌, ◌≡◌, ◌∙◌, refl, ap, Bool, some, List, length, ok, inl, inr, Bool-cases,
}
use async_io_framework.Epoll.{IsReliable}
use async_io_framework.Buffer.Filled.{IsWithin}
use async_io_framework.Scheduler.{submit_read}
use async_io_framework.Scheduler.Agreement.{Agrees}
use async_io_framework.Transfer.{ReadRet, try_read}
use async_io_framework.Awaiters.{System, World, Frame, on_scheduler, is_cancelled, reading}
use async_io_framework.Awaiters.Recv.{recv_suspend, recv_register, recv_resume}
use async_io_framework.Awaiters.Recv.Loop.{Round, recv_await, async_read_impl}
use async_io_framework.Awaiters.Recv.Streams.{
  read_rounds_end, IsRound, AllRounds, Awaited, Looped, read_loop-Looped,
}
use async_io_framework.Awaiters.Recv.Registration.{recv_resume-Ends, resume_result}
use async_io_framework.Awaiters.Suspending.{Calm, register-Calm, suspend-Calm}
use async_io_framework.Awaiters.Meanwhile.{suspended-Resumable}
use async_io_framework.Awaiters.Calls.{submit_read-Moves}

module _ {K T E B : Type 0} (sys : System K T E B) (reliable : IsReliable sys.epoll) where
  abbrev Inv : World K T E B → Type 0
  Inv w = Agrees sys.epoll w.scheduler

  pub recv_suspend-Calm :
      (race : Bool) (f : Frame) (w : World K T E B) → Inv w → Calm sys (recv_suspend sys race f) w
  unfolding recv_suspend recv_register
  recv_suspend-Calm race f w a = suspend-Calm sys reliable f (recv_register sys race f) w a (
      register-Calm sys reliable race f
        (on_scheduler (submit_read sys.epoll f.conn_fd (reading 0 f.operation))) w
        (submit_read-Moves sys reliable f.conn_fd 0 f.operation w a))

  resumes :
      (f : Frame) (round : Round (World K T E B)) (w v : World K T E B)
      → Inv v
      → v.buf ≡ w.buf
      → Awaited sys Inv (λ _. recv_resume sys (round.recv (sys.cursor.remain v.buf)) f v) round w
  resumes f round w v a same =
      let outcome = round.recv (sys.cursor.remain v.buf) in
      let s = recv_resume-Ends sys reliable outcome f v a in
      record {
        value = (resume_result sys outcome f v).0;
        after = _;
        returns = s.returns;
        inv = s.agrees;
        effect = elim (Bool-cases (is_cancelled sys f v)) [
          | inl h ↦ inl (rw h (refl, same))
          | inr h ↦
              inr (rw h (ap (λ b. try_read sys.cursor (round.recv (sys.cursor.remain b)) b) same))
        ];
      }

  awaits :
      (f : Frame) (round : Round (World K T E B)) (w : World K T E B)
      → IsRound sys Inv round
      → Inv w
      → Awaited sys Inv (recv_await sys f round) round w
  unfolding recv_await
  awaits f round w v a =
      let s = recv_suspend-Calm round.race f w a in
      let w1 : World K T E B = record {
        scheduler = s.ends.after;
        timer = w.timer;
        token = s.token;
        buf = w.buf;
      } in
      let q =
        suspended-Resumable Inv Inv (recv_suspend sys round.race f) round.meanwhile w s.value w1
          s.ends.returns s.ends.agrees refl (λ a. a) v.keeps v.keeps_buf in
      let r = resumes f round w q.found q.holds q.same_buf in
      record {
        value = r.value;
        after = r.after;
        returns =
            q.resumes (λ w. recv_resume sys (round.recv (sys.cursor.remain w.buf)) f w) ∙ r.returns;
        inv = r.inv;
        effect = r.effect;
      }

  pub async_read_impl-Looped :
      (f : Frame) (rounds : List (Round (World K T E B))) (w : World K T E B)
      → AllRounds sys (λ w. Agrees sys.epoll w.scheduler) rounds
      → Agrees sys.epoll w.scheduler
      → IsWithin sys.cursor w.buf
      → let (r, w') = async_read_impl sys f rounds w in
        Looped sys (λ w. Agrees sys.epoll w.scheduler) rounds w r w'
  unfolding async_read_impl
  async_read_impl-Looped f rounds w v a within =
      read_loop-Looped sys (λ rounds w. AllRounds sys Inv rounds × Inv w) Inv (recv_await sys f)
        (λ rounds w i. i.1) (λ round rounds w i. i.0.0.bounded)
        (λ round rounds w i.
          let m = awaits f round w i.0.0 i.1 in
          record {
            value = m.value;
            after = m.after;
            returns = m.returns;
            inv = (i.0.1, m.inv);
            effect = m.effect;
          })
        rounds w (v, a) within

  -- The loop ends: with more rounds than bytes that the buffer has room for, `async_read_impl` has
  -- returned a result, under the same conditions.
  pub async_read_impl_ends :
      (f : Frame) (rounds : List (Round (World K T E B))) (w : World K T E B)
      → AllRounds sys (λ w. Agrees sys.epoll w.scheduler) rounds
      → Agrees sys.epoll w.scheduler
      → IsWithin sys.cursor w.buf
      → sys.cursor.remain w.buf < length rounds
      → (r : ReadRet) × ((async_read_impl sys f rounds w).0 ≡ ok (some r))
  async_read_impl_ends f rounds w v a within room =
      read_rounds_end sys rounds w (async_read_impl-Looped f rounds w v a within) room
