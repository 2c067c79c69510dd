-- ===== src/Awaiters/Send/Rounds.antt =====
-- include/async_frame/async_write.h: `async_write_impl` with `inner_send_awaiter`, whatever races and
-- whatever the rest of the program does between its rounds.
use async_io_framework.Prelude.{
  ◌<◌, ◌≡◌, ◌∙◌, refl, ap, Bool, some, List, length, ok, inl, inr, arith, Bool-cases,
}
use async_io_framework.Epoll.{IsReliable}
use async_io_framework.Buffer.Filled.{IsWithin}
use async_io_framework.Scheduler.{submit_write}
use async_io_framework.Scheduler.Agreement.{Agrees}
use async_io_framework.Transfer.{ReadRet, try_write}
use async_io_framework.Awaiters.{System, World, Frame, on_scheduler, is_cancelled, writing}
use async_io_framework.Awaiters.Send.{send_suspend, send_register, send_resume}
use async_io_framework.Awaiters.Send.Loop.{SendRound, send_await, async_write_impl}
use async_io_framework.Awaiters.Send.Progress.{
  NeverFull, send_rounds_end, IsSendRound, AllSendRounds, SendAwaited, SendLooped,
  write_loop-SendLooped,
}
use async_io_framework.Awaiters.Send.Registration.{send_resume-Ends, resume_result}
use async_io_framework.Awaiters.Suspending.{Calm, register-Calm, suspend-Calm}
use async_io_framework.Awaiters.Meanwhile.{suspended-Resumable}
use async_io_framework.Awaiters.Calls.{submit_write-Moves}

module _ {K T E B : Type 0} (sys : System K T E B) (reliable : IsReliable sys.epoll) where
  abbrev Inv : World K T E B → Type 0
  Inv w = Agrees sys.epoll w.scheduler

  pub send_suspend-Calm :
      (race : Bool) (f : Frame) (w : World K T E B) → Inv w → Calm sys (send_suspend sys race f) w
  unfolding send_suspend send_register
  send_suspend-Calm race f w a = suspend-Calm sys reliable f (send_register sys race f) w a (
      register-Calm sys reliable race f
        (on_scheduler (submit_write sys.epoll f.conn_fd (writing 0 f.operation))) w
        (submit_write-Moves sys reliable f.conn_fd 0 f.operation w a))

  resumes :
      (f : Frame) (round : SendRound (World K T E B)) (w v : World K T E B)
      → Inv v
      → v.buf ≡ w.buf
      → SendAwaited sys Inv
          (λ _. send_resume sys (round.send (sys.cursor.remain v.buf)) f v)
          round
          w
  resumes f round w v a same =
      let outcome = round.send (sys.cursor.remain v.buf) in
      let s = send_resume-Ends sys reliable outcome f v a in
      record {
        value = (resume_result sys outcome f v).0;
        after = _;
        returns = s.returns;
        inv = s.agrees;
        effect = elim (Bool-cases (is_cancelled sys f v)) [
          | inl h ↦ inl (rw h (refl, refl, refl, same))
          | inr h ↦
              inr (rw h (ap (λ b. try_write sys.cursor (round.send (sys.cursor.remain b)) b) same))
        ];
      }

  awaits :
      (f : Frame) (round : SendRound (World K T E B)) (w : World K T E B)
      → IsSendRound sys Inv round
      → Inv w
      → SendAwaited sys Inv (send_await sys f round) round w
  unfolding send_await
  awaits f round w v a =
      let s = send_suspend-Calm round.race f w a in
      let w1 : World K T E B = record {
        scheduler = s.ends.after;
        timer = w.timer;
        token = s.token;
        buf = w.buf;
      } in
      let q =
        suspended-Resumable Inv Inv (send_suspend sys round.race f) round.meanwhile w s.value w1
          s.ends.returns s.ends.agrees refl (λ a. a) v.keeps v.keeps_buf in
      let r = resumes f round w q.found q.holds q.same_buf in
      record {
        value = r.value;
        after = r.after;
        returns =
            q.resumes (λ w. send_resume sys (round.send (sys.cursor.remain w.buf)) f w) ∙ r.returns;
        inv = r.inv;
        effect = r.effect;
      }

  pub async_write_impl-SendLooped :
      (f : Frame) (rounds : List (SendRound (World K T E B))) (w : World K T E B)
      → AllSendRounds sys (λ w. Agrees sys.epoll w.scheduler) rounds
      → Agrees sys.epoll w.scheduler
      → IsWithin sys.cursor w.buf
      → let (r, w') = async_write_impl sys f rounds w in
        SendLooped sys (λ w. Agrees sys.epoll w.scheduler) 0 rounds w r w'
  unfolding async_write_impl
  async_write_impl-SendLooped f rounds w v a within =
      write_loop-SendLooped sys (λ rounds w. AllSendRounds sys Inv rounds × Inv w) Inv
        (send_await sys f) (λ rounds w i. i.1) (λ round rounds w i. i.0.0.answers)
        (λ round rounds w i.
          let m = awaits f round w i.0.0 i.1 in
          record {
            value = m.value;
            after = m.after;
            returns = m.returns;
            inv = (i.0.1, m.inv);
            effect = m.effect;
          })
        0 rounds w (v, a) within
        (omega (arith, sys.cursor.remain_lem w.buf within.small within.fits, within.small))

  -- The loop ends: if send(2) never reports EAGAIN, then with more rounds than bytes that remain
  -- `async_write_impl` has returned a result, under the same conditions.
  pub async_write_impl_ends :
      (f : Frame) (rounds : List (SendRound (World K T E B))) (w : World K T E B)
      → AllSendRounds sys (λ w. Agrees sys.epoll w.scheduler) rounds
      → Agrees sys.epoll w.scheduler
      → IsWithin sys.cursor w.buf
      → NeverFull rounds
      → sys.cursor.remain w.buf < length rounds
      → (r : ReadRet) × ((async_write_impl sys f rounds w).0 ≡ ok (some r))
  async_write_impl_ends f rounds w v a within never room =
      send_rounds_end sys 0 rounds w (async_write_impl-SendLooped f rounds w v a within) never room
