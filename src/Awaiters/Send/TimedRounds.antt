-- ===== src/Awaiters/Send/TimedRounds.antt =====
-- include/async_frame/async_write.h: `async_write_timeout_impl` with `inner_send_timeout_awaiter`,
-- whatever races, whatever times out, and whatever the rest of the program does between its rounds.
use async_io_framework.Prelude.{
  ℕ, ◌+◌, ◌≤◌, ◌<◌, ◌≡◌, ◌∙◌, refl, ap, subst, Bool, some, List, [], ◌∷◌, length, ok, ⊤, inl, inr,
  arith, Bool-cases,
}
use async_io_framework.Epoll.{IsReliable}
use async_io_framework.Buffer.Filled.{IsWithin}
use async_io_framework.Scheduler.{submit_write}
use async_io_framework.Timer.{to_time_point}
use async_io_framework.Transfer.{ReadRet, try_write}
use async_io_framework.Awaiters.{
  System, World, Frame, on_scheduler, is_cancelled, has_timed_out, writing,
}
use async_io_framework.Awaiters.Suspending.{Ready, Timed, suspend-Timed}
use async_io_framework.Awaiters.Calls.{submit_write-Moves}
use async_io_framework.Awaiters.Meanwhile.{suspended-Resumable}
use async_io_framework.Awaiters.Timers.{has_fired, ended-next, Sound-Kept}
use async_io_framework.Awaiters.Send.{
  send_timeout_suspend, send_timeout_register, send_timeout_resume,
}
use async_io_framework.Awaiters.Send.Timeout.{send_timeout_resume-Sound, timeout_result}
use async_io_framework.Awaiters.Send.Loop.{SendRound, send_timeout_await, async_write_timeout_impl}
use async_io_framework.Awaiters.Send.Progress.{
  Answers, NeverFull, SendAwaited, SendLooped, send_rounds_end, write_loop-SendLooped,
}

module _ {K T E B : Type 0} (sys : System K T E B) (delay : ℕ) where
  -- A round that starts its timer at a time for which the deadline is positive, and in which send(2)
  -- keeps to the size that it is given. The rest of the program keeps the agreement, the timers and
  -- the buffer, and leaves `later` of the timer ids that it finds.
  pub record IsTimedSendRound (found later : ℕ) (round : SendRound (World K T E B)) : Type 0 where
    pub answers : Answers sys round
    pub deadline : 1 ≤ to_time_point round.now delay
    pub keeps : (w : World K T E B) → Ready sys found w → Ready sys later (round.meanwhile w)
    pub keeps_buf : (w : World K T E B) → (round.meanwhile w).buf ≡ w.buf

  -- Each round takes one id, and the rest of the program some more in the meantime.
  abbrev pub AllTimedSendRounds : ℕ → List (SendRound (World K T E B)) → Type 0
  AllTimedSendRounds ids [] = ⊤
  AllTimedSendRounds ids (round ∷ rounds) =
      (taken : ℕ) × (later : ℕ) × (ids ≡ later + taken + 1)
      × IsTimedSendRound (later + taken) later round
      × AllTimedSendRounds later rounds

module _ {K T E B : Type 0} (sys : System K T E B) (reliable : IsReliable sys.epoll)
    (delay : ℕ) where
  pub send_timeout_suspend-Timed :
      (race : Bool) (now ids : ℕ) (f : Frame) (w : World K T E B)
      → Ready sys (ids + 1) w
      → 1 ≤ to_time_point now delay
      → Timed sys ids (send_timeout_suspend sys race now delay f) w
  unfolding send_timeout_suspend send_timeout_register
  send_timeout_suspend-Timed race now ids f w r pos =
      suspend-Timed sys reliable race now delay ids f
        (on_scheduler (submit_write sys.epoll f.conn_fd (writing f.conn_fd f.operation))) w r pos
        (submit_write-Moves sys reliable f.conn_fd f.conn_fd f.operation w r.agrees)

module _ {K T E B : Type 0} (sys : System K T E B) (reliable : IsReliable sys.epoll) (delay : ℕ)
    (f : Frame) where
  resumes :
      (round : SendRound (World K T E B)) (ids : ℕ) (w v : World K T E B)
      → Ready sys ids v
      → v.buf ≡ w.buf
      → SendAwaited sys
          (Ready sys ids)
          (λ _. send_timeout_resume sys round.left (round.send (sys.cursor.remain v.buf)) f v)
          round
          w
  resumes round ids w v r same =
      let outcome = round.send (sys.cursor.remain v.buf) in
      let (s, sound, _) =
        send_timeout_resume-Sound sys reliable round.left outcome f v r.agrees
          (Sound-Kept sys.timerfd v.timer r.timers) in
      record {
        value = (timeout_result sys round.left outcome f v).0;
        after = _;
        returns = s.returns;
        inv = record {
          agrees = s.agrees;
          timers = sound;
          room =
              omega
                (arith, ended-next sys.timerfd f (has_fired sys round.left f v) v.timer, r.room);
        };
        effect = elim (Bool-cases (is_cancelled sys f v)) [
          | inl h ↦ inl (rw h (refl, refl, refl, same))
          | inr h ↦ elim (Bool-cases (has_timed_out sys round.left f v)) [
            | inl late ↦ inl (rw (h, late) (refl, refl, refl, same))
            | inr early ↦ inr (
                rw (h, early)
                  (ap (λ b. try_write sys.cursor (round.send (sys.cursor.remain b)) b) same))
          ]
        ];
      }

  awaits :
      (round : SendRound (World K T E B)) (taken later : ℕ) (w : World K T E B)
      → IsTimedSendRound sys delay (later + taken) later round
      → Ready sys (later + taken + 1) w
      → SendAwaited sys (Ready sys later) (send_timeout_await sys delay f round) round w
  unfolding send_timeout_await
  awaits round taken later w v r =
      let s =
        send_timeout_suspend-Timed sys reliable delay round.race round.now (later + taken) f w r
          v.deadline in
      let q =
        suspended-Resumable (Ready sys (later + taken)) (Ready sys later)
          (send_timeout_suspend sys round.race round.now delay f) round.meanwhile w s.value s.after
          s.returns s.ready s.same_buf
          (λ r. record { agrees = r.agrees; timers = r.timers; room = omega (arith, r.room) })
          v.keeps v.keeps_buf in
      let e = resumes round later w q.found q.holds q.same_buf in
      record {
        value = e.value;
        after = e.after;
        returns =
            q.resumes
              (λ w. send_timeout_resume sys round.left (round.send (sys.cursor.remain w.buf)) f w)
            ∙ e.returns;
        inv = e.inv;
        effect = e.effect;
      }

  -- `async_write_timeout_impl` over any number of rounds, whatever races, whether they time out or
  -- not, and whatever the rest of the program does in between: it does not throw, table and epoll
  -- agree, the timers are valid and the timerfd is in step with them, and the stored bytes stay. A
  -- result reports by how many bytes the offset has moved; with no error, all bytes are sent or in
  -- some round send(2) took none. The rest of the program keeps all this and does not touch the
  -- buffer, there are timer ids for all rounds and for it, deadlines are positive, send(2) keeps to
  -- the size that it is given, and an errno is not 0.
  pub async_write_timeout_impl-SendLooped :
      (ids : ℕ) (rounds : List (SendRound (World K T E B))) (w : World K T E B)
      → AllTimedSendRounds sys delay ids rounds
      → Ready sys ids w
      → IsWithin sys.cursor w.buf
      → let (r, w') = async_write_timeout_impl sys delay f rounds w in
        SendLooped sys (Ready sys 0) 0 rounds w r w'
  unfolding async_write_timeout_impl
  async_write_timeout_impl-SendLooped ids rounds w v r within =
      write_loop-SendLooped sys
        (λ rounds w. (ids : ℕ) × AllTimedSendRounds sys delay ids rounds × Ready sys ids w)
        (Ready sys 0) (send_timeout_await sys delay f)
        (λ rounds w i. record {
          agrees = i.2.agrees;
          timers = i.2.timers;
          room = omega (arith, i.2.room);
        })
        (λ round rounds w i. i.1.3.answers)
        (λ round rounds w i.
          let e = awaits round i.1.0 i.1.1 w i.1.3 (subst (λ n. Ready sys n w) i.1.2 i.2) in
          record {
            value = e.value;
            after = e.after;
            returns = e.returns;
            inv = (i.1.1, i.1.4, e.inv);
            effect = e.effect;
          })
        0 rounds w (ids, v, r) within
        (omega (arith, sys.cursor.remain_lem w.buf within.small within.fits, within.small))

  -- The loop with timeouts ends: if send(2) never reports EAGAIN, then with more rounds than bytes
  -- that remain `async_write_timeout_impl` has returned a result, under the same conditions.
  pub async_write_timeout_impl_ends :
      (ids : ℕ) (rounds : List (SendRound (World K T E B))) (w : World K T E B)
      → AllTimedSendRounds sys delay ids rounds
      → Ready sys ids w
      → IsWithin sys.cursor w.buf
      → NeverFull rounds
      → sys.cursor.remain w.buf < length rounds
      → (r : ReadRet) × ((async_write_timeout_impl sys delay f rounds w).0 ≡ ok (some r))
  async_write_timeout_impl_ends ids rounds w v r within never room =
      send_rounds_end sys 0 rounds w (async_write_timeout_impl-SendLooped ids rounds w v r within)
        never room
