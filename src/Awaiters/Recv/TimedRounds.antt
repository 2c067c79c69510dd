-- ===== src/Awaiters/Recv/TimedRounds.antt =====
-- include/async_frame/async_read.h: `async_read_timeout_impl` with `inner_recv_timeout_awaiter`,
-- whatever races, whatever times out, and whatever the rest of the program does between its rounds.
use async_io_framework.Prelude.{
  ℕ, ◌+◌, ◌≤◌, ◌<◌, ◌≡◌, ◌∙◌, refl, ap, subst, Bool, false, some, List, [], ◌∷◌, length, ok, ⊤, inl,
  inr, arith, ◌==◌, Bool-cases,
}
use async_io_framework.Epoll.{IsReliable}
use async_io_framework.Buffer.Filled.{IsWithin}
use async_io_framework.Scheduler.{submit_read}
use async_io_framework.Timer.{to_time_point}
use async_io_framework.Transfer.{ReadRet, try_read}
use async_io_framework.Transfer.Laws.{bytes_of}
use async_io_framework.Awaiters.{
  System, World, Frame, on_scheduler, is_cancelled, has_timed_out, reading,
}
use async_io_framework.Awaiters.Suspending.{Ready, Timed, suspend-Timed}
use async_io_framework.Awaiters.Calls.{submit_read-Moves}
use async_io_framework.Awaiters.Meanwhile.{suspended-Resumable}
use async_io_framework.Awaiters.Timers.{has_fired, ended-next, Sound-Kept}
use async_io_framework.Awaiters.Recv.{
  recv_timeout_suspend, recv_timeout_register, recv_timeout_resume,
}
use async_io_framework.Awaiters.Recv.Timeout.{recv_timeout_resume-Sound, timeout_result}
use async_io_framework.Awaiters.Recv.Loop.{Round, recv_timeout_await, async_read_timeout_impl}
use async_io_framework.Awaiters.Recv.Streams.{Awaited, Looped, read_rounds_end, read_loop-Looped}

module _ {K T E B : Type 0} (sys : System K T E B) (delay : ℕ) where
  -- A round that starts its timer at a time for which the deadline is positive, and in which recv(2)
  -- keeps to the size that it is given. The rest of the program keeps the agreement, the timers and
  -- the buffer, and leaves `later` of the timer ids that it finds.
  pub record IsTimedRound (found later : ℕ) (round : Round (World K T E B)) : Type 0 where
    pub bounded : (n : ℕ) → length (bytes_of (round.recv n)) ≤ n
    pub deadline : 1 ≤ to_time_point round.now delay
    pub keeps : (w : World K T E B) → Ready sys found w → Ready sys later (round.meanwhile w)
    pub keeps_buf : (w : World K T E B) → (round.meanwhile w).buf ≡ w.buf

  -- Each round takes one id, and the rest of the program some more in the meantime.
  abbrev pub AllTimedRounds : ℕ → List (Round (World K T E B)) → Type 0
  AllTimedRounds ids [] = ⊤
  AllTimedRounds ids (round ∷ rounds) =
      (taken : ℕ) × (later : ℕ) × (ids ≡ later + taken + 1)
      × IsTimedRound (later + taken) later round
      × AllTimedRounds later rounds

module _ {K T E B : Type 0} (sys : System K T E B) (reliable : IsReliable sys.epoll)
    (delay : ℕ) where
  pub recv_timeout_suspend-Timed :
      (race : Bool) (now ids : ℕ) (f : Frame) (w : World K T E B)
      → Ready sys (ids + 1) w
      → 1 ≤ to_time_point now delay
      → Timed sys ids (recv_timeout_suspend sys race now delay f) w
  unfolding recv_timeout_suspend recv_timeout_register
  recv_timeout_suspend-Timed race now ids f w r pos =
      suspend-Timed sys reliable race now delay ids f
        (on_scheduler (submit_read sys.epoll f.conn_fd (reading f.conn_fd f.operation))) w r pos
        (submit_read-Moves sys reliable f.conn_fd f.conn_fd f.operation w r.agrees)

module _ {K T E B : Type 0} (sys : System K T E B) (reliable : IsReliable sys.epoll) (delay : ℕ)
    (f : Frame) (apart : (f.conn_fd == f.timer_fd) ≡ false) where
  resumes :
      (round : Round (World K T E B)) (ids : ℕ) (w v : World K T E B)
      → Ready sys ids v
      → v.buf ≡ w.buf
      → Awaited sys
          (Ready sys ids)
          (λ _. recv_timeout_resume sys round.left (round.recv (sys.cursor.remain v.buf)) f v)
          round
          w
  resumes round ids w v r same =
      let outcome = round.recv (sys.cursor.remain v.buf) in
      let (s, sound, _) =
        recv_timeout_resume-Sound sys reliable round.left outcome f v r.agrees
          (Sound-Kept sys.timerfd v.timer r.timers) apart in
      record {
        value = (timeout_result sys round.left outcome f v).0;
        after = _;
        returns = s.returns;
        inv = record {
          agrees = s.agrees;
          timers = sound;
          room =
              omega
                (arith, ended-next sys.timerfd f (has_fired sys round.left f v) v.timer, r.room);
        };
        effect = elim (Bool-cases (is_cancelled sys f v)) [
          | inl h ↦ inl (rw h (refl, same))
          | inr h ↦ elim (Bool-cases (has_timed_out sys round.left f v)) [
            | inl late ↦ inl (rw (h, late) (refl, same))
            | inr early ↦ inr (
                rw (h, early)
                  (ap (λ b. try_read sys.cursor (round.recv (sys.cursor.remain b)) b) same))
          ]
        ];
      }

  awaits :
      (round : Round (World K T E B)) (taken later : ℕ) (w : World K T E B)
      → IsTimedRound sys delay (later + taken) later round
      → Ready sys (later + taken + 1) w
      → Awaited sys (Ready sys later) (recv_timeout_await sys delay f round) round w
  unfolding recv_timeout_await
  awaits round taken later w v r =
      let s =
        recv_timeout_suspend-Timed sys reliable delay round.race round.now (later + taken) f w r
          v.deadline in
      let q =
        suspended-Resumable (Ready sys (later + taken)) (Ready sys later)
          (recv_timeout_suspend sys round.race round.now delay f) round.meanwhile w s.value s.after
          s.returns s.ready s.same_buf
          (λ r. record { agrees = r.agrees; timers = r.timers; room = omega (arith, r.room) })
          v.keeps v.keeps_buf in
      let e = resumes round later w q.found q.holds q.same_buf in
      record {
        value = e.value;
        after = e.after;
        returns =
            q.resumes
              (λ w. recv_timeout_resume sys round.left (round.recv (sys.cursor.remain w.buf)) f w)
            ∙ e.returns;
        inv = e.inv;
        effect = e.effect;
      }

  pub async_read_timeout_impl-Looped :
      (ids : ℕ) (rounds : List (Round (World K T E B))) (w : World K T E B)
      → AllTimedRounds sys delay ids rounds
      → Ready sys ids w
      → IsWithin sys.cursor w.buf
      → let (r, w') = async_read_timeout_impl sys delay f rounds w in
        Looped sys (Ready sys 0) rounds w r w'
  unfolding async_read_timeout_impl
  async_read_timeout_impl-Looped ids rounds w v r within =
      read_loop-Looped sys
        (λ rounds w. (ids : ℕ) × AllTimedRounds sys delay ids rounds × Ready sys ids w)
        (Ready sys 0) (recv_timeout_await sys delay f)
        (λ rounds w i. record {
          agrees = i.2.agrees;
          timers = i.2.timers;
          room = omega (arith, i.2.room);
        })
        (λ round rounds w i. i.1.3.bounded)
        (λ round rounds w i.
          let e = awaits round i.1.0 i.1.1 w i.1.3 (subst (λ n. Ready sys n w) i.1.2 i.2) in
          record {
            value = e.value;
            after = e.after;
            returns = e.returns;
            inv = (i.1.1, i.1.4, e.inv);
            effect = e.effect;
          })
        rounds w (ids, v, r) within

  -- The loop with timeouts ends: with more rounds than bytes that the buffer has room for,
  -- `async_read_timeout_impl` has returned a result, under the same conditions.
  pub async_read_timeout_impl_ends :
      (ids : ℕ) (rounds : List (Round (World K T E B))) (w : World K T E B)
      → AllTimedRounds sys delay ids rounds
      → Ready sys ids w
      → IsWithin sys.cursor w.buf
      → sys.cursor.remain w.buf < length rounds
      → (r : ReadRet) × ((async_read_timeout_impl sys delay f rounds w).0 ≡ ok (some r))
  async_read_timeout_impl_ends ids rounds w v r within room =
      read_rounds_end sys rounds w (async_read_timeout_impl-Looped ids rounds w v r within) room
