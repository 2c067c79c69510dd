-- ===== src/Awaiters/Suspending.antt =====
-- include/async_frame/async_read.h and include/async_frame/async_write.h: what the `await_suspend` of
-- the inner awaiters have in common, whatever races with them.
mod Untimed
pub use async_io_framework.Awaiters.Suspending.Untimed.{
  Calm, register-Calm, suspend-Calm, submits_token,
}
use async_io_framework.Awaiters.Suspending.Untimed.{submits_token-Calm}
use async_io_framework.Prelude.{
  ℕ, ◌+◌, ◌≤◌, ◌<◌, ◌≡◌, ◌∙◌, refl, ap, Bool, true, false, Action, Result, ok, ⊤, ◌>>◌, inl, inr,
  pure, branch, arith, Bool-cases,
}
use async_io_framework.Prelude.Words.{u64_mod}
use async_io_framework.Epoll.{IsReliable}
use async_io_framework.Scheduler.Agreement.{Agrees}
use async_io_framework.Timer.{TimerEvent, set_timer, to_time_point}
use async_io_framework.Timer.Total.{timer_total}
use async_io_framework.Timer.Counter.{refresh-next, set_timer-next}
use async_io_framework.Awaiters.{
  System, World, Frame, on_timer, is_cancelled, reading, refresh_timer_registration,
}
use async_io_framework.Awaiters.Steps.{Ends, bind-ok, Table}
use async_io_framework.Awaiters.Timers.{
  Sound, started, refresh-Sound, set_timer-Sound, Sound-Kept, refresh_timer_registration-Ends,
}

module _ {K T E B : Type 0} (sys : System K T E B) where
  -- The timed `await_suspend` after the submission of the operation.
  abbrev pub arms : Bool → ℕ → ℕ → Frame → Action (World K T E B) Bool
  arms race now delay f =
      on_timer (set_timer sys.timerfd now (reading f.timer_fd f.timer_read) delay)
      >> (refresh_timer_registration sys f.timer_fd >> submits_token sys race f)

  -- The agreement, timers in order with a live one current, and some number of timer ids that can
  -- still be given out.
  pub record Ready (ids : ℕ) (w : World K T E B) : Type 0 where
    pub agrees : Agrees sys.epoll w.scheduler
    pub timers : Sound sys.timerfd w.timer
    pub room : w.timer.next_timer_id + ids < u64_mod

  -- A call that returns, leaves the buffer, and afterwards `later` timer ids are left.
  pub record Timed (later : ℕ) {A : Type 0} (m : Action (World K T E B) A) (w : World K T E B)
      : Type 0 where
    pub value : A
    pub after : World K T E B
    pub returns : m w ≡ (ok value, after)
    pub ready : Ready later after
    pub same_buf : after.buf ≡ w.buf

module _ {K T E B : Type 0} (sys : System K T E B) (reliable : IsReliable sys.epoll) where
  arms-Timed :
      (race : Bool) (now delay ids : ℕ) (f : Frame) (w : World K T E B)
      → Ready sys (ids + 1) w
      → 1 ≤ to_time_point now delay
      → Timed sys ids (arms sys race now delay f) w
  arms-Timed race now delay ids f w r pos =
      let set = set_timer sys.timerfd now (reading f.timer_fd f.timer_read) delay in
      let t1 : TimerEvent T = (set w.timer).1 in
      let w1 : World K T E B = record w { timer = t1 } in
      let one : w.timer.next_timer_id + 1 < u64_mod = omega (arith, r.room) in
      let total = (timer_total sys.timerfd now (reading f.timer_fd f.timer_read) delay w.timer).2 in
      let sound =
        (set_timer-Sound sys.timerfd now f.timer_fd f.timer_read delay w.timer
          (Sound-Kept sys.timerfd w.timer r.timers) pos one).0 in
      let kept = Sound-Kept sys.timerfd t1 sound in
      let e = refresh_timer_registration-Ends sys reliable f.timer_fd w1 r.agrees kept in
      let w2 : World K T E B = record w {
        timer = started sys.timerfd now delay f w.timer;
        scheduler = e.after;
      } in
      let s = submits_token-Calm sys reliable race f w2 e.agrees in
      record {
        value = s.value;
        after = record w2 { scheduler = s.ends.after; token = s.token };
        returns =
            bind-ok (on_timer set)
              (λ _. refresh_timer_registration sys f.timer_fd >> submits_token sys race f) w tt w1
              (ap (λ r. (r, w1)) total)
            ∙ bind-ok (refresh_timer_registration sys f.timer_fd) (λ _. submits_token sys race f) w1
                tt w2 e.returns
            ∙ s.ends.returns;
        ready = record {
          agrees = s.ends.agrees;
          timers = (refresh-Sound sys.timerfd t1 kept).0;
          room = omega (
            arith,
            refresh-next sys.timerfd t1,
            set_timer-next sys.timerfd now (reading f.timer_fd f.timer_read) delay w.timer one,
            r.room,
          );
        };
        same_buf = refl;
      }

  -- A timed `await_suspend` uses one timer id at most.
  pub suspend-Timed :
      (race : Bool) (now delay ids : ℕ) (f : Frame) (submit : Action (World K T E B) ⊤)
      (w : World K T E B) {slots : Table}
      → Ready sys (ids + 1) w
      → 1 ≤ to_time_point now delay
      → Ends sys submit w tt w.timer w.token w.buf slots
      → Timed sys ids
          (branch (is_cancelled sys f) (pure false) (submit >> arms sys race now delay f))
          w
  suspend-Timed race now delay ids f submit w r pos first =
      let register = submit >> arms sys race now delay f in
      let tests : Bool → Result Bool × World K T E B =
        λ b. elim b [ true ↦ (ok false, w) | false ↦ register w ] in
      elim (Bool-cases (is_cancelled sys f w)) [
        | inl h ↦ record {
          value = false;
          after = w;
          returns = ap tests h;
          ready = record { agrees = r.agrees; timers = r.timers; room = omega (arith, r.room) };
          same_buf = refl;
        }
        | inr h ↦
            let v : World K T E B = record w { scheduler = first.after } in
            let s =
              arms-Timed race now delay ids f v
                (record { agrees = first.agrees; timers = r.timers; room = r.room }) pos in
            record {
              value = s.value;
              after = s.after;
              returns =
                  ap tests h
                  ∙ bind-ok submit (λ _. arms sys race now delay f) w tt v first.returns
                  ∙ s.returns;
              ready = s.ready;
              same_buf = s.same_buf;
            }
      ]
