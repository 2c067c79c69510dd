-- ===== src/Awaiters/Program/Parts.antt =====
-- The parts of include/async_frame/async_read.h, include/async_frame/async_write.h,
-- include/async_frame/async_read_some.h, include/async_frame/async_accept.h,
-- include/async_frame/async_connect.h and include/async_frame/wait_for.h one after another, in any
-- order.
use async_io_framework.Prelude.{
  ℕ, ◌+◌, ◌<◌, ◌≡◌, refl, List, [], ◌∷◌, Action, ok, ◌>>◌, pure, arith,
}
use async_io_framework.Prelude.Words.{u64_mod}
use async_io_framework.Epoll.{IsReliable}
use async_io_framework.CancelToken.{SharedState}
use async_io_framework.Timer.{TimerEvent}
use async_io_framework.Timer.Counter.{set_timer-next}
use async_io_framework.Transfer.{no_error, RecvOutcome}
use async_io_framework.Awaiters.{System, World, reading}
use async_io_framework.Awaiters.Steps.{Ends, Table, bind-ok}
use async_io_framework.Awaiters.Timers.{Sound, Sound-Kept, has_fired, ended-next}
use async_io_framework.Awaiters.Suspending.{Ready, Timed}
use async_io_framework.Awaiters.Recv.Registration.{recv_resume-Ends}
use async_io_framework.Awaiters.Recv.Rounds.{recv_suspend-Calm}
use async_io_framework.Awaiters.Recv.Timeout.{recv_timeout_resume-Sound}
use async_io_framework.Awaiters.Recv.TimedRounds.{recv_timeout_suspend-Timed}
use async_io_framework.Awaiters.Send.Registration.{send_resume-Ends}
use async_io_framework.Awaiters.Send.Rounds.{send_suspend-Calm}
use async_io_framework.Awaiters.Send.Timeout.{send_timeout_resume-Sound}
use async_io_framework.Awaiters.Send.TimedRounds.{send_timeout_suspend-Timed}
use async_io_framework.Awaiters.Single.{FdOutcome}
use async_io_framework.Awaiters.Single.Registration.{
  read_once-Ends, connect_suspend-Moves, connect_resume-Moves,
}
use async_io_framework.Awaiters.Single.Waiting.{wait_suspend-Sound, wait_resume-Sound, fired-next}
use async_io_framework.Awaiters.Program.{
  Part, ids_of, IsAdmissible, Other, ids_of_all, AllAdmissible, run, entered, perform, others_do,
  AllReturn,
}

module _ {K T E B : Type 0} (sys : System K T E B) (reliable : IsReliable sys.epoll) where
  -- A call that returns, after which `later` timer ids are left.
  record Goes (later : ℕ) {A : Type 0} (m : Action (World K T E B) A) (w : World K T E B)
      : Type 0 where
    value : A
    after : World K T E B
    returns : m w ≡ (ok value, after)
    ready : Ready sys later after

  then_tt :
      {later : ℕ} {A : Type 0} (m : Action (World K T E B) A) (w : World K T E B)
      → Goes later m w
      → Goes later (m >> pure tt) w
  then_tt m w g = record {
    value = tt;
    after = g.after;
    returns = bind-ok m (λ _. pure tt) w g.value g.after g.returns;
    ready = g.ready;
  }

  Timed-Goes :
      {later : ℕ} {A : Type 0} (m : Action (World K T E B) A) (w : World K T E B)
      → Timed sys later m w
      → Goes later m w
  Timed-Goes m w t = record {
    value = t.value;
    after = t.after;
    returns = t.returns;
    ready = t.ready;
  }

  Ends-Goes :
      {later : ℕ} {A : Type 0} (m : Action (World K T E B) A) (w : World K T E B) (a : A)
      (t : TimerEvent T) {token : SharedState E} {buf : B} {slots : Table}
      → Ends sys m w a t token buf slots
      → Sound sys.timerfd t
      → t.next_timer_id + later < u64_mod
      → Goes later m w
  Ends-Goes m w a t e s room = record {
    value = a;
    after = _;
    returns = e.returns;
    ready = record { agrees = e.agrees; timers = s; room = room };
  }

  -- Each part of an operation returns, and leaves the program ready for the next one.
  run-Goes :
      (part : Part) (later : ℕ) (w : World K T E B)
      → IsAdmissible part
      → Ready sys (later + ids_of part) w
      → Goes later (run sys part) w
  unfolding run
  run-Goes (Part.recv_suspends race f) later w v r =
      let e = recv_suspend-Calm sys reliable race f w r.agrees in
      then_tt _ w (Ends-Goes _ w e.value w.timer e.ends r.timers (omega (arith, r.room)))
  run-Goes (Part.recv_resumes outcome f) later w v r = then_tt _ w (
      Ends-Goes _ w _ w.timer (recv_resume-Ends sys reliable outcome f w r.agrees) r.timers
        (omega (arith, r.room)))
  run-Goes (Part.recv_timeout_suspends race now delay f) later w v r =
      then_tt _ w
        (Timed-Goes _ w (recv_timeout_suspend-Timed sys reliable delay race now later f w r v))
  run-Goes (Part.recv_timeout_resumes left outcome f) later w v r =
      let k = Sound-Kept sys.timerfd w.timer r.timers in
      let (e, sound, _) = recv_timeout_resume-Sound sys reliable left outcome f w r.agrees k v in
      then_tt _ w (
        Ends-Goes _ w _ _ e sound
          (omega (arith, ended-next sys.timerfd f (has_fired sys left f w) w.timer, r.room)))
  run-Goes (Part.send_suspends race f) later w v r =
      let e = send_suspend-Calm sys reliable race f w r.agrees in
      then_tt _ w (Ends-Goes _ w e.value w.timer e.ends r.timers (omega (arith, r.room)))
  run-Goes (Part.send_resumes outcome f) later w v r = then_tt _ w (
      Ends-Goes _ w _ w.timer (send_resume-Ends sys reliable outcome f w r.agrees) r.timers
        (omega (arith, r.room)))
  run-Goes (Part.send_timeout_suspends race now delay f) later w v r =
      then_tt _ w
        (Timed-Goes _ w (send_timeout_suspend-Timed sys reliable delay race now later f w r v))
  run-Goes (Part.send_timeout_resumes left outcome f) later w v r =
      let k = Sound-Kept sys.timerfd w.timer r.timers in
      let (e, sound, _) = send_timeout_resume-Sound sys reliable left outcome f w r.agrees k in
      then_tt _ w (
        Ends-Goes _ w _ _ e sound
          (omega (arith, ended-next sys.timerfd f (has_fired sys left f w) w.timer, r.room)))
  run-Goes (Part.recv_some_suspends f) later w v r =
      let (e, _, _, _) =
        read_once-Ends sys reliable (RecvOutcome.received []) (FdOutcome.opened 0) f w w r.agrees
          r.agrees in
      Ends-Goes _ w tt w.timer e r.timers (omega (arith, r.room))
  run-Goes (Part.recv_some_resumes outcome f) later w v r =
      let (_, e, _, _) =
        read_once-Ends sys reliable outcome (FdOutcome.opened 0) f w w r.agrees r.agrees in
      then_tt _ w (Ends-Goes _ w _ w.timer e r.timers (omega (arith, r.room)))
  run-Goes (Part.accept_suspends f) later w v r =
      let (_, _, e, _) =
        read_once-Ends sys reliable (RecvOutcome.received []) (FdOutcome.opened 0) f w w r.agrees
          r.agrees in
      Ends-Goes _ w tt w.timer e r.timers (omega (arith, r.room))
  run-Goes (Part.accept_resumes outcome f) later w v r =
      let (_, _, _, e) =
        read_once-Ends sys reliable (RecvOutcome.received []) outcome f w w r.agrees r.agrees in
      then_tt _ w (Ends-Goes _ w _ w.timer e r.timers (omega (arith, r.room)))
  run-Goes (Part.connect_suspends f) later w v r =
      Ends-Goes _ w tt w.timer (connect_suspend-Moves sys reliable f w r.agrees) r.timers
        (omega (arith, r.room))
  run-Goes (Part.connect_resumes outcome f) later w v r = then_tt _ w (
      Ends-Goes _ w _ w.timer (connect_resume-Moves sys reliable outcome f w r.agrees) r.timers
        (omega (arith, r.room)))
  run-Goes (Part.wait_suspends now delay f) later w v r =
      let k = Sound-Kept sys.timerfd w.timer r.timers in
      let one : w.timer.next_timer_id + 1 < u64_mod = omega (arith, r.room) in
      let (e, sound, _) = wait_suspend-Sound sys reliable now delay f w r.agrees k v one in
      Ends-Goes _ w tt _ e sound (
        omega (
          arith,
          set_timer-next sys.timerfd now (reading 0 f.timer_read) delay w.timer one,
          r.room,
        ))
  run-Goes (Part.wait_resumes f) later w v r =
      let (e, sound, _) = wait_resume-Sound sys reliable f w r.agrees r.timers in
      then_tt _ w
        (Ends-Goes _ w no_error _ e sound (omega (arith, fired-next sys reliable w.timer, r.room)))
  run-Goes Part.requests_cancel later w v r = record {
    value = tt;
    after = _;
    returns = refl;
    ready = record { agrees = r.agrees; timers = r.timers; room = omega (arith, r.room) };
  }

  perform-Ready :
      (o : Other E B) (later : ℕ) (w : World K T E B)
      → IsAdmissible o.part
      → Ready sys (later + ids_of o.part) w
      → ((perform sys o w).0 ≡ ok tt) × Ready sys later (perform sys o w).1
  perform-Ready o later w v r =
      let g =
        run-Goes o.part later (entered sys o w) v
          (record { agrees = r.agrees; timers = r.timers; room = r.room }) in
      rw g.returns
        (refl, record { agrees = g.ready.agrees; timers = g.ready.timers; room = g.ready.room })

  pub others_do-buf :
      (others : List (Other E B)) (w : World K T E B) → (others_do sys others w).buf ≡ w.buf
  unfolding others_do
  others_do-buf [] w = refl
  others_do-buf (o ∷ os) w = others_do-buf os (perform sys o w).1

  pub others_do-Ready :
      (others : List (Other E B)) (later : ℕ) (w : World K T E B)
      → AllAdmissible others
      → Ready sys (later + ids_of_all others) w
      → let w' = others_do sys others w in AllReturn sys others w × Ready sys later w'
  unfolding others_do
  others_do-Ready [] later w v r =
      (tt, record { agrees = r.agrees; timers = r.timers; room = omega (arith, r.room) })
  others_do-Ready (o ∷ os) later w v r =
      let (returns, ready) =
        perform-Ready o (later + ids_of_all os) w v.0
          (record { agrees = r.agrees; timers = r.timers; room = omega (arith, r.room) }) in
      let (return, last) = others_do-Ready os later (perform sys o w).1 v.1 ready in
      ((returns, return), last)
