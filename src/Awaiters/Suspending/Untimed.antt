-- ===== src/Awaiters/Suspending/Untimed.antt =====
-- include/async_frame/async_read.h and include/async_frame/async_write.h: the `await_suspend` of the
-- inner awaiters without a timeout, and its end with a timeout.
use async_io_framework.Prelude.{
  ◌∙◌, refl, Bool, true, false, Action, ⊤, ◌>>◌, inl, inr, modify, pure, branch, Bool-cases,
}
use async_io_framework.Epoll.{IsReliable}
use async_io_framework.CancelToken.{SharedState}
use async_io_framework.Scheduler.Agreement.{Agrees}
use async_io_framework.Scheduler.Slots.{waiters}
use async_io_framework.Awaiters.{System, World, Frame, is_cancelled, cancel_submit, other_thread}
use async_io_framework.Awaiters.Steps.{
  Ends, Ends-next, Ends-branch-true, Ends-branch-false, bind-ok, Table,
}
use async_io_framework.Awaiters.Calls.{cancel_submit-Moves, cancel_submit-requested}

module _ {K T E B : Type 0} (sys : System K T E B) where
  abbrev pub InStep : World K T E B → Type 0
  InStep w = Agrees sys.epoll w.scheduler

  -- A call that returns, keeps the agreement and leaves the timers and the buffer.
  pub record Calm {A : Type 0} (m : Action (World K T E B) A) (w : World K T E B) : Type 0 where
    pub value : A
    pub token : SharedState E
    pub slots : Table
    pub ends : Ends sys m w value w.timer token w.buf slots

  -- The end of `await_suspend`: another thread may request cancellation, and `cancel_slot` tests the
  -- token again.
  abbrev pub submits_token : Bool → Frame → Action (World K T E B) Bool
  submits_token race f = modify (other_thread sys race) >> (cancel_submit sys f >> pure true)

module _ {K T E B : Type 0} (sys : System K T E B) (reliable : IsReliable sys.epoll) where
  submits-Calm :
      (f : Frame) (w : World K T E B) → InStep sys w → Calm sys (cancel_submit sys f >> pure true) w
  submits-Calm f w a = elim (Bool-cases (is_cancelled sys f w)) [
    | inl h ↦ record {
      value = true;
      token = w.token;
      slots = waiters w.scheduler;
      ends = record {
        after = w.scheduler;
        returns =
            bind-ok (cancel_submit sys f) (λ _. pure true) w tt w
              (cancel_submit-requested sys reliable f w h);
        agrees = a;
        waits = λ j. refl;
      };
    }
    | inr h ↦ record {
      value = true;
      token = w.token;
      slots = _;
      ends =
          Ends-next sys (cancel_submit sys f) (pure true) w tt true
            (cancel_submit-Moves sys reliable f w a h)
            (λ s1 a1 w1. record { after = s1; returns = refl; agrees = a1; waits = w1 });
    }
  ]

  pub submits_token-Calm :
      (race : Bool) (f : Frame) (w : World K T E B)
      → InStep sys w
      → Calm sys (submits_token sys race f) w
  submits_token-Calm true f w a =
      let s = submits-Calm f (other_thread sys true w) a in
      record {
        value = s.value;
        token = s.token;
        slots = s.slots;
        ends = record {
          after = s.ends.after;
          returns = s.ends.returns;
          agrees = s.ends.agrees;
          waits = s.ends.waits;
        };
      }
  submits_token-Calm false f w a =
      let s = submits-Calm f w a in
      record {
        value = s.value;
        token = s.token;
        slots = s.slots;
        ends = record {
          after = s.ends.after;
          returns = s.ends.returns;
          agrees = s.ends.agrees;
          waits = s.ends.waits;
        };
      }

  -- An `await_suspend` that submits its operation, past its first test of the token.
  pub register-Calm :
      (race : Bool) (f : Frame) (submit : Action (World K T E B) ⊤) (w : World K T E B)
      {slots : Table}
      → Ends sys submit w tt w.timer w.token w.buf slots
      → Calm sys (submit >> submits_token sys race f) w
  register-Calm race f submit w first =
      let s = submits_token-Calm race f (record w { scheduler = first.after }) first.agrees in
      record {
        value = s.value;
        token = s.token;
        slots = s.slots;
        ends = record {
          after = s.ends.after;
          returns =
              bind-ok submit (λ _. submits_token sys race f) w tt
                (record w { scheduler = first.after }) first.returns
              ∙ s.ends.returns;
          agrees = s.ends.agrees;
          waits = s.ends.waits;
        };
      }

  pub suspend-Calm :
      (f : Frame) (register : Action (World K T E B) Bool) (w : World K T E B)
      → InStep sys w
      → Calm sys register w
      → Calm sys (branch (is_cancelled sys f) (pure false) register) w
  suspend-Calm f register w a s = elim (Bool-cases (is_cancelled sys f w)) [
    | inl h ↦ record {
      value = false;
      token = w.token;
      slots = waiters w.scheduler;
      ends =
          Ends-branch-true sys (is_cancelled sys f) (pure false) register w false h
            (record { after = w.scheduler; returns = refl; agrees = a; waits = λ j. refl });
    }
    | inr h ↦ record {
      value = s.value;
      token = s.token;
      slots = s.slots;
      ends = Ends-branch-false sys (is_cancelled sys f) (pure false) register w s.value h s.ends;
    }
  ]
