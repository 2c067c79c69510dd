-- ===== src/Awaiters/Resuming.antt =====
-- include/async_frame/async_read.h and include/async_frame/async_write.h: what the `await_resume` of
-- the inner awaiters with a timeout have in common. They differ in how the operation is withdrawn, in
-- what they return, and in the system call.
mod Branches
pub use async_io_framework.Awaiters.Resuming.Branches.{IsWithdrawal}
use async_io_framework.Awaiters.Resuming.Branches.{
  withdrawn, cancelled, timed_out, ready, cancelled-Ends, timed_out-Ends, ready-Ends,
}
use async_io_framework.Prelude.{
  ◌∙◌, Action, none, ⊤, ◌>>◌, branch, if◌then◌else◌, Bool-cases, inl, inr,
}
use async_io_framework.Epoll.{IsReliable}
use async_io_framework.Scheduler.Agreement.{Agrees}
use async_io_framework.Scheduler.Slots.{waiters}
use async_io_framework.CancelToken.{consume}
use async_io_framework.Timer.{Timespec}
use async_io_framework.Awaiters.{System, World, Frame, is_cancelled, has_timed_out, cancel_remove}
use async_io_framework.Awaiters.Steps.{
  Ends, Ends-next, Ends-branch-true, Ends-branch-false, Ends-as, with_reader, with_reader-ap,
  with_token, Table,
}
use async_io_framework.Awaiters.Calls.{cancel_remove-Moves}
use async_io_framework.Awaiters.Timers.{ended, has_fired, Kept, current_reader}

module _ {K T E B : Type 0} (sys : System K T E B) (f : Frame) where
  -- What a timed `await_resume` returns, and the buffer that it leaves.
  abbrev pub outcome_of :
      {A : Type 0} → Timespec → (B → A) → (B → A) → (B → A × B) → World K T E B → A × B
  outcome_of left on_cancel on_timeout call w =
      if is_cancelled sys f w
      then (on_cancel w.buf, w.buf)
      else if has_timed_out sys left f w
      then (on_timeout w.buf, w.buf)
      else call w.buf

module _ {K T E B A : Type 0} (sys : System K T E B) (reliable : IsReliable sys.epoll) (f : Frame)
    (removes : Action (World K T E B) ⊤) (without : Table → Table)
    (withdrawal : IsWithdrawal sys f.timer_fd removes without) where
  uncancelled-Ends :
      (left : Timespec) (value : B → A) (call : B → A × B) (w : World K T E B)
      → Agrees sys.epoll w.scheduler
      → Kept sys.timerfd w.timer
      → let (r, b) = if has_timed_out sys left f w then (value w.buf, w.buf) else call w.buf in
        let t = ended sys.timerfd f (has_timed_out sys left f w) w.timer in
        Ends sys
          (branch
            (has_timed_out sys left f)
            (timed_out sys f removes value)
            (ready sys f removes call))
          w
          r
          t
          w.token
          b
          (with_reader f.timer_fd (current_reader t) (without (waiters w.scheduler)))
  uncancelled-Ends left value call w a k = elim (Bool-cases (has_timed_out sys left f w)) [
    | inl h ↦ rw h (
        Ends-branch-true sys (has_timed_out sys left f) (timed_out sys f removes value)
          (ready sys f removes call) w _ h
          (timed_out-Ends sys reliable f removes without withdrawal value w a k))
    | inr h ↦ rw h (
        Ends-branch-false sys (has_timed_out sys left f) (timed_out sys f removes value)
          (ready sys f removes call) w _ h
          (ready-Ends sys reliable f removes without withdrawal call w a k))
  ]

  -- Every branch withdraws the operation, its timer and its token.
  pub resume-Ends :
      (left : Timespec) (on_cancel on_timeout : B → A) (call : B → A × B) (w : World K T E B)
      → Agrees sys.epoll w.scheduler
      → Kept sys.timerfd w.timer
      → let (r, b) = outcome_of sys f left on_cancel on_timeout call w in
        let t = ended sys.timerfd f (has_fired sys left f w) w.timer in
        Ends sys
          (branch (is_cancelled sys f) (cancelled sys f removes on_cancel) (
            cancel_remove sys f
            >> branch
                (has_timed_out sys left f)
                (timed_out sys f removes on_timeout)
                (ready sys f removes call)))
          w
          r
          t
          (if is_cancelled sys f w then consume sys.eventfd f.cancel_token w.token else w.token)
          b
          (withdrawn without f t (waiters w.scheduler))
  resume-Ends left on_cancel on_timeout call w a k =
      let goes =
        branch (has_timed_out sys left f) (timed_out sys f removes on_timeout)
          (ready sys f removes call) in
      let late = ended sys.timerfd f (has_timed_out sys left f w) w.timer in
      elim (Bool-cases (is_cancelled sys f w)) [
        | inl h ↦ rw h (
            Ends-branch-true sys (is_cancelled sys f) (cancelled sys f removes on_cancel)
              (cancel_remove sys f >> goes) w _ h
              (cancelled-Ends sys reliable f removes without withdrawal on_cancel w a k))
        | inr h ↦ rw h (
            Ends-branch-false sys (is_cancelled sys f) (cancelled sys f removes on_cancel)
              (cancel_remove sys f >> goes) w _ h
              (Ends-next sys (cancel_remove sys f) goes w tt _
                (cancel_remove-Moves sys reliable f w a)
                (λ s1 a1 w1.
                  Ends-as sys
                    (uncancelled-Ends left on_timeout call (record w { scheduler = s1 }) a1 k)
                    (λ j.
                      with_reader-ap f.timer_fd (current_reader late) (without (waiters s1))
                        (with_token f.cancel_token none (without (waiters w.scheduler))) j
                        (withdrawal.without-ap (waiters s1)
                            (with_token f.cancel_token none (waiters w.scheduler)) j (w1 j)
                          ∙ withdrawal.without-token f.cancel_token (waiters w.scheduler) j)))))
      ]
