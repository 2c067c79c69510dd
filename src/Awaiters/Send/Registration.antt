-- ===== src/Awaiters/Send/Registration.antt =====
-- include/async_frame/async_write.h: what `inner_send_awaiter` registers when it suspends, and takes
-- back when it resumes.
use async_io_framework.Prelude.{
  ◌≡◌, ◌∙◌, refl, true, false, none, some, ◌>>◌, if◌then◌else◌, Bool-cases, inl, inr, modify, pure,
}
use async_io_framework.Events.{RegisterType, to_underlying}
use async_io_framework.Epoll.{IsReliable}
use async_io_framework.Scheduler.{submit_write, remove_write}
use async_io_framework.Scheduler.Agreement.{Agrees}
use async_io_framework.Scheduler.Slots.{waiters}
use async_io_framework.CancelToken.{SharedState, consume}
use async_io_framework.Transfer.{
  OpStatus, WriteRet, SendOutcome, try_write, operation_cancelled_error,
}
use async_io_framework.Awaiters.{
  System, World, Frame, on_scheduler, is_cancelled, cancel_submit, cancel_remove, other_thread,
  writing,
}
use async_io_framework.Awaiters.Send.{
  transmit, give_up, send_register, send_suspend, send_cancelled, send_ready, send_resume,
}
use async_io_framework.Awaiters.Steps.{
  Ends, Moves, Ends-next, Ends-branch-true, Ends-branch-false, Ends-as, Ends-from, with_writer,
  with_writer-ap, with_writer-with_token, with_token, with_token-ap,
}
use async_io_framework.Awaiters.Calls.{
  submit_write-Moves, remove-Moves, cancel_submit-Moves, cancel_remove-Moves,
}

module _ {K T E B : Type 0} (sys : System K T E B) where
  -- What `await_resume` returns: the cancellation with no bytes, or `try_write`'s result.
  abbrev pub resume_result : SendOutcome → Frame → World K T E B → WriteRet × B
  resume_result outcome f w =
      if is_cancelled sys f w
      then (record { ec = operation_cancelled_error; len = 0; status = OpStatus.cancelled }, w.buf)
      else try_write sys.cursor outcome w.buf

  abbrev pub resume_token : Frame → World K T E B → SharedState E
  resume_token f w =
      if is_cancelled sys f w then consume sys.eventfd f.cancel_token w.token else w.token

module _ {K T E B : Type 0} (sys : System K T E B) (reliable : IsReliable sys.epoll) where
  -- While no cancellation is requested, suspending registers the operation as the writer of the
  -- connection and the slot's operation as the reader of the token, and nothing else: it returns
  -- true, every other slot, the timers, the token and the buffer stay, and table and epoll agree.
  pub send_suspend-Moves :
      (f : Frame) (w : World K T E B)
      → Agrees sys.epoll w.scheduler
      → is_cancelled sys f w ≡ false
      → Moves sys (send_suspend sys false f) w true (
          with_token f.cancel_token
            (some f.cancel_read)
            (with_writer f.conn_fd (some f.operation) (waiters w.scheduler)))
  unfolding send_suspend send_register
  send_suspend-Moves f w a h =
      Ends-branch-false sys (is_cancelled sys f) (pure false) (send_register sys false f) w true h (
        Ends-next sys (on_scheduler (submit_write sys.epoll f.conn_fd (writing 0 f.operation)))
          (modify (other_thread sys false) >> (cancel_submit sys f >> pure true)) w tt true
          (submit_write-Moves sys reliable f.conn_fd 0 f.operation w a)
          (λ s1 a1 w1.
            Ends-as sys
              (Ends-next sys (cancel_submit sys f) (pure true) (record w { scheduler = s1 }) tt true
                (cancel_submit-Moves sys reliable f (record w { scheduler = s1 }) a1 h)
                (λ s2 a2 w2. record { after = s2; returns = refl; agrees = a2; waits = w2 }))
              (λ j. with_token-ap f.cancel_token (some f.cancel_read) (waiters s1) _ j (w1 j))))

  send_cancelled-Ends :
      (f : Frame) (w : World K T E B)
      → Agrees sys.epoll w.scheduler
      → Ends sys
          (send_cancelled sys f)
          w
          (record { ec = operation_cancelled_error; len = 0; status = OpStatus.cancelled })
          w.timer
          (consume sys.eventfd f.cancel_token w.token)
          w.buf
          (with_token f.cancel_token none (with_writer f.conn_fd none (waiters w.scheduler)))
  unfolding send_cancelled
  send_cancelled-Ends f w a =
      let w' : World K T E B = record w { token = consume sys.eventfd f.cancel_token w.token } in
      let gives = give_up sys operation_cancelled_error OpStatus.cancelled in
      let r : WriteRet = record {
        ec = operation_cancelled_error;
        len = 0;
        status = OpStatus.cancelled;
      } in
      let rest =
        on_scheduler (remove_write sys.epoll f.conn_fd) >> (cancel_remove sys f >> gives) in
      Ends-from sys (send_cancelled sys f) w rest w' refl (
        Ends-next sys (on_scheduler (remove_write sys.epoll f.conn_fd))
          (cancel_remove sys f >> gives) w' tt r
          (remove-Moves sys reliable f.conn_fd (to_underlying RegisterType.event_write) w' a)
          (λ s1 a1 w1.
            Ends-as sys
              (Ends-next sys (cancel_remove sys f) gives (record w' { scheduler = s1 }) tt r
                (cancel_remove-Moves sys reliable f (record w' { scheduler = s1 }) a1)
                (λ s2 a2 w2. record { after = s2; returns = refl; agrees = a2; waits = w2 }))
              (λ j. with_token-ap f.cancel_token none (waiters s1) _ j (w1 j))))

  send_ready-Ends :
      (outcome : SendOutcome) (f : Frame) (w : World K T E B)
      → Agrees sys.epoll w.scheduler
      → let (r, b) = try_write sys.cursor outcome w.buf in
        Ends sys
          (send_ready sys outcome f)
          w
          r
          w.timer
          w.token
          b
          (with_token f.cancel_token none (with_writer f.conn_fd none (waiters w.scheduler)))
  unfolding send_ready
  send_ready-Ends outcome f w a =
      let (r, b) = try_write sys.cursor outcome w.buf in
      let removes = on_scheduler (remove_write sys.epoll f.conn_fd) in
      let table = with_token f.cancel_token none (waiters w.scheduler) in
      Ends-next sys (cancel_remove sys f) (removes >> transmit sys outcome) w tt r
        (cancel_remove-Moves sys reliable f w a)
        (λ s1 a1 w1.
          Ends-as sys
            (Ends-next sys removes (transmit sys outcome) (record w { scheduler = s1 }) tt r
              (remove-Moves sys reliable f.conn_fd (to_underlying RegisterType.event_write)
                (record w { scheduler = s1 }) a1)
              (λ s2 a2 w2. record { after = s2; returns = refl; agrees = a2; waits = w2 }))
            (λ j.
              with_writer-ap f.conn_fd none (waiters s1) table j (w1 j)
              ∙ with_writer-with_token f.cancel_token f.conn_fd none none (waiters w.scheduler) j))

  -- On every branch, resuming takes back both registrations: afterwards the connection has no
  -- writer and the token no reader, every other slot and the timers are as before, and table and
  -- epoll agree. It returns the cancellation with no bytes, and has consumed the request, if the
  -- token is requested; the result of `try_write` otherwise.
  pub send_resume-Ends :
      (outcome : SendOutcome) (f : Frame) (w : World K T E B)
      → Agrees sys.epoll w.scheduler
      → let (r, b) = resume_result sys outcome f w in
        Ends sys
          (send_resume sys outcome f)
          w
          r
          w.timer
          (resume_token sys f w)
          b
          (with_token f.cancel_token none (with_writer f.conn_fd none (waiters w.scheduler)))
  unfolding send_resume
  send_resume-Ends outcome f w a = elim (Bool-cases (is_cancelled sys f w)) [
    | inl h ↦ rw h (
        Ends-branch-true sys (is_cancelled sys f) (send_cancelled sys f) (send_ready sys outcome f)
          w _ h (send_cancelled-Ends f w a))
    | inr h ↦ rw h (
        Ends-branch-false sys (is_cancelled sys f) (send_cancelled sys f) (send_ready sys outcome f)
          w _ h (send_ready-Ends outcome f w a))
  ]
