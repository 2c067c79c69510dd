-- ===== src/Awaiters/Recv/Registration.antt =====
-- include/async_frame/async_read.h: what `inner_recv_awaiter` registers when it suspends, and takes
-- back when it resumes.
use async_io_framework.Prelude.{
  ◌≡◌, ◌∙◌, refl, true, false, none, some, ◌>>=◌, ◌>>◌, if◌then◌else◌, Bool-cases, inl, inr, modify,
  pure,
}
use async_io_framework.Events.{RegisterType, to_underlying}
use async_io_framework.Epoll.{IsReliable}
use async_io_framework.Scheduler.{submit_read, remove_read}
use async_io_framework.Scheduler.Agreement.{Agrees}
use async_io_framework.Scheduler.Slots.{waiters}
use async_io_framework.CancelToken.{SharedState, consume}
use async_io_framework.Transfer.{ReadRet, RecvOutcome, try_read, operation_cancelled_error}
use async_io_framework.Awaiters.{
  System, World, Frame, on_scheduler, is_cancelled, cancel_submit, cancel_remove, other_thread,
  reading,
}
use async_io_framework.Awaiters.Recv.{
  receive, give_up, recv_register, recv_suspend, recv_cancelled, recv_ready, recv_resume,
}
use async_io_framework.Awaiters.Steps.{
  Ends, Moves, Ends-next, with_reader-ap, with_reader-with_token, Ends-branch-true,
  Ends-branch-false, Ends-as, Ends-from, with_reader, with_token, with_token-ap,
}
use async_io_framework.Awaiters.Calls.{
  submit_read-Moves, remove-Moves, cancel_submit-Moves, cancel_remove-Moves,
}

module _ {K T E B : Type 0} (sys : System K T E B) where
  -- What `await_resume` returns: the cancellation with what the buffer holds, or `try_read`'s result.
  abbrev pub resume_result : RecvOutcome → Frame → World K T E B → ReadRet × B
  resume_result outcome f w =
      if is_cancelled sys f w
      then (record { ec = operation_cancelled_error; len = sys.cursor.read_count w.buf }, w.buf)
      else try_read sys.cursor outcome w.buf

  abbrev pub resume_token : Frame → World K T E B → SharedState E
  resume_token f w =
      if is_cancelled sys f w then consume sys.eventfd f.cancel_token w.token else w.token

module _ {K T E B : Type 0} (sys : System K T E B) (reliable : IsReliable sys.epoll) where
  -- While no cancellation is requested, suspending registers the operation as the reader of the
  -- connection and the slot's operation as the reader of the token, and nothing else: it returns
  -- true, every other slot, the timers, the token and the buffer stay, and table and epoll agree.
  pub recv_suspend-Moves :
      (f : Frame) (w : World K T E B)
      → Agrees sys.epoll w.scheduler
      → is_cancelled sys f w ≡ false
      → Moves sys (recv_suspend sys false f) w true (
          with_token f.cancel_token
            (some f.cancel_read)
            (with_reader f.conn_fd (some f.operation) (waiters w.scheduler)))
  unfolding recv_suspend recv_register
  recv_suspend-Moves f w a h =
      Ends-branch-false sys (is_cancelled sys f) (pure false) (recv_register sys false f) w true h (
        Ends-next sys (on_scheduler (submit_read sys.epoll f.conn_fd (reading 0 f.operation)))
          (modify (other_thread sys false) >> (cancel_submit sys f >> pure true)) w tt true
          (submit_read-Moves sys reliable f.conn_fd 0 f.operation w a)
          (λ s1 a1 w1.
            Ends-as sys
              (Ends-next sys (cancel_submit sys f) (pure true) (record w { scheduler = s1 }) tt true
                (cancel_submit-Moves sys reliable f (record w { scheduler = s1 }) a1 h)
                (λ s2 a2 w2. record { after = s2; returns = refl; agrees = a2; waits = w2 }))
              (λ j. with_token-ap f.cancel_token (some f.cancel_read) (waiters s1) _ j (w1 j))))

  recv_cancelled-Ends :
      (f : Frame) (w : World K T E B)
      → Agrees sys.epoll w.scheduler
      → Ends sys
          (recv_cancelled sys f)
          w
          (record { ec = operation_cancelled_error; len = sys.cursor.read_count w.buf })
          w.timer
          (consume sys.eventfd f.cancel_token w.token)
          w.buf
          (with_token f.cancel_token none (with_reader f.conn_fd none (waiters w.scheduler)))
  unfolding recv_cancelled
  recv_cancelled-Ends f w a =
      let w' : World K T E B = record w { token = consume sys.eventfd f.cancel_token w.token } in
      let gives = give_up sys operation_cancelled_error in
      let r : ReadRet = record {
        ec = operation_cancelled_error;
        len = sys.cursor.read_count w.buf;
      } in
      let rest = on_scheduler (remove_read sys.epoll f.conn_fd) >> (cancel_remove sys f >> gives) in
      Ends-from sys (recv_cancelled sys f) w rest w' refl (
        Ends-next sys (on_scheduler (remove_read sys.epoll f.conn_fd))
          (cancel_remove sys f >> gives) w' tt r
          (remove-Moves sys reliable f.conn_fd (to_underlying RegisterType.event_read) w' a)
          (λ s1 a1 w1.
            Ends-as sys
              (Ends-next sys (cancel_remove sys f) gives (record w' { scheduler = s1 }) tt r
                (cancel_remove-Moves sys reliable f (record w' { scheduler = s1 }) a1)
                (λ s2 a2 w2. record { after = s2; returns = refl; agrees = a2; waits = w2 }))
              (λ j. with_token-ap f.cancel_token none (waiters s1) _ j (w1 j))))

  recv_ready-Ends :
      (outcome : RecvOutcome) (f : Frame) (w : World K T E B)
      → Agrees sys.epoll w.scheduler
      → let (r, b) = try_read sys.cursor outcome w.buf in
        Ends sys
          (recv_ready sys outcome f)
          w
          r
          w.timer
          w.token
          b
          (with_token f.cancel_token none (with_reader f.conn_fd none (waiters w.scheduler)))
  unfolding recv_ready
  recv_ready-Ends outcome f w a =
      let (r, b) = try_read sys.cursor outcome w.buf in
      let rest =
        receive sys outcome >>= λ r. on_scheduler (remove_read sys.epoll f.conn_fd) >> pure r in
      Ends-next sys (cancel_remove sys f) rest w tt r (cancel_remove-Moves sys reliable f w a)
        (λ s1 a1 w1.
          Ends-as sys
            (Ends-from sys rest (record w { scheduler = s1 })
              (on_scheduler (remove_read sys.epoll f.conn_fd) >> pure r)
              (record w { scheduler = s1; buf = b }) refl
              (Ends-next sys (on_scheduler (remove_read sys.epoll f.conn_fd)) (pure r)
                (record w { scheduler = s1; buf = b }) tt r
                (remove-Moves sys reliable f.conn_fd (to_underlying RegisterType.event_read)
                  (record w { scheduler = s1; buf = b }) a1)
                (λ s2 a2 w2. record { after = s2; returns = refl; agrees = a2; waits = w2 })))
            (λ j.
              with_reader-ap f.conn_fd none (waiters s1)
                (with_token f.cancel_token none (waiters w.scheduler)) j (w1 j)
              ∙ with_reader-with_token f.cancel_token f.conn_fd none (waiters w.scheduler) j))

  -- On every branch, resuming takes back both registrations: afterwards neither the connection nor
  -- the token has a reader, every other slot and the timers are as before, and table and epoll
  -- agree. It returns the cancellation with what the buffer holds, and has consumed the request, if
  -- the token is requested; the result of `try_read` otherwise.
  pub recv_resume-Ends :
      (outcome : RecvOutcome) (f : Frame) (w : World K T E B)
      → Agrees sys.epoll w.scheduler
      → let (r, b) = resume_result sys outcome f w in
        Ends sys
          (recv_resume sys outcome f)
          w
          r
          w.timer
          (resume_token sys f w)
          b
          (with_token f.cancel_token none (with_reader f.conn_fd none (waiters w.scheduler)))
  unfolding recv_resume
  recv_resume-Ends outcome f w a = elim (Bool-cases (is_cancelled sys f w)) [
    | inl h ↦ rw h (
        Ends-branch-true sys (is_cancelled sys f) (recv_cancelled sys f) (recv_ready sys outcome f)
          w _ h (recv_cancelled-Ends f w a))
    | inr h ↦ rw h (
        Ends-branch-false sys (is_cancelled sys f) (recv_cancelled sys f) (recv_ready sys outcome f)
          w _ h (recv_ready-Ends outcome f w a))
  ]
