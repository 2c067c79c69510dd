-- ===== src/Awaiters/Recv/Races.antt =====
-- include/async_frame/async_read.h with include/async_frame/cancellation_token.h: a request for
-- cancellation while `inner_recv_awaiter` suspends, and while it is suspended.
use async_io_framework.Prelude.{
  ℕ, ◌≡◌, ◌≢◌, thrown, ◌∙◌, ap, Bool, true, false, Option, none, some, ◌>>◌, arith, modify, pure,
}
use async_io_framework.Epoll.{IsReliable}
use async_io_framework.Scheduler.{submit_read}
use async_io_framework.Scheduler.Agreement.{Agrees}
use async_io_framework.Scheduler.Slots.{waiters}
use async_io_framework.CancelToken.{CancelToken, request_cancel}
use async_io_framework.Transfer.{RecvOutcome}
use async_io_framework.Awaiters.{
  System, World, Frame, on_scheduler, is_cancelled, cancel_submit, other_thread, reading,
}
use async_io_framework.Awaiters.Recv.{recv_register, recv_suspend, recv_resume}
use async_io_framework.Awaiters.Steps.{
  Ends, Ends-next, with_reader-ap, Ends-branch-false, bind-ok, with_reader, with_token,
  with_token-ap, Table,
}
use async_io_framework.Awaiters.Calls.{cancel_submit-requested, submit_read-Moves}
use async_io_framework.Awaiters.Recv.Registration.{recv_suspend-Moves, recv_resume-Ends}

module _ {K T E B : Type 0} (sys : System K T E B) (reliable : IsReliable sys.epoll) where
  is_cancelled-requested :
      (fd : ℕ) (f : Frame) (w : World K T E B)
      → f.cancel_token ≡ CancelToken.event fd
      → is_cancelled sys f (other_thread sys true w) ≡ true
  unfolding request_cancel
  is_cancelled-requested fd f w e = rw e (ground arith)

  recv_suspend_race-Ends :
      (fd : ℕ) (f : Frame) (w : World K T E B)
      → Agrees sys.epoll w.scheduler
      → f.cancel_token ≡ CancelToken.event fd
      → is_cancelled sys f w ≡ false
      → Ends sys
          (recv_suspend sys true f)
          w
          true
          w.timer
          (request_cancel sys.eventfd w.token)
          w.buf
          (with_reader f.conn_fd (some f.operation) (waiters w.scheduler))
  unfolding recv_suspend recv_register
  recv_suspend_race-Ends fd f w a e h =
      Ends-branch-false sys (is_cancelled sys f) (pure false) (recv_register sys true f) w true h (
        Ends-next sys (on_scheduler (submit_read sys.epoll f.conn_fd (reading 0 f.operation)))
          (modify (other_thread sys true) >> (cancel_submit sys f >> pure true)) w tt true
          (submit_read-Moves sys reliable f.conn_fd 0 f.operation w a)
          (λ s1 a1 w1. record {
            after = s1;
            returns =
                bind-ok (cancel_submit sys f) (λ _. pure true)
                  (other_thread sys true (record w { scheduler = s1 })) tt _
                  (cancel_submit-requested sys reliable f
                    (other_thread sys true (record w { scheduler = s1 }))
                    (is_cancelled-requested fd f (record w { scheduler = s1 }) e));
            agrees = a1;
            waits = w1;
          }))

  -- If another thread requests cancellation after the first test of the token and before that of
  -- `cancel_slot`, the coroutine stays suspended, its token is requested, and the token has no new
  -- reader: only the operation of the connection is registered, so nobody waits for the request.
  pub recv_suspend_race :
      (fd : ℕ) (f : Frame) (w : World K T E B)
      → Agrees sys.epoll w.scheduler
      → f.cancel_token ≡ CancelToken.event fd
      → is_cancelled sys f w ≡ false
      → Ends sys
          (recv_suspend sys true f)
          w
          true
          w.timer
          (request_cancel sys.eventfd w.token)
          w.buf
          (with_reader f.conn_fd (some f.operation) (waiters w.scheduler))
        × (is_cancelled sys f (recv_suspend sys true f w).1 ≡ true)
  recv_suspend_race fd f w a e h =
      let s = recv_suspend_race-Ends fd f w a e h in
      (s, ap (λ r. is_cancelled sys f r.1) s.returns ∙ is_cancelled-requested fd f w e)

  both_gone :
      (token : CancelToken) (fd j : ℕ) (op cancel : Option ℕ) (s : Table)
      → (s fd).reader ≡ none
      → with_token token none s j ≡ s j
      → with_token token none
          (with_reader fd none (with_token token cancel (with_reader fd op s)))
          j
        ≡ s j
  both_gone CancelToken.noop fd j op cancel s h k = ground arith
  both_gone (CancelToken.event t) fd j op cancel s h k = ground arith

  resume_after :
      (outcome : RecvOutcome) (f : Frame) (w w1 : World K T E B)
      → Agrees sys.epoll w1.scheduler
      → ((j : ℕ)
          → waiters w1.scheduler j
            ≡ with_token f.cancel_token
                (some f.cancel_read)
                (with_reader f.conn_fd (some f.operation) (waiters w.scheduler))
                j)
      → (waiters w.scheduler f.conn_fd).reader ≡ none
      → ((j : ℕ) → with_token f.cancel_token none (waiters w.scheduler) j ≡ waiters w.scheduler j)
      → let (r, w') = recv_resume sys outcome f w1 in
        (r ≢ thrown) × ((j : ℕ) → waiters w'.scheduler j ≡ waiters w.scheduler j)
  resume_after outcome f w w1 a1 e empty quiet =
      let s = recv_resume-Ends sys reliable outcome f w1 a1 in
      let registered =
        with_token f.cancel_token (some f.cancel_read)
          (with_reader f.conn_fd (some f.operation) (waiters w.scheduler)) in
      (
        λ t. cc,
        λ j.
            ap (λ r. waiters r.1.scheduler j) s.returns
            ∙ s.waits j
            ∙ with_token-ap f.cancel_token none (with_reader f.conn_fd none (waiters w1.scheduler))
                (with_reader f.conn_fd none registered) j
                (with_reader-ap f.conn_fd none (waiters w1.scheduler) registered j (e j))
            ∙ both_gone f.cancel_token f.conn_fd j (some f.operation) (some f.cancel_read)
                (waiters w.scheduler) empty (quiet j),
      )

  -- A read that suspends, during which another thread may request cancellation, and resumes leaves
  -- the slots of all descriptors as it found them, whether it was cancelled or not, if nobody was
  -- reading from the connection and the token's descriptor. No cancellation is requested before it.
  pub recv_suspend-recv_resume :
      (requests : Bool) (outcome : RecvOutcome) (f : Frame) (w : World K T E B)
      → Agrees sys.epoll w.scheduler
      → is_cancelled sys f w ≡ false
      → (waiters w.scheduler f.conn_fd).reader ≡ none
      → ((j : ℕ) → with_token f.cancel_token none (waiters w.scheduler) j ≡ waiters w.scheduler j)
      → let (r, w') =
          (recv_suspend sys false f
              >> (modify (other_thread sys requests) >> recv_resume sys outcome f))
            w in
        (r ≢ thrown) × ((j : ℕ) → waiters w'.scheduler j ≡ waiters w.scheduler j)
  recv_suspend-recv_resume true outcome f w a h empty quiet =
      let s = recv_suspend-Moves sys reliable f w a h in
      let w1 : World K T E B = record w { scheduler = s.after } in
      rw
        (bind-ok (recv_suspend sys false f)
          (λ _. modify (other_thread sys true) >> recv_resume sys outcome f) w true w1 s.returns)
        (resume_after outcome f w (other_thread sys true w1) s.agrees s.waits empty quiet)
  recv_suspend-recv_resume false outcome f w a h empty quiet =
      let s = recv_suspend-Moves sys reliable f w a h in
      let w1 : World K T E B = record w { scheduler = s.after } in
      rw
        (bind-ok (recv_suspend sys false f)
          (λ _. modify (other_thread sys false) >> recv_resume sys outcome f) w true w1 s.returns)
        (resume_after outcome f w (other_thread sys false w1) s.agrees s.waits empty quiet)
