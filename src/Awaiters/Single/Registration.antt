-- ===== src/Awaiters/Single/Registration.antt =====
-- include/async_frame/async_read_some.h, include/async_frame/async_accept.h and
-- include/async_frame/async_connect.h: what each operation registers and takes back.
use async_io_framework.Prelude.{
  ℕ, ◌≡◌, ◌∙◌, refl, Option, none, some, ok, Action, ◌>>◌, pure, arith, ◌==◌, ◌||◌, if◌then◌else◌,
  Bool-cases, inl, inr,
}
use async_io_framework.Events.{RegisterType, to_underlying}
use async_io_framework.Epoll.{IsReliable}
use async_io_framework.Scheduler.{remove_read, remove_accept, remove_connect}
use async_io_framework.Scheduler.Agreement.{Agrees}
use async_io_framework.Scheduler.Slots.{waiters}
use async_io_framework.Transfer.{ErrorCode, no_error, eagain, einprogress, RecvOutcome, try_read}
use async_io_framework.Awaiters.{System, World, Frame, on_scheduler}
use async_io_framework.Awaiters.Single.{
  FdOutcome, ConnectOutcome, SockoptOutcome, accepted, connect_error, recv_some_suspend,
  recv_some_resume, accept_suspend, accept_resume, connect_suspend, connect_resume,
  async_connect_impl,
}
use async_io_framework.Awaiters.Steps.{
  Ends, Moves, Ends-next, Table, with_reader, with_writer, with_writer-ap, bind-ok,
}
use async_io_framework.Awaiters.Calls.{submit_read-Moves, submit_write-Moves, remove-Moves}

module _ {K T E B : Type 0} (sys : System K T E B) (reliable : IsReliable sys.epoll) where
  -- `async_read_some` and `async_accept` register the operation as the reader of their descriptor
  -- and nothing else, and on resumption take it back and nothing else, whatever happened in between;
  -- the one returns what `try_read` does, the other the new descriptor or the error of accept4(2).
  -- Table and epoll agree, before and after.
  pub read_once-Ends :
      (arrival : RecvOutcome) (peer : FdOutcome) (f : Frame) (w v : World K T E B)
      → Agrees sys.epoll w.scheduler
      → Agrees sys.epoll v.scheduler
      → let (r, b) = try_read sys.cursor arrival v.buf in
        Moves sys
          (recv_some_suspend sys f)
          w
          tt
          (with_reader f.conn_fd (some f.operation) (waiters w.scheduler))
        × Ends sys
            (recv_some_resume sys arrival f)
            v
            r
            v.timer
            v.token
            b
            (with_reader f.conn_fd none (waiters v.scheduler))
        × Moves sys
            (accept_suspend sys f)
            w
            tt
            (with_reader f.conn_fd (some f.operation) (waiters w.scheduler))
        × Moves sys
            (accept_resume sys peer f)
            v
            (accepted peer)
            (with_reader f.conn_fd none (waiters v.scheduler))
  unfolding recv_some_suspend recv_some_resume accept_suspend accept_resume
  read_once-Ends arrival peer f w v a a' =
      let (r, b) = try_read sys.cursor arrival v.buf in
      (
        submit_read-Moves sys reliable f.conn_fd f.conn_fd f.operation w a,
        Ends-next sys (on_scheduler (remove_read sys.epoll f.conn_fd))
            (λ w. let (r, b) = try_read sys.cursor arrival w.buf in (ok r, record w { buf = b })) v
            tt r (remove-Moves sys reliable f.conn_fd (to_underlying RegisterType.event_read) v a')
            (λ s1 a1 w1. record { after = s1; returns = refl; agrees = a1; waits = w1 }),
        submit_read-Moves sys reliable f.conn_fd f.conn_fd f.operation w a,
        Ends-next sys (on_scheduler (remove_accept sys.epoll f.conn_fd)) (pure (accepted peer)) v tt
            (accepted peer)
            (remove-Moves sys reliable f.conn_fd (to_underlying RegisterType.event_accept) v a')
            (λ s1 a1 w1. record { after = s1; returns = refl; agrees = a1; waits = w1 }),
      )

  pub connect_suspend-Moves :
      (f : Frame) (w : World K T E B)
      → Agrees sys.epoll w.scheduler
      → Moves sys
          (connect_suspend sys f)
          w
          tt
          (with_writer f.conn_fd (some f.operation) (waiters w.scheduler))
  unfolding connect_suspend
  connect_suspend-Moves f w a = submit_write-Moves sys reliable f.conn_fd f.conn_fd f.operation w a

  pub connect_resume-Moves :
      (outcome : SockoptOutcome) (f : Frame) (w : World K T E B)
      → Agrees sys.epoll w.scheduler
      → Moves sys
          (connect_resume sys outcome f)
          w
          (connect_error outcome)
          (with_writer f.conn_fd none (waiters w.scheduler))
  unfolding connect_resume
  connect_resume-Moves outcome f w a =
      Ends-next sys (on_scheduler (remove_connect sys.epoll f.conn_fd))
        (pure (connect_error outcome)) w tt (connect_error outcome)
        (remove-Moves sys reliable f.conn_fd (to_underlying RegisterType.event_connect) w a)
        (λ s1 a1 w1. record { after = s1; returns = refl; agrees = a1; waits = w1 })

  -- What `async_connect_impl` returns.
  abbrev pub connect_error_of : ConnectOutcome → SockoptOutcome → ErrorCode
  connect_error_of ConnectOutcome.connects outcome = no_error
  connect_error_of (ConnectOutcome.connect_failed errno) outcome =
      if errno == einprogress || errno == eagain then connect_error outcome else errno

  -- A call that returns `a` and leaves the table as it was.
  pub record Restores {A : Type 0} (m : Action (World K T E B) A) (w : World K T E B) (a : A)
      : Type 0 where
    pub after : World K T E B
    pub returns : m w ≡ (ok a, after)
    pub agrees : Agrees sys.epoll after.scheduler
    pub same : (j : ℕ) → waiters after.scheduler j ≡ waiters w.scheduler j

  with_writer-gone :
      (fd j : ℕ) (op : Option ℕ) (s : Table)
      → (s fd).writer ≡ none
      → with_writer fd none (with_writer fd op s) j ≡ s j
  with_writer-gone fd j op s h = ground arith

  connect_waits :
      (meanwhile : World K T E B → World K T E B) (outcome : SockoptOutcome) (f : Frame)
      (w : World K T E B)
      → ((v : World K T E B)
          → Agrees sys.epoll v.scheduler
          → Agrees sys.epoll (meanwhile v).scheduler)
      → ((v : World K T E B) (j : ℕ) → waiters (meanwhile v).scheduler j ≡ waiters v.scheduler j)
      → Agrees sys.epoll w.scheduler
      → (waiters w.scheduler f.conn_fd).writer ≡ none
      → Restores
          (connect_suspend sys f >> (λ w. connect_resume sys outcome f (meanwhile w)))
          w
          (connect_error outcome)
  connect_waits meanwhile outcome f w keeps still a empty =
      let s = connect_suspend-Moves f w a in
      let w1 : World K T E B = record w { scheduler = s.after } in
      let v = meanwhile w1 in
      let e = connect_resume-Moves outcome f v (keeps w1 s.agrees) in
      record {
        after = record { scheduler = e.after; timer = v.timer; token = v.token; buf = v.buf };
        returns =
            bind-ok (connect_suspend sys f) (λ _ w. connect_resume sys outcome f (meanwhile w)) w tt
              w1 s.returns
            ∙ e.returns;
        agrees = e.agrees;
        same = λ j.
            e.waits j
            ∙ with_writer-ap f.conn_fd none (waiters v.scheduler)
                (with_writer f.conn_fd (some f.operation) (waiters w.scheduler)) j
                (still w1 j ∙ s.waits j)
            ∙ with_writer-gone f.conn_fd j (some f.operation) (waiters w.scheduler) empty;
      }

  -- `async_connect_impl` returns 0 when connect(2) does, the error of getsockopt(2) after it waited
  -- for a connection in progress, and connect(2)'s errno otherwise. On every branch the table is as
  -- before and agrees with epoll, if nobody was writing to the descriptor and the rest of the
  -- program leaves the table meanwhile.
  pub async_connect_impl-Restores :
      (made : ConnectOutcome) (meanwhile : World K T E B → World K T E B) (outcome : SockoptOutcome)
      (f : Frame) (w : World K T E B)
      → ((v : World K T E B)
          → Agrees sys.epoll v.scheduler
          → Agrees sys.epoll (meanwhile v).scheduler)
      → ((v : World K T E B) (j : ℕ) → waiters (meanwhile v).scheduler j ≡ waiters v.scheduler j)
      → Agrees sys.epoll w.scheduler
      → (waiters w.scheduler f.conn_fd).writer ≡ none
      → Restores (async_connect_impl sys made meanwhile outcome f) w (connect_error_of made outcome)
  unfolding async_connect_impl
  async_connect_impl-Restores ConnectOutcome.connects meanwhile outcome f w keeps still a empty =
      record { after = w; returns = refl; agrees = a; same = λ j. refl }
  async_connect_impl-Restores (ConnectOutcome.connect_failed errno) meanwhile outcome f w keeps
        still a empty =
      elim (Bool-cases (errno == einprogress || errno == eagain)) [
        | inl h ↦
            let c = connect_waits meanwhile outcome f w keeps still a empty in
            rw h (record { after = c.after; returns = c.returns; agrees = c.agrees; same = c.same })
        | inr h ↦ rw h (record { after = w; returns = refl; agrees = a; same = λ j. refl })
      ]
