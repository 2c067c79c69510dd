-- ===== src/Awaiters/Resuming/Branches.antt =====
-- include/async_frame/async_read.h and include/async_frame/async_write.h: the branches of a timed
-- `await_resume`: a cancellation, the timeout, and the event.
use async_io_framework.Prelude.{
  ℕ, ◌≡◌, ◌∙◌, refl, true, false, Action, ok, none, some, ⊤, ◌>>=◌, ◌>>◌, pure,
}
use async_io_framework.Epoll.{IsReliable}
use async_io_framework.Scheduler.Agreement.{Agrees}
use async_io_framework.Scheduler.Slots.{waiters}
use async_io_framework.CancelToken.{CancelToken, consume}
use async_io_framework.Timer.{TimerEvent, cancel, consume_expirations}
use async_io_framework.Awaiters.{
  System, World, Frame, consume_token, consume_timer, cancel_timer, cancel_remove,
  refresh_timer_registration,
}
use async_io_framework.Awaiters.Steps.{
  Ends, Moves, Ends-next, Ends-from, Ends-as, with_reader, with_reader-ap, with_token,
  with_token-ap, Table,
}
use async_io_framework.Awaiters.Calls.{cancel_remove-Moves}
use async_io_framework.Awaiters.Timers.{
  ended, Kept, current_reader, cancel-Kept, if_fired-Kept, refresh_timer_registration-Ends,
}

-- The table without the operation, by `without`, and its token's reader, in which the current
-- timer's operation waits for the timerfd.
abbrev pub withdrawn : {T : Type 0} → (Table → Table) → Frame → TimerEvent T → Table → Table
withdrawn without f t slots =
    with_reader f.timer_fd (current_reader t) (with_token f.cancel_token none (without slots))

module _ {K T E B : Type 0} (sys : System K T E B) where
  -- `removes` takes the operation out of its slot, which `without` does to the table.
  pub record IsWithdrawal (timer_fd : ℕ) (removes : Action (World K T E B) ⊤)
      (without : Table → Table) : Type 0 where
    pub moves :
        (w : World K T E B)
        → Agrees sys.epoll w.scheduler
        → Moves sys removes w tt (without (waiters w.scheduler))
    pub without-ap : (s t : Table) (j : ℕ) → s j ≡ t j → without s j ≡ without t j
    pub without-token :
        (token : CancelToken) (s : Table) (j : ℕ)
        → without (with_token token none s) j ≡ with_token token none (without s) j
    pub without-timer :
        (t : TimerEvent T) (s : Table) (j : ℕ)
        → without (with_reader timer_fd (current_reader t) s) j
          ≡ with_reader timer_fd (current_reader t) (without s) j

module _ {K T E B A : Type 0} where
  -- The awaiter returns a value that depends on the buffer.
  abbrev pub gives : (B → A) → Action (World K T E B) A
  gives value w = (ok (value w.buf), w)

  -- One system call on the buffer.
  abbrev pub calls : (B → A × B) → Action (World K T E B) A
  calls call w = let (r, b) = call w.buf in (ok r, record w { buf = b })

module _ {K T E B : Type 0} (sys : System K T E B) (f : Frame) where
  abbrev pub refreshes : Action (World K T E B) ⊤
  refreshes = refresh_timer_registration sys f.timer_fd

module _ {K T E B A : Type 0} (sys : System K T E B) (f : Frame)
    (removes : Action (World K T E B) ⊤) where
  abbrev pub cancelled : (B → A) → Action (World K T E B) A
  cancelled value =
      consume_token sys f
      >> (cancel_timer sys f
          >> (removes >> (cancel_remove sys f >> (refreshes sys f >> gives value))))

  abbrev pub timed_out : (B → A) → Action (World K T E B) A
  timed_out value =
      consume_timer sys >> (cancel_timer sys f >> (removes >> (refreshes sys f >> gives value)))

  abbrev pub ready : (B → A × B) → Action (World K T E B) A
  ready call = cancel_timer sys f >> (refreshes sys f >> (calls call >>= λ r. removes >> pure r))

module _ {K T E B A : Type 0} (sys : System K T E B) (reliable : IsReliable sys.epoll) (f : Frame)
    (removes : Action (World K T E B) ⊤) (without : Table → Table)
    (withdrawal : IsWithdrawal sys f.timer_fd removes without) where
  pub cancelled-Ends :
      (value : B → A) (w : World K T E B)
      → Agrees sys.epoll w.scheduler
      → Kept sys.timerfd w.timer
      → let t = ended sys.timerfd f false w.timer in
        Ends sys
          (cancelled sys f removes value)
          w
          (value w.buf)
          t
          (consume sys.eventfd f.cancel_token w.token)
          w.buf
          (withdrawn without f t (waiters w.scheduler))
  cancelled-Ends value w a k =
      let t = cancel (some f.timer_read) w.timer in
      let w' : World K T E B = record w {
        token = consume sys.eventfd f.cancel_token w.token;
        timer = t;
      } in
      let k' = (cancel-Kept sys.timerfd (some f.timer_read) w.timer k).0 in
      let table1 = without (waiters w.scheduler) in
      let table2 = with_token f.cancel_token none table1 in
      Ends-from sys (cancelled sys f removes value) w
        (removes >> (cancel_remove sys f >> ((refreshes sys f) >> gives value))) w' refl
        (Ends-next sys removes (cancel_remove sys f >> ((refreshes sys f) >> gives value)) w' tt
          (value w.buf) (withdrawal.moves w' a)
          (λ s1 a1 w1.
            Ends-next sys (cancel_remove sys f) ((refreshes sys f) >> gives value)
              (record w' { scheduler = s1 }) tt (value w.buf)
              (cancel_remove-Moves sys reliable f (record w' { scheduler = s1 }) a1)
              (λ s2 a2 w2.
                Ends-as sys
                  (Ends-next sys (refreshes sys f) (gives value) (record w' { scheduler = s2 }) tt
                    (value w.buf)
                    (refresh_timer_registration-Ends sys reliable f.timer_fd
                      (record w' { scheduler = s2 }) a2 k')
                    (λ s3 a3 w3. record { after = s3; returns = refl; agrees = a3; waits = w3 }))
                  (λ j.
                    with_reader-ap f.timer_fd (current_reader (ended sys.timerfd f false w.timer))
                      (waiters s2) table2 j
                      (w2 j ∙ with_token-ap f.cancel_token none (waiters s1) table1 j (w1 j))))))

  pub timed_out-Ends :
      (value : B → A) (w : World K T E B)
      → Agrees sys.epoll w.scheduler
      → Kept sys.timerfd w.timer
      → let t = ended sys.timerfd f true w.timer in
        Ends sys
          (timed_out sys f removes value)
          w
          (value w.buf)
          t
          w.token
          w.buf
          (with_reader f.timer_fd (current_reader t) (without (waiters w.scheduler)))
  timed_out-Ends value w a k =
      let t = consume_expirations sys.timerfd w.timer in
      let w' : World K T E B = record w { timer = cancel (some f.timer_read) t } in
      let kept = if_fired-Kept sys.timerfd true w.timer k in
      let k' = (cancel-Kept sys.timerfd (some f.timer_read) t kept).0 in
      Ends-from sys (timed_out sys f removes value) w
        (removes >> ((refreshes sys f) >> gives value)) w' refl
        (Ends-next sys removes ((refreshes sys f) >> gives value) w' tt (value w.buf)
          (withdrawal.moves w' a)
          (λ s1 a1 w1.
            Ends-as sys
              (Ends-next sys (refreshes sys f) (gives value) (record w' { scheduler = s1 }) tt
                (value w.buf)
                (refresh_timer_registration-Ends sys reliable f.timer_fd
                  (record w' { scheduler = s1 }) a1 k')
                (λ s2 a2 w2. record { after = s2; returns = refl; agrees = a2; waits = w2 }))
              (λ j.
                with_reader-ap f.timer_fd (current_reader (ended sys.timerfd f true w.timer))
                  (waiters s1) (without (waiters w.scheduler)) j (w1 j))))

  pub ready-Ends :
      (call : B → A × B) (w : World K T E B)
      → Agrees sys.epoll w.scheduler
      → Kept sys.timerfd w.timer
      → let t = ended sys.timerfd f false w.timer in
        Ends sys
          (ready sys f removes call)
          w
          (call w.buf).0
          t
          w.token
          (call w.buf).1
          (with_reader f.timer_fd (current_reader t) (without (waiters w.scheduler)))
  ready-Ends call w a k =
      let w' : World K T E B = record w { timer = cancel (some f.timer_read) w.timer } in
      let r = (call w.buf).0 in
      let t = ended sys.timerfd f false w.timer in
      let rest = calls call >>= λ r. removes >> pure r in
      let k' = (cancel-Kept sys.timerfd (some f.timer_read) w.timer k).0 in
      let table1 = with_reader f.timer_fd (current_reader t) (waiters w.scheduler) in
      Ends-from sys (ready sys f removes call) w ((refreshes sys f) >> rest) w' refl (
        Ends-next sys (refreshes sys f) rest w' tt r
          (refresh_timer_registration-Ends sys reliable f.timer_fd w' a k')
          (λ s1 a1 w1.
            let v : World K T E B = record w { scheduler = s1; timer = t; buf = (call w.buf).1 } in
            Ends-as sys
              (Ends-from sys rest (record w { scheduler = s1; timer = t }) (removes >> pure r) v
                refl
                (Ends-next sys removes (pure r) v tt r (withdrawal.moves v a1)
                  (λ s2 a2 w2. record { after = s2; returns = refl; agrees = a2; waits = w2 })))
              (λ j.
                withdrawal.without-ap (waiters s1) table1 j (w1 j)
                ∙ withdrawal.without-timer t (waiters w.scheduler) j)))
