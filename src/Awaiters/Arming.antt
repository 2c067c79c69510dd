-- ===== src/Awaiters/Arming.antt =====
-- include/async_frame/async_read.h and include/async_frame/async_write.h: what the `await_suspend` of
-- the inner awaiters with a timeout register, while no cancellation is requested.
use async_io_framework.Prelude.{
  Action, ⊤, branch, false, ℕ, ◌+◌, ◌≤◌, ◌<◌, ◌≡◌, ◌∙◌, refl, ap, true, false, some, ◌>>◌, ◌==◌,
  if◌then◌else◌, pure,
}
use async_io_framework.Prelude.Words.{u64_mod}
use async_io_framework.Epoll.{IsReliable}
use async_io_framework.Scheduler.Slots.{waiters}
use async_io_framework.Timer.{set_timer, to_time_point}
use async_io_framework.Timer.Total.{timer_total}
use async_io_framework.Timer.Invariant.{pending}
use async_io_framework.Timer.Setting.{new_task}
use async_io_framework.Awaiters.{
  System, World, Frame, on_timer, is_cancelled, cancel_submit, reading, refresh_timer_registration,
}
use async_io_framework.Awaiters.Steps.{
  Moves, Table, Ends, Ends-next, Ends-from, Ends-branch-false, Ends-as, bind-ok, with_reader,
  with_reader-ap, with_token, with_token-ap,
}
use async_io_framework.Awaiters.Calls.{cancel_submit-Moves}
use async_io_framework.Awaiters.Suspending.{submits_token, arms}
use async_io_framework.Awaiters.Timers.{
  started, Kept, Sound, current_reader, refresh-Sound, set_timer-Sound, Sound-Kept,
  refresh_timer_registration-Ends,
}

module _ {K T E B : Type 0} (sys : System K T E B) (reliable : IsReliable sys.epoll) (f : Frame)
    (submit : Action (World K T E B) ⊤) (slots : Table) where
  suspend-Ends :
      (now delay : ℕ) (w : World K T E B)
      → Moves sys submit w tt slots
      → Kept sys.timerfd w.timer
      → is_cancelled sys f w ≡ false
      → 1 ≤ to_time_point now delay
      → w.timer.next_timer_id + 1 < u64_mod
      → let t = started sys.timerfd now delay f w.timer in
        Ends sys
          (branch (is_cancelled sys f) (pure false) (submit >> arms sys false now delay f))
          w
          true
          t
          w.token
          w.buf
          (with_token f.cancel_token
            (some f.cancel_read)
            (with_reader f.timer_fd (current_reader t) slots))
  suspend-Ends now delay w first k h pos room =
      let t1 = (set_timer sys.timerfd now (reading f.timer_fd f.timer_read) delay w.timer).1 in
      let t2 = started sys.timerfd now delay f w.timer in
      let sets = on_timer (set_timer sys.timerfd now (reading f.timer_fd f.timer_read) delay) in
      let refreshes = refresh_timer_registration sys f.timer_fd in
      let last = submits_token sys false f in
      let total = (timer_total sys.timerfd now (reading f.timer_fd f.timer_read) delay w.timer).2 in
      let sound =
        (set_timer-Sound sys.timerfd now f.timer_fd f.timer_read delay w.timer k pos room).0 in
      let table2 = with_reader f.timer_fd (current_reader t2) slots in
      Ends-branch-false sys (is_cancelled sys f) (pure false) (submit >> arms sys false now delay f)
        w true h
        (Ends-next sys submit (sets >> (refreshes >> last)) w tt true first (λ s1 a1 w1.
          let v : World K T E B = record w { scheduler = s1 } in
          let v1 : World K T E B = record v { timer = t1 } in
          Ends-from sys (sets >> (refreshes >> last)) v (refreshes >> last) v1
            (bind-ok sets (λ _. refreshes >> last) v tt v1 (ap (λ r. (r, v1)) total))
            (Ends-next sys refreshes last v1 tt true
              (refresh_timer_registration-Ends sys reliable f.timer_fd v1 a1
                (Sound-Kept sys.timerfd t1 sound))
              (λ s2 a2 w2.
                Ends-as sys
                  (Ends-next sys (cancel_submit sys f) (pure true)
                    (record v { scheduler = s2; timer = t2 }) tt true
                    (cancel_submit-Moves sys reliable f (record v { scheduler = s2; timer = t2 }) a2
                      h)
                    (λ s3 a3 w3. record { after = s3; returns = refl; agrees = a3; waits = w3 }))
                  (λ j. with_token-ap f.cancel_token (some f.cancel_read) (waiters s2) table2 j (
                    w2 j
                    ∙ with_reader-ap f.timer_fd (current_reader t2) (waiters s1) slots j
                        (w1 j)))))))

  -- A timed `await_suspend` whose submission leaves the table `slots`: the slot's operation becomes
  -- the token's reader, and a timer with the deadline now + delay is added.
  pub suspend-Sound :
      (now delay : ℕ) (w : World K T E B)
      → Moves sys submit w tt slots
      → Kept sys.timerfd w.timer
      → is_cancelled sys f w ≡ false
      → 1 ≤ to_time_point now delay
      → w.timer.next_timer_id + 1 < u64_mod
      → let t = started sys.timerfd now delay f w.timer in
        Ends sys
          (branch (is_cancelled sys f) (pure false) (submit >> arms sys false now delay f))
          w
          true
          t
          w.token
          w.buf
          (with_token f.cancel_token
            (some f.cancel_read)
            (with_reader f.timer_fd (current_reader t) slots))
        × Sound sys.timerfd t
        × ((i : ℕ)
            → pending t i ≡ (
                if w.timer.next_timer_id == i
                then some (
                    new_task sys.timerfd
                      (reading f.timer_fd f.timer_read)
                      (to_time_point now delay)
                      w.timer)
                else pending w.timer i))
  suspend-Sound now delay w first k h pos room =
      let (sound, added) =
        set_timer-Sound sys.timerfd now f.timer_fd f.timer_read delay w.timer k pos room in
      let t1 = (set_timer sys.timerfd now (reading f.timer_fd f.timer_read) delay w.timer).1 in
      let (s, same) = refresh-Sound sys.timerfd t1 (Sound-Kept sys.timerfd t1 sound) in
      (suspend-Ends now delay w first k h pos room, s, λ i. same i ∙ added i)
