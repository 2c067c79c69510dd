-- ===== src/Awaiters/Calls.antt =====
-- include/async_frame/scheduler.h and include/async_frame/single_operator.h in an awaiter: what each
-- call on the scheduler does to the table, and what it leaves alone.
use async_io_framework.Prelude.{
  ℕ, ◌≡◌, ◌∙◌, refl, ap, Bool, true, false, none, some, ok, arith, ◌==◌, if◌then◌else◌,
}
use async_io_framework.Events.{Events, RegisterType, to_underlying}
use async_io_framework.Epoll.{IsReliable}
use async_io_framework.Operations.{FdOps}
use async_io_framework.Scheduler.{submit_event_impl, remove_op_impl}
use async_io_framework.Scheduler.Agreement.{
  Agrees, Supplies, submit_event_impl-Agrees, remove_op_impl-Agrees,
}
use async_io_framework.Scheduler.Total.{submit_event_impl_total, remove_op_impl_total}
use async_io_framework.Scheduler.Slots.{
  waiters, admit, dismiss, waiters-submit_event_impl, waiters-remove_op_impl,
}
use async_io_framework.CancelToken.{CancelToken, is_requested}
use async_io_framework.Awaiters.{
  System, World, Frame, submit_slot, remove_slot, on_scheduler, cancel_submit, cancel_remove,
  reading, writing, is_cancelled,
}
use async_io_framework.Awaiters.Steps.{Moves, with_reader, with_writer, with_token}

if_true : {A : Type 0} (b : Bool) (x y : A) → b ≡ true → (if b then x else y) ≡ x
if_true b x y h = rw h

if_false : {A : Type 0} (b : Bool) (x y : A) → b ≡ false → (if b then x else y) ≡ y
if_false b x y h = rw h

module _ {K T E B : Type 0} (sys : System K T E B) where
  module _ (reliable : IsReliable sys.epoll) where
    pub submit-Moves :
        (fd : ℕ) (op : FdOps) (event : Events) (w : World K T E B)
        → Agrees sys.epoll w.scheduler
        → Supplies op event
        → Moves sys
            (on_scheduler (submit_event_impl sys.epoll fd op event))
            w
            tt
            (λ j. if fd == j then admit event op (waiters w.scheduler j) else waiters w.scheduler j)
    submit-Moves fd op event w a p =
        let total = submit_event_impl_total sys.epoll fd op event w.scheduler reliable a in
        let after = (submit_event_impl sys.epoll fd op event w.scheduler).1 in
        record {
          after = after;
          returns = ap (λ r. (r, record w { scheduler = after })) total;
          agrees = submit_event_impl-Agrees sys.epoll fd op event w.scheduler a p total;
          waits = λ j. waiters-submit_event_impl sys.epoll fd j op event w.scheduler;
        }

    pub remove-Moves :
        (fd : ℕ) (event : Events) (w : World K T E B)
        → Agrees sys.epoll w.scheduler
        → Moves sys
            (on_scheduler (remove_op_impl sys.epoll fd event))
            w
            tt
            (λ j. if fd == j then dismiss event (waiters w.scheduler j) else waiters w.scheduler j)
    remove-Moves fd event w a =
        let total = remove_op_impl_total sys.epoll fd event w.scheduler reliable a in
        let after = (remove_op_impl sys.epoll fd event w.scheduler).1 in
        record {
          after = after;
          returns = ap (λ r. (r, record w { scheduler = after })) total;
          agrees = remove_op_impl-Agrees sys.epoll fd event w.scheduler a total;
          waits = λ j. waiters-remove_op_impl sys.epoll fd j event w.scheduler a;
        }

    pub submit_read-Moves :
        (fd at op : ℕ) (w : World K T E B)
        → Agrees sys.epoll w.scheduler
        → Moves sys
            (on_scheduler (
              submit_event_impl sys.epoll fd
                (reading at op)
                (to_underlying RegisterType.event_read)))
            w
            tt
            (with_reader fd (some op) (waiters w.scheduler))
    submit_read-Moves fd at op w a =
        submit-Moves fd (reading at op) (to_underlying RegisterType.event_read) w a
          (record { some_event = refl; read_op = λ h. refl; write_op = λ h. ground arith })

    pub submit_write-Moves :
        (fd at op : ℕ) (w : World K T E B)
        → Agrees sys.epoll w.scheduler
        → Moves sys
            (on_scheduler (
              submit_event_impl sys.epoll fd
                (writing at op)
                (to_underlying RegisterType.event_write)))
            w
            tt
            (with_writer fd (some op) (waiters w.scheduler))
    submit_write-Moves fd at op w a =
        submit-Moves fd (writing at op) (to_underlying RegisterType.event_write) w a
          (record { some_event = refl; read_op = λ h. ground arith; write_op = λ h. refl })

    submit_slot-Moves :
        (token : CancelToken) (op : ℕ) (w : World K T E B)
        → Agrees sys.epoll w.scheduler
        → is_requested sys.eventfd token w.token ≡ false
        → Moves sys
            (submit_slot sys token op)
            w
            tt
            (with_token token (some op) (waiters w.scheduler))
    submit_slot-Moves CancelToken.noop op w a h = record {
      after = w.scheduler;
      returns = refl;
      agrees = a;
      waits = λ j. refl;
    }
    submit_slot-Moves (CancelToken.event fd) op w a h =
        let s = submit_read-Moves fd fd op w a in
        record {
          after = s.after;
          returns = if_false w.token.cancelled _ _ h ∙ s.returns;
          agrees = s.agrees;
          waits = s.waits;
        }

    -- Outside a race, `cancel_slot::submit` registers for the token.
    pub cancel_submit-Moves :
        (f : Frame) (w : World K T E B)
        → Agrees sys.epoll w.scheduler
        → is_cancelled sys f w ≡ false
        → Moves sys
            (cancel_submit sys f)
            w
            tt
            (with_token f.cancel_token (some f.cancel_read) (waiters w.scheduler))
    unfolding cancel_submit
    cancel_submit-Moves f w a h = submit_slot-Moves f.cancel_token f.cancel_read w a h

    submit_slot-requested :
        (token : CancelToken) (op : ℕ) (w : World K T E B)
        → is_requested sys.eventfd token w.token ≡ true
        → submit_slot sys token op w ≡ (ok tt, w)
    submit_slot-requested CancelToken.noop op w h = refl
    submit_slot-requested (CancelToken.event fd) op w h = if_true w.token.cancelled _ _ h

    -- After a request `cancel_slot::submit` does nothing.
    pub cancel_submit-requested :
        (f : Frame) (w : World K T E B)
        → is_cancelled sys f w ≡ true
        → cancel_submit sys f w ≡ (ok tt, w)
    unfolding cancel_submit
    cancel_submit-requested f w h = submit_slot-requested f.cancel_token f.cancel_read w h

    remove_slot-Moves :
        (token : CancelToken) (w : World K T E B)
        → Agrees sys.epoll w.scheduler
        → Moves sys (remove_slot sys token) w tt (with_token token none (waiters w.scheduler))
    remove_slot-Moves CancelToken.noop w a = record {
      after = w.scheduler;
      returns = refl;
      agrees = a;
      waits = λ j. refl;
    }
    remove_slot-Moves (CancelToken.event fd) w a =
        remove-Moves fd (to_underlying RegisterType.event_read) w a

    pub cancel_remove-Moves :
        (f : Frame) (w : World K T E B)
        → Agrees sys.epoll w.scheduler
        → Moves sys
            (cancel_remove sys f)
            w
            tt
            (with_token f.cancel_token none (waiters w.scheduler))
    unfolding cancel_remove
    cancel_remove-Moves f w a = remove_slot-Moves f.cancel_token w a
