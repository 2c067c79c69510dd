-- ===== src/Awaiters/Program.antt =====
-- The operations of a program over one scheduler and one queue of timers: what other operations do
-- while one of include/async_frame/async_read.h or include/async_frame/async_write.h is suspended. An
-- operation runs in parts, its `await_suspend` and its `await_resume`, and any parts may follow one
-- another.
pub mod Parts
pub mod Reading
pub mod Writing
pub mod EventLoop
use async_io_framework.Prelude.{
  ℕ, ◌+◌, ◌≤◌, ◌≡◌, Bool, false, Option, none, some, List, [], ◌∷◌, Action, ok, ⊤, ◌>>◌, pure,
  modify, ◌==◌,
}
use async_io_framework.CancelToken.{SharedState, request_cancel}
use async_io_framework.Timer.{Timespec, to_time_point}
use async_io_framework.Transfer.{RecvOutcome, SendOutcome}
use async_io_framework.Awaiters.{System, World, Frame}
use async_io_framework.Awaiters.Recv.{
  recv_suspend, recv_resume, recv_timeout_suspend, recv_timeout_resume,
}
use async_io_framework.Awaiters.Send.{
  send_suspend, send_resume, send_timeout_suspend, send_timeout_resume,
}
use async_io_framework.Awaiters.Single.{
  FdOutcome, SockoptOutcome, recv_some_suspend, recv_some_resume, accept_suspend, accept_resume,
  connect_suspend, connect_resume, wait_suspend, wait_resume,
}

-- One part of an operation, with what the kernel and the clock answer, or a request to cancel.
pub data Part : Type 0 where
  recv_suspends : Bool → Frame → Part
  recv_resumes : RecvOutcome → Frame → Part
  recv_timeout_suspends : Bool → ℕ → ℕ → Frame → Part
  recv_timeout_resumes : Timespec → RecvOutcome → Frame → Part
  send_suspends : Bool → Frame → Part
  send_resumes : SendOutcome → Frame → Part
  send_timeout_suspends : Bool → ℕ → ℕ → Frame → Part
  send_timeout_resumes : Timespec → SendOutcome → Frame → Part
  recv_some_suspends : Frame → Part
  recv_some_resumes : RecvOutcome → Frame → Part
  accept_suspends : Frame → Part
  accept_resumes : FdOutcome → Frame → Part
  connect_suspends : Frame → Part
  connect_resumes : SockoptOutcome → Frame → Part
  wait_suspends : ℕ → ℕ → Frame → Part
  wait_resumes : Frame → Part
  requests_cancel : Part

-- The timer ids that a part may take.
abbrev pub ids_of : Part → ℕ
ids_of (Part.recv_suspends race f) = 0
ids_of (Part.recv_resumes outcome f) = 0
ids_of (Part.recv_timeout_suspends race now delay f) = 1
ids_of (Part.recv_timeout_resumes left outcome f) = 0
ids_of (Part.send_suspends race f) = 0
ids_of (Part.send_resumes outcome f) = 0
ids_of (Part.send_timeout_suspends race now delay f) = 1
ids_of (Part.send_timeout_resumes left outcome f) = 0
ids_of (Part.recv_some_suspends f) = 0
ids_of (Part.recv_some_resumes outcome f) = 0
ids_of (Part.accept_suspends f) = 0
ids_of (Part.accept_resumes outcome f) = 0
ids_of (Part.connect_suspends f) = 0
ids_of (Part.connect_resumes outcome f) = 0
ids_of (Part.wait_suspends now delay f) = 1
ids_of (Part.wait_resumes f) = 0
ids_of Part.requests_cancel = 0

-- A deadline is positive, and a connection is not the timerfd.
abbrev pub IsAdmissible : Part → Type 0
IsAdmissible (Part.recv_suspends race f) = ⊤
IsAdmissible (Part.recv_resumes outcome f) = ⊤
IsAdmissible (Part.recv_timeout_suspends race now delay f) = 1 ≤ to_time_point now delay
IsAdmissible (Part.recv_timeout_resumes left outcome f) = (f.conn_fd == f.timer_fd) ≡ false
IsAdmissible (Part.send_suspends race f) = ⊤
IsAdmissible (Part.send_resumes outcome f) = ⊤
IsAdmissible (Part.send_timeout_suspends race now delay f) = 1 ≤ to_time_point now delay
IsAdmissible (Part.send_timeout_resumes left outcome f) = ⊤
IsAdmissible (Part.recv_some_suspends f) = ⊤
IsAdmissible (Part.recv_some_resumes outcome f) = ⊤
IsAdmissible (Part.accept_suspends f) = ⊤
IsAdmissible (Part.accept_resumes outcome f) = ⊤
IsAdmissible (Part.connect_suspends f) = ⊤
IsAdmissible (Part.connect_resumes outcome f) = ⊤
IsAdmissible (Part.wait_suspends now delay f) = 1 ≤ to_time_point now delay
IsAdmissible (Part.wait_resumes f) = ⊤
IsAdmissible Part.requests_cancel = ⊤

-- A part of another operation, which has a buffer of its own, and a token of its own or, with
-- `none`, the token of the operation at hand.
pub record Other (E B : Type 0) : Type 0 where
  pub part : Part
  pub own_token : Option (SharedState E)
  pub own_buf : B

abbrev pub ids_of_all : {E B : Type 0} → List (Other E B) → ℕ
ids_of_all [] = 0
ids_of_all (o ∷ os) = ids_of_all os + ids_of o.part

abbrev pub AllAdmissible : {E B : Type 0} → List (Other E B) → Type 0
AllAdmissible [] = ⊤
AllAdmissible (o ∷ os) = IsAdmissible o.part × AllAdmissible os

module _ {K T E B : Type 0} (sys : System K T E B) where
  unfoldable pub run : Part → Action (World K T E B) ⊤
  run (Part.recv_suspends race f) = recv_suspend sys race f >> pure tt
  run (Part.recv_resumes outcome f) = recv_resume sys outcome f >> pure tt
  run (Part.recv_timeout_suspends race now delay f) =
      recv_timeout_suspend sys race now delay f >> pure tt
  run (Part.recv_timeout_resumes left outcome f) = recv_timeout_resume sys left outcome f >> pure tt
  run (Part.send_suspends race f) = send_suspend sys race f >> pure tt
  run (Part.send_resumes outcome f) = send_resume sys outcome f >> pure tt
  run (Part.send_timeout_suspends race now delay f) =
      send_timeout_suspend sys race now delay f >> pure tt
  run (Part.send_timeout_resumes left outcome f) = send_timeout_resume sys left outcome f >> pure tt
  run (Part.recv_some_suspends f) = recv_some_suspend sys f
  run (Part.recv_some_resumes outcome f) = recv_some_resume sys outcome f >> pure tt
  run (Part.accept_suspends f) = accept_suspend sys f
  run (Part.accept_resumes outcome f) = accept_resume sys outcome f >> pure tt
  run (Part.connect_suspends f) = connect_suspend sys f
  run (Part.connect_resumes outcome f) = connect_resume sys outcome f >> pure tt
  run (Part.wait_suspends now delay f) = wait_suspend sys now delay f
  run (Part.wait_resumes f) = wait_resume sys f >> pure tt
  run Part.requests_cancel = modify λ w. record w { token = request_cancel sys.eventfd w.token }

  -- The world as the other operation finds it, and as it leaves it.
  abbrev pub entered : Other E B → World K T E B → World K T E B
  entered o w = record w {
    token = elim o.own_token [ none ↦ w.token | some token ↦ token ];
    buf = o.own_buf;
  }

  abbrev pub returned : Other E B → World K T E B → World K T E B → World K T E B
  returned o w w' = record w {
    scheduler = w'.scheduler;
    timer = w'.timer;
    token = elim o.own_token [ none ↦ w'.token | some token ↦ w.token ];
  }

  abbrev pub perform : Other E B → Action (World K T E B) ⊤
  perform o w = let (r, w') = run o.part (entered o w) in (r, returned o w w')

  unfoldable pub others_do : List (Other E B) → World K T E B → World K T E B
  others_do [] w = w
  others_do (o ∷ os) w = others_do os (perform o w).1

  -- No part throws.
  abbrev pub AllReturn : List (Other E B) → World K T E B → Type 0
  AllReturn [] w = ⊤
  AllReturn (o ∷ os) w = ((perform o w).0 ≡ ok tt) × AllReturn os (perform o w).1
