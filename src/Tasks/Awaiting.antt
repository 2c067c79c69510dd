-- ===== src/Tasks/Awaiting.antt =====
-- How a coroutine waits for an operation: the outer awaiters of include/async_frame/async_read.h,
-- include/async_frame/async_write.h, include/async_frame/async_connect.h,
-- include/async_frame/async_accept.h, include/async_frame/async_read_some.h,
-- include/async_frame/wait_for.h and include/async_frame/with_timeout.h, which start a task and
-- read its result, over `read_op::complete` (include/async_frame/single_operator.h).
pub mod Waking
use async_io_framework.Prelude.{
  ℕ, zero, suc, ◌+◌, Bool, true, not, Option, none, some, List, Map, lookup, insert, has, put,
  if◌then◌else◌,
}
use async_io_framework.Operations.{ReadOp, complete_read_op}

-- What a coroutine does when it is resumed. A `caller` is the program's coroutine at its `co_await`.
-- A `loop` is `async_read_impl` or one of the others at its inner awaiter: how often it will suspend
-- there again before it returns, and the handle `base_.outer_`. A `forward` is `with_timeout_impl`
-- at its `co_await`, which then returns.
pub data Body : Type 0 where
  caller : Body
  loop : ℕ → ℕ → Body
  forward : Body

-- The coroutines by their handles, those that have finished, the operation that waits for the
-- connection, and how often the caller has gone on.
pub record Coroutines : Type 0 where
  pub bodies : Map Body
  pub finished : List ℕ
  pub waiting : Option ReadOp
  pub went_on : ℕ

abbrev pub is_finished : Coroutines → ℕ → Bool
is_finished s h = has h s.finished

-- `co_await` of the inner awaiter, whose operation is `{.inner = inner, .outer = base_.outer_}`.
abbrev pub run_loop : ℕ → ℕ → ℕ → Coroutines → Coroutines
run_loop h zero outer s = record s { waiting = none; finished = put h s.finished }
run_loop h (suc left) outer s = record s {
  waiting = some (record { inner = some h; outer = some outer });
  bodies = insert h (Body.loop left outer) s.bodies;
}

abbrev pub go_on : ℕ → Body → Coroutines → Coroutines
go_on h Body.caller s = record s { went_on = s.went_on + 1 }
go_on h (Body.loop left outer) s = run_loop h left outer s
go_on h Body.forward s = record s { finished = put h s.finished }

-- `handle.resume()`
unfoldable pub resume : ℕ → Coroutines → Coroutines
resume h s = elim (lookup h s.bodies) [ none ↦ s | some body ↦ go_on h body s ]

-- The event that the connection is ready: the operation that waits completes.
unfoldable pub event : Coroutines → Coroutines
event s = elim s.waiting [ none ↦ s | some op ↦ complete_read_op is_finished resume op s ]

unfoldable pub events : ℕ → Coroutines → Coroutines
events zero s = s
events (suc n) s = events n (event s)

-- The task that `async_read_impl` returns when it is called: it runs until it suspends or returns.
-- `await_suspend` gives whether the caller stays suspended.
abbrev pub start_and_test : ℕ → ℕ → ℕ → Coroutines → Bool × Coroutines
start_and_test h left outer s = let s' = run_loop h left outer s in (not (is_finished s' h), s')

-- `await_suspend` of the awaiters of `async_read`, `async_read_timeout`, `async_write` and
-- `async_write_timeout`. `h` is the handle of the loop, and `left` how often it will suspend.
abbrev pub read_await_suspend : ℕ → ℕ → ℕ → Coroutines → Bool × Coroutines
read_await_suspend h left outer s = start_and_test h left outer s

abbrev pub read_timeout_await_suspend : ℕ → ℕ → ℕ → Coroutines → Bool × Coroutines
read_timeout_await_suspend h left outer s = start_and_test h left outer s

abbrev pub write_await_suspend : ℕ → ℕ → ℕ → Coroutines → Bool × Coroutines
write_await_suspend h left outer s = start_and_test h left outer s

abbrev pub write_timeout_await_suspend : ℕ → ℕ → ℕ → Coroutines → Bool × Coroutines
write_timeout_await_suspend h left outer s = start_and_test h left outer s

-- `async_connect`, whose task suspends once, or not at all where connect(2) is not in progress.
abbrev pub connect_await_suspend : ℕ → ℕ → ℕ → Coroutines → Bool × Coroutines
connect_await_suspend h left outer s = start_and_test h left outer s

-- `async_accept`, `async_read_some` and `wait_for`: their tasks suspend once, and `await_suspend`
-- returns nothing.
abbrev pub accept_await_suspend : ℕ → ℕ → Coroutines → Bool × Coroutines
accept_await_suspend h outer s = (true, run_loop h 1 outer s)

abbrev pub recv_some_await_suspend : ℕ → ℕ → Coroutines → Bool × Coroutines
recv_some_await_suspend h outer s = (true, run_loop h 1 outer s)

abbrev pub wait_for_await_suspend : ℕ → ℕ → Coroutines → Bool × Coroutines
wait_for_await_suspend h outer s = (true, run_loop h 1 outer s)

-- The outer awaiters.
pub data OuterAwaiter : Type 0 where
  read read_timeout write write_timeout connect accept recv_some wait_for : OuterAwaiter

abbrev pub await_suspend : OuterAwaiter → ℕ → ℕ → ℕ → Coroutines → Bool × Coroutines
await_suspend OuterAwaiter.read = read_await_suspend
await_suspend OuterAwaiter.read_timeout = read_timeout_await_suspend
await_suspend OuterAwaiter.write = write_await_suspend
await_suspend OuterAwaiter.write_timeout = write_timeout_await_suspend
await_suspend OuterAwaiter.connect = connect_await_suspend
await_suspend OuterAwaiter.accept = λ h left. accept_await_suspend h
await_suspend OuterAwaiter.recv_some = λ h left. recv_some_await_suspend h
await_suspend OuterAwaiter.wait_for = λ h left. wait_for_await_suspend h

-- How often the awaiter's task suspends.
abbrev pub suspensions : OuterAwaiter → ℕ → ℕ
suspensions OuterAwaiter.read left = left
suspensions OuterAwaiter.read_timeout left = left
suspensions OuterAwaiter.write left = left
suspensions OuterAwaiter.write_timeout left = left
suspensions OuterAwaiter.connect left = left
suspensions OuterAwaiter.accept left = 1
suspensions OuterAwaiter.recv_some left = 1
suspensions OuterAwaiter.wait_for left = 1

-- `operation_kind()`; another awaiter has none, and `with_timeout_impl` awaits it as it is.
pub data OperationKind : Type 0 where
  read_operation write_operation other_operation : OperationKind

-- `with_timeout_impl`, up to where it suspends or returns. It does not use the caller's handle.
unfoldable pub with_timeout_impl : OperationKind → ℕ → ℕ → ℕ → Coroutines → Coroutines
with_timeout_impl kind forwarder h left s =
    let started = record s { bodies = insert forwarder Body.forward s.bodies } in
    let r : Bool × Coroutines = elim kind [
      | OperationKind.read_operation ↦ read_timeout_await_suspend h left forwarder started
      | OperationKind.write_operation ↦ write_timeout_await_suspend h left forwarder started
      | OperationKind.other_operation ↦ start_and_test h left forwarder started
    ] in
    if r.0 then r.1 else go_on forwarder Body.forward r.1

-- `await_suspend` of `with_timeout`, which returns nothing: the caller stays suspended.
unfoldable pub with_timeout_await_suspend :
    OperationKind → ℕ → ℕ → ℕ → ℕ → Coroutines → Bool × Coroutines
unfolding with_timeout_impl
with_timeout_await_suspend kind forwarder h left outer s =
    (true, with_timeout_impl kind forwarder h left s)

-- `co_await` of an outer awaiter by the program's coroutine `outer`.
abbrev pub await : (ℕ → Coroutines → Bool × Coroutines) → ℕ → Coroutines → Coroutines
await suspend outer s =
    let (suspends, s') = suspend outer (record s { bodies = insert outer Body.caller s.bodies }) in
    if suspends then s' else go_on outer Body.caller s'
