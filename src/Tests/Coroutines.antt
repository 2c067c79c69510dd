-- ===== src/Tests/Coroutines.antt =====
-- Examples for include/async_frame/task.h, include/async_frame/with_timeout.h,
-- include/async_frame/base.h and the outer awaiters.
use async_io_framework.Prelude.{
  ℕ, ◌≡◌, ◌≢◌, refl, none, [], ◌∷◌, true, false, lookup, insert, has, arith,
}
use async_io_framework.Transfer.{OpStatus}
use async_io_framework.Operations.Status.{attempts, attempts_first, initial, finished}
use async_io_framework.Tasks.{
  Tasks, Fetched, start_task, task_move_construct, task_move_assign, task_result, return_value,
}
use async_io_framework.Tasks.Ownership.{Owned, Step, Reach, tasks-Owned}
use async_io_framework.Tasks.Results.{task_result-move}
use async_io_framework.Tasks.Awaiting.{
  Coroutines, OperationKind, events, await, with_timeout_await_suspend, is_finished,
}
use async_io_framework.Tasks.Awaiting.Waking.{with_timeout_never_wakes}

abbrev no_tasks : Tasks ℕ
no_tasks = record { handles = []; frames = []; faults = 0 }

-- Task 1 owns frame 10, which returns 42, and is moved into task 2.
abbrev called : Tasks ℕ
called = start_task 0 1 10 no_tasks

abbrev returned : Tasks ℕ
returned = record called {
  frames =
      insert 10 (return_value 42 (record { result = 0; eptr = none; finished = false }))
        called.frames;
}

returned-Reach : Reach no_tasks returned
unfolding start_task lookup insert
returned-Reach =
    Reach.next (Reach.next Reach.here (Step.starts 0 1 10 refl refl))
      (Step.returns 42 10 (record { result = 0; eptr = none; finished = false }) refl refl)

returned-Owned : Owned returned
returned-Owned = tasks-Owned returned-Reach

tasks-Owned_example : Owned (task_move_construct 2 1 returned)
unfolding start_task lookup insert
tasks-Owned_example = tasks-Owned (Reach.next returned-Reach (Step.moves 2 1 refl))

result_moves :
    let t = task_move_assign 2 1 returned in
    (task_result 2 t ≡ task_result 1 returned)
    × (task_result 2 t ≢ Fetched.undefined)
    × (lookup 1 t.handles ≡ none)
unfolding start_task lookup insert
result_moves = task_result-move 2 1 10 returned returned-Owned refl (λ e. ground arith)

first_attempt_wins :
    let nexts = OpStatus.timeout ∷ OpStatus.completed ∷ OpStatus.cancelled ∷ [] in
    (attempts nexts initial ≡ (true ∷ false ∷ false ∷ [], record { result = OpStatus.timeout }))
    × (finished (attempts nexts initial).1 ≡ true)
first_attempt_wins =
    attempts_first OpStatus.timeout (OpStatus.completed ∷ OpStatus.cancelled ∷ [])
      (refl, (refl, (refl, tt)))

abbrev no_coroutines : Coroutines
no_coroutines = record { bodies = []; finished = []; waiting = none; went_on = 0 }

with_timeout_never_wakes_example :
    let t =
      events 5
        (await (with_timeout_await_suspend OperationKind.read_operation 2 1 3) 3 no_coroutines) in
    (t.went_on ≡ 0) × (is_finished t 1 ≡ true) × (is_finished t 2 ≡ true)
unfolding has
with_timeout_never_wakes_example =
    with_timeout_never_wakes 1 2 3 (λ e. ground arith) OperationKind.read_operation 3 5
      no_coroutines refl refl
