-- ===== src/Tests/Scheduling.antt =====
-- Examples for include/async_frame/scheduler.h, include/async_frame/single_operator.h and
-- include/async_frame/operator.h.
use async_io_framework.Prelude.{
  ℕ, ◌≡◌, refl, Bool, true, false, [], ◌∷◌, none, some, List, lookup, ok, arith, ◌==◌, Map,
  if◌then◌else◌, ◌>>◌,
}
use async_io_framework.Operations.{
  FdOps, ReadOp, WriteOp, complete_read_op, complete_write_op, complete_accept_operation,
}
use async_io_framework.Operations.Safety.{
  watch, watched_done, watched_resume, NoneFinished, complete_safe, accept_operation_unsafe,
}
use async_io_framework.Epoll.{EpollEvent}
use async_io_framework.Scheduler.{Scheduler, FdState, submit_event_impl, remove_op_impl}
use async_io_framework.Scheduler.Agreement.{
  Agrees, Supplies, submit_event_impl-Agrees, remove_op_impl-Agrees,
}
use async_io_framework.Scheduler.Total.{submit_event_impl_total, remove_op_impl_total}
use async_io_framework.Scheduler.Slots.{
  waiters, admit, dismiss, waiters-submit_event_impl, waiters-remove_op_impl,
}
use async_io_framework.Scheduler.Roundtrip.{submit-remove}
use async_io_framework.Tests.Fixtures.{
  epoll_table, EpollTable, epoll_table-IsReliable, one_reader, one_reader-Agrees, reads, writes,
}

-- A writer, at descriptors 7 and 9.
abbrev writer : FdOps
writer = record { fd = 9; write = some 200; read = none }

writer-Supplies : Supplies writer writes
writer-Supplies = record { some_event = refl; read_op = λ h. ground arith; write_op = λ h. refl }

submit_event_impl-Agrees_example :
    Agrees epoll_table (submit_event_impl epoll_table 7 writer writes one_reader).1
submit_event_impl-Agrees_example =
    submit_event_impl-Agrees epoll_table 7 writer writes one_reader one_reader-Agrees
      writer-Supplies
      (submit_event_impl_total epoll_table 7 writer writes one_reader epoll_table-IsReliable
        one_reader-Agrees)

remove_op_impl-Agrees_example : Agrees epoll_table (remove_op_impl epoll_table 7 reads one_reader).1
remove_op_impl-Agrees_example =
    remove_op_impl-Agrees epoll_table 7 reads one_reader one_reader-Agrees
      (remove_op_impl_total epoll_table 7 reads one_reader epoll_table-IsReliable one_reader-Agrees)

waiters-submit_event_impl_example :
    waiters (submit_event_impl epoll_table 7 writer writes one_reader).1 7
    ≡ admit writes writer (waiters one_reader 7)
waiters-submit_event_impl_example =
    waiters-submit_event_impl epoll_table 7 7 writer writes one_reader

waiters-remove_op_impl_example :
    waiters (remove_op_impl epoll_table 7 reads one_reader).1 7
    ≡ dismiss reads (waiters one_reader 7)
waiters-remove_op_impl_example =
    waiters-remove_op_impl epoll_table 7 7 reads one_reader one_reader-Agrees

submit-remove_example :
    let (r, s') =
      (submit_event_impl epoll_table 9 writer writes >> remove_op_impl epoll_table 9 writes)
        one_reader in
    (r ≡ ok tt)
    × ((j : ℕ) → lookup j s'.fd_to_op ≡ lookup j one_reader.fd_to_op)
    × ((j : ℕ) → lookup j s'.epoll_manager ≡ lookup j one_reader.epoll_manager)
unfolding lookup
submit-remove_example =
    submit-remove epoll_table 9 writer writes one_reader epoll_table-IsReliable one_reader-Agrees
      writer-Supplies refl

-- Two coroutines, 1 inside 2: the state is the list of the coroutines that were resumed, and a
-- coroutine finishes when it is resumed.
abbrev has_finished : List ℕ → ℕ → Bool
has_finished [] h = false
has_finished (x ∷ xs) h = if x == h then true else has_finished xs h

abbrev run : ℕ → List ℕ → List ℕ
run h s = h ∷ s

abbrev pair_read : ReadOp
pair_read = record { inner = some 1; outer = some 2 }

abbrev pair_write : WriteOp
pair_write = record { inner = some 1; outer = some 2 }

complete_safe_example :
    NoneFinished
      (complete_read_op
        (watched_done has_finished run)
        (watched_resume has_finished run)
        pair_read
        (watch has_finished run [])).resumed
    × NoneFinished
        (complete_write_op
          (watched_done has_finished run)
          (watched_resume has_finished run)
          pair_write
          (watch has_finished run [])).resumed
complete_safe_example = complete_safe has_finished run pair_read pair_write []

-- Coroutine 1 finishes the outer one, 2, too.
abbrev finishes_both : ℕ → List ℕ → List ℕ
finishes_both h s = 1 ∷ 2 ∷ s

accept_resumes_finished :
    ¬ NoneFinished
      (complete_accept_operation
        (watched_done has_finished finishes_both)
        (watched_resume has_finished finishes_both)
        (record { inner_handle = some 1; outer_handle = some 2 })
        (watch has_finished finishes_both [])).resumed
accept_resumes_finished = accept_operation_unsafe has_finished finishes_both 1 2 [] refl refl

-- The event loop over `one_reader`: the read completes and removes its entry.
abbrev table : Scheduler EpollTable → Map FdState
table s = s.fd_to_op

abbrev finish_read : ℕ → Scheduler EpollTable → Scheduler EpollTable
finish_read op s = (remove_op_impl epoll_table 7 reads s).1

abbrev finish_write : ℕ → Scheduler EpollTable → Scheduler EpollTable
finish_write op s = s

abbrev arrival : EpollEvent
arrival = record { events = reads; fd = 7 }
