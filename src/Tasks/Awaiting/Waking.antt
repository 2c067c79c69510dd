-- ===== src/Tasks/Awaiting/Waking.antt =====
-- How often the program's coroutine goes on from its `co_await`.
mod Events
use async_io_framework.Tasks.Awaiting.Waking.Events.{events_idle, events-Woken, first_Waits}
use async_io_framework.Prelude.{
  ℕ, zero, suc, ◌≡◌, ◌≢◌, ◌∙◌, refl, true, false, some, lookup, insert, lookup-insert, has, put,
  has-put, leb, ltb, if◌then◌else◌, arith,
}
use async_io_framework.Tasks.Awaiting.{
  Body, Coroutines, is_finished, run_loop, go_on, events, start_and_test,
  with_timeout_await_suspend, with_timeout_impl, OperationKind, await,
}

module _ (h forwarder outer : ℕ) (apart : h ≢ forwarder) where
  -- `with_timeout_impl` around a loop that it starts and tests.
  abbrev forward_started : ℕ → Coroutines → Coroutines
  forward_started left s =
      let started = record s { bodies = insert forwarder Body.forward s.bodies } in
      let r = start_and_test h left forwarder started in
      if r.0 then r.1 else go_on forwarder Body.forward r.1

  forwards :
      (left n : ℕ) (s : Coroutines)
      → has h s.finished ≡ false
      → has forwarder s.finished ≡ false
      → let t = events n (forward_started left s) in
        (t.went_on ≡ s.went_on)
        × (is_finished t h ≡ leb left n)
        × (is_finished t forwarder ≡ leb left n)
  forwards zero n s fresh open_outer =
      let done : has h (put h s.finished) ≡ true = ground (arith, has-put h h s.finished) in
      let s1 : Coroutines = record s { bodies = insert forwarder Body.forward s.bodies } in
      let t : Coroutines = go_on forwarder Body.forward (run_loop h zero forwarder s1) in
      rw done (
        rw (events_idle n t refl) (
          refl,
          ground (arith, has-put h forwarder (put h s.finished), done),
          ground (arith, has-put forwarder forwarder (put h s.finished)),
        ))
  forwards (suc left) n s fresh open_outer =
      let s1 : Coroutines = record s { bodies = insert forwarder Body.forward s.bodies } in
      let forwarding : lookup forwarder s1.bodies ≡ some Body.forward =
        ground (arith, lookup-insert forwarder forwarder Body.forward s.bodies) in
      let k =
        events-Woken h forwarder apart false n left (run_loop h (suc left) forwarder s1)
          (first_Waits h forwarder apart false left s1 fresh open_outer forwarding) in
      let shift : ltb left n ≡ leb (suc left) n = ground arith in
      rw fresh (k.woken ∙ omega arith, k.loop_done ∙ shift, k.outer_done ∙ shift)

  -- A coroutine awaits `with_timeout` around an operation. However many times the loop suspends
  -- and however many events there are, the caller never goes on: the loop and `with_timeout_impl`
  -- return as soon as there were as many events as suspensions, and nothing resumes the caller. The
  -- loop and `with_timeout_impl` are different coroutines that have not finished.
  pub with_timeout_never_wakes :
      (kind : OperationKind) (left n : ℕ) (s : Coroutines)
      → has h s.finished ≡ false
      → has forwarder s.finished ≡ false
      → let t = events n (await (with_timeout_await_suspend kind forwarder h left) outer s) in
        (t.went_on ≡ s.went_on)
        × (is_finished t h ≡ leb left n)
        × (is_finished t forwarder ≡ leb left n)
  unfolding with_timeout_await_suspend with_timeout_impl
  with_timeout_never_wakes OperationKind.read_operation left n s fresh open_outer =
      forwards left n (record s { bodies = insert outer Body.caller s.bodies }) fresh open_outer
  with_timeout_never_wakes OperationKind.write_operation left n s fresh open_outer =
      forwards left n (record s { bodies = insert outer Body.caller s.bodies }) fresh open_outer
  with_timeout_never_wakes OperationKind.other_operation left n s fresh open_outer =
      forwards left n (record s { bodies = insert outer Body.caller s.bodies }) fresh open_outer
