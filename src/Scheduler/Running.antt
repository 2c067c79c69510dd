-- ===== src/Scheduler/Running.antt =====
-- include/async_frame/scheduler.h: `Scheduler::running`, the event loop. `W` is the program's state,
-- `table` the scheduler's `fd_to_op` in it, and `complete_read` and `complete_write` run the
-- `complete()` of an operation, with all that the resumed coroutines do. The successive results of
-- `epoll_wait` are a list of batches; an empty batch stands for a result of 0 or -1.
use async_io_framework.Prelude.{
  ℕ, ◌≡◌, Bool, true, false, List, [], ◌∷◌, ◌++◌, Option, none, some, Map, lookup, if◌then◌else◌,
  arith, ◌≢◌,
}
use async_io_framework.Events.{read_ready, write_ready}
use async_io_framework.Epoll.{EpollEvent}
use async_io_framework.Scheduler.{FdState}

-- How the loop stands: it has returned, or it waits in `epoll_wait`.
pub data Status (W : Type 0) : Type 0 where
  returned waiting : W → Status W

abbrev pub is_empty : Map FdState → Bool
is_empty [] = true
is_empty (e ∷ m) = false

-- A call of `complete()`.
pub data Call : Type 0 where
  read write : ℕ → Call

module _ {W : Type 0} (table : W → Map FdState) (complete_read complete_write : ℕ → W → W) where
  -- `if (ready) { if (op) op->complete(); }`
  abbrev complete_if : Bool → Option ℕ → (ℕ → W → W) → W → W
  complete_if true (some op) complete w = complete op w
  complete_if true none complete w = w
  complete_if false op complete w = w

  -- One round of the `for` loop. Both pointers are read before any operation runs.
  pub dispatch_event : EpollEvent → W → W
  dispatch_event each w = elim (lookup each.fd (table w)) [
    | none ↦ w
    | some st ↦
        complete_if (write_ready each.events) st.write complete_write
          (complete_if (read_ready each.events) st.read complete_read w)
  ]

  pub dispatch_batch : List EpollEvent → W → W
  dispatch_batch [] w = w
  dispatch_batch (each ∷ evs) w = dispatch_batch evs (dispatch_event each w)

  pub running : List (List EpollEvent) → W → Status W
  running [] w = if is_empty (table w) then Status.returned w else Status.waiting w
  running (evs ∷ batches) w =
      let rest = running batches (dispatch_batch evs w) in
      if is_empty (table w) then Status.returned w else rest

  -- What an event calls for, by the table as the event meets it.
  abbrev pub if_ready : Bool → (ℕ → Call) → Option ℕ → List Call
  if_ready true call (some op) = call op ∷ []
  if_ready true call none = []
  if_ready false call op = []

  abbrev pub calls : EpollEvent → Map FdState → List Call
  calls each t = elim (lookup each.fd t) [
    | none ↦ []
    | some st ↦
        if_ready (read_ready each.events) Call.read st.read
        ++ if_ready (write_ready each.events) Call.write st.write
  ]

  abbrev pub perform : List Call → W → W
  perform [] w = w
  perform (Call.read op ∷ cs) w = perform cs (complete_read op w)
  perform (Call.write op ∷ cs) w = perform cs (complete_write op w)

  -- An event completes the operations that its descriptor's entry held when the event was reached,
  -- the read before the write, each at most once, and none if there is no entry.
  pub dispatch_event-perform :
      (each : EpollEvent) (w : W) → dispatch_event each w ≡ perform (calls each (table w)) w
  unfolding dispatch_event
  dispatch_event-perform each w = ground arith

  -- How an invariant `P` shows in the loop's status.
  abbrev pub Holds : (W → Type 0) → Status W → Type 0
  Holds P (Status.returned w) = P w × (table w ≡ [])
  Holds P (Status.waiting w) = P w × (table w ≢ [])
