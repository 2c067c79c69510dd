-- ===== src/Tasks.antt =====
-- include/async_frame/task.h: `Task` and its promise. A coroutine handle is the number of its frame.
pub mod Ownership
pub mod Results
pub mod Awaiting
pub mod Combinators
use async_io_framework.Prelude.{
  ℕ, ◌+◌, Bool, true, false, Option, none, some, Map, lookup, insert, erase, ◌==◌, if◌then◌else◌,
}

-- `Task_Promise`, and whether its coroutine stands at its final suspension. An exception is a
-- number.
pub record Promise (A : Type 0) : Type 0 where
  pub result : A
  pub eptr : Option ℕ
  pub finished : Bool

-- The member `handle` of each task, which is missing for a null one; the coroutine frames that
-- exist; and how often a frame that does not exist was destroyed.
pub record Tasks (A : Type 0) : Type 0 where
  pub handles : Map ℕ
  pub frames : Map (Promise A)
  pub faults : ℕ

-- What `result()` does. With a null handle, or a frame that is gone, its behaviour is undefined.
pub data Fetched (A : Type 0) : Type 0 where
  value : A → Fetched A
  rethrown : ℕ → Fetched A
  undefined : Fetched A

module _ {A : Type 0} where
  -- A coroutine is called: its frame is made, with a promise whose `result` is `initial`, and
  -- `get_return_object` makes the task.
  unfoldable pub start_task : A → ℕ → ℕ → Tasks A → Tasks A
  start_task initial object frame s = record s {
    handles = insert object frame s.handles;
    frames = insert frame (record { result = initial; eptr = none; finished = false }) s.frames;
  }

  -- `co_return a`: `return_value`, and on to the final suspension.
  abbrev pub return_value : A → Promise A → Promise A
  return_value a p = record p { result = a; finished = true }

  -- An exception leaves the body: `unhandled_exception`, and on to the final suspension.
  abbrev pub unhandled_exception : ℕ → Promise A → Promise A
  unhandled_exception e p = record p { eptr = some e; finished = true }

  -- `handle.destroy()`
  abbrev pub destroy_frame : ℕ → Tasks A → Tasks A
  destroy_frame frame s = elim (lookup frame s.frames) [
    | none ↦ record s { faults = s.faults + 1 }
    | some p ↦ record s { frames = erase frame s.frames }
  ]

  -- `~Task`: the object is gone afterwards.
  unfoldable pub task_destroy : ℕ → Tasks A → Tasks A
  task_destroy object s = elim (lookup object s.handles) [
    | none ↦ s
    | some frame ↦ let s' = destroy_frame frame s in record s' { handles = erase object s'.handles }
  ]

  -- `Task(Task &&)`
  unfoldable pub task_move_construct : ℕ → ℕ → Tasks A → Tasks A
  task_move_construct object other s = elim (lookup other s.handles) [
    | none ↦ record s { handles = erase object s.handles }
    | some frame ↦ record s { handles = insert object frame (erase other s.handles) }
  ]

  -- `Task::operator=(Task &&)`, which destroys the frame that it had.
  unfoldable pub task_move_assign : ℕ → ℕ → Tasks A → Tasks A
  task_move_assign object other s =
      if object == other then s else task_move_construct object other (task_destroy object s)

  abbrev pub fetch : Option (Promise A) → Fetched A
  fetch none = Fetched.undefined
  fetch (some p) = elim p.eptr [ none ↦ Fetched.value p.result | some e ↦ Fetched.rethrown e ]

  -- `Task::result`, and `Task::copy_result`.
  unfoldable pub task_result : ℕ → Tasks A → Fetched A
  task_result object s = elim (lookup object s.handles) [
    | none ↦ Fetched.undefined
    | some frame ↦ fetch (lookup frame s.frames)
  ]
