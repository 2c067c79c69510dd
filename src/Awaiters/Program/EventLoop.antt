-- ===== src/Awaiters/Program/EventLoop.antt =====
-- include/async_frame/scheduler.h: `Scheduler::running` over a program of operations. Each completion
-- resumes coroutines, which run parts of operations; a script has what the successive completions
-- run.
use async_io_framework.Prelude.{
  ℕ, ◌+◌, ◌≡◌, Bool, true, false, ◌||◌, List, [], ◌∷◌, Map, ok, thrown, Result, ⊤,
}
use async_io_framework.Epoll.{EpollEvent}
use async_io_framework.Scheduler.{FdState}
use async_io_framework.Scheduler.Running.{Status, running}
use async_io_framework.Awaiters.{System, World}
use async_io_framework.Awaiters.Suspending.{Ready}
use async_io_framework.Awaiters.Program.{Other, ids_of_all, AllAdmissible, perform, others_do}

-- The program, what the completions to come run, and whether some part has thrown.
pub record Machine (K T E B : Type 0) : Type 0 where
  pub world : World K T E B
  pub scripts : List (List (Other E B))
  pub threw : Bool

abbrev pub ids_of_scripts : {E B : Type 0} → List (List (Other E B)) → ℕ
ids_of_scripts [] = 0
ids_of_scripts (script ∷ scripts) = ids_of_scripts scripts + ids_of_all script

abbrev pub AllScripts : {E B : Type 0} → List (List (Other E B)) → Type 0
AllScripts [] = ⊤
AllScripts (script ∷ scripts) = AllAdmissible script × AllScripts scripts

abbrev is_thrown : {A : Type 0} → Result A → Bool
is_thrown (ok a) = false
is_thrown thrown = true

module _ {K T E B : Type 0} (sys : System K T E B) where
  pub some_throws : List (Other E B) → World K T E B → Bool
  some_throws [] w = false
  some_throws (o ∷ os) w =
      let rest = some_throws os (perform sys o w).1 in is_thrown (perform sys o w).0 || rest

  -- `complete()` of the operation at an address: the next script runs, and with none left the
  -- coroutine does nothing more.
  abbrev pub run_script : List (List (Other E B)) → Machine K T E B → Machine K T E B
  run_script [] m = m
  run_script (script ∷ scripts) m = record {
    world = others_do sys script m.world;
    scripts = scripts;
    threw = m.threw || some_throws script m.world;
  }

  abbrev pub completes : ℕ → Machine K T E B → Machine K T E B
  completes op m = run_script m.scripts m

  abbrev pub table : Machine K T E B → Map FdState
  table m = m.world.scheduler.fd_to_op

  -- `running` over the batches of events that the successive calls of epoll_wait(2) return.
  abbrev pub program_running : List (List EpollEvent) → Machine K T E B → Status (Machine K T E B)
  program_running batches m = running table completes completes batches m

  -- Nothing has thrown, table and epoll agree, the timers are in order, and the scripts to come are
  -- admissible and have their timer ids.
  pub record InOrder (m : Machine K T E B) : Type 0 where
    pub ready : Ready sys (ids_of_scripts m.scripts) m.world
    pub admissible : AllScripts m.scripts
    pub quiet : m.threw ≡ false
