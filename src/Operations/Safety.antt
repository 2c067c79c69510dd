-- ===== src/Operations/Safety.antt =====
-- include/async_frame/single_operator.h and include/async_frame/operator.h: which coroutines
-- `complete()` resumes.
use async_io_framework.Prelude.{ℕ, ◌≡◌, Bool, true, false, some, arith, List, [], ◌∷◌}
use async_io_framework.Operations.{
  ReadOp, WriteOp, complete_read_op, complete_write_op, complete_accept_operation,
}

-- The state with a record of the handles that were resumed, each with whether it had finished.
pub record Watched (W : Type 0) : Type 0 where
  pub world : W
  pub resumed : List (ℕ × Bool)

module _ {W : Type 0} (done : W → ℕ → Bool) (resume : ℕ → W → W) where
  abbrev pub watched_done : Watched W → ℕ → Bool
  watched_done s h = done s.world h

  abbrev pub watched_resume : ℕ → Watched W → Watched W
  watched_resume h s = record {
    world = resume h s.world;
    resumed = (h, done s.world h) ∷ s.resumed;
  }

  abbrev pub watch : W → Watched W
  watch w = record { world = w; resumed = [] }

-- No finished coroutine was resumed.
abbrev pub NoneFinished : List (ℕ × Bool) → Type 0
NoneFinished [] = Unit
NoneFinished ((h, finished) ∷ l) = (finished ≡ false) × NoneFinished l

module _ {W : Type 0} (done : W → ℕ → Bool) (resume : ℕ → W → W) where
  -- For all coroutines, `read_op::complete` and `write_op::complete` never resume one that has
  -- finished, whatever the resumed code does to the other.
  pub complete_safe :
      (r : ReadOp) (w : WriteOp) (s : W)
      → NoneFinished
          (complete_read_op
            (watched_done done resume)
            (watched_resume done resume)
            r
            (watch done resume s)).resumed
        × NoneFinished
            (complete_write_op
              (watched_done done resume)
              (watched_resume done resume)
              w
              (watch done resume s)).resumed
  unfolding complete_read_op complete_write_op
  complete_safe r w s = ground arith

  -- Where the inner coroutine has not finished when it comes back, the outer one is not resumed:
  -- the completion is one step of the inner one.
  pub complete_waits :
      (r : ReadOp) (i : ℕ) (s : W)
      → r.inner ≡ some i
      → done s i ≡ false
      → done (resume i s) i ≡ false
      → complete_read_op done resume r s ≡ resume i s
  unfolding complete_read_op
  complete_waits r i s e h k = ground arith

  -- The older `accept_operation` has no such guard: whenever the inner coroutine can run and leaves
  -- the outer one finished, the outer one is resumed all the same.
  pub accept_operation_unsafe :
      (i o : ℕ) (s : W)
      → done s i ≡ false
      → done (resume i s) o ≡ true
      → ¬ NoneFinished
          (complete_accept_operation
            (watched_done done resume)
            (watched_resume done resume)
            (record { inner_handle = some i; outer_handle = some o })
            (watch done resume s)).resumed
  unfolding complete_accept_operation
  accept_operation_unsafe i o s h k n = ground arith
