-- ===== src/Operations.antt =====
-- include/async_frame/single_operator.h (`read_op`, `write_op`, `fd_ops`) and
-- include/async_frame/operator.h (the older operation classes). A pointer is a number, or `none` for
-- `nullptr`; so is a coroutine handle. `W` is the state of the program, `done` and `resume` are the
-- members of `std::coroutine_handle`.
pub mod Safety
pub mod Status
use async_io_framework.Prelude.{ℕ, Bool, true, false, not, Option, none, some, if◌then◌else◌}

-- `fd_ops`: a descriptor with pointers to the operations that wait for it.
pub record FdOps : Type 0 where
  pub fd : ℕ
  pub write : Option ℕ
  pub read : Option ℕ

-- `read_op`
pub record ReadOp : Type 0 where
  pub inner : Option ℕ
  pub outer : Option ℕ

-- `write_op`
pub record WriteOp : Type 0 where
  pub inner : Option ℕ
  pub outer : Option ℕ

-- `accept_operation`, and the handles of `coro_operation` and `coro_connect_operation`.
pub record Handles : Type 0 where
  pub inner_handle : Option ℕ
  pub outer_handle : Option ℕ

module _ {W : Type 0} (done : W → ℕ → Bool) (resume : ℕ → W → W) where
  -- `if (h && !h.done()) h.resume();`
  abbrev pub resume_if_needed : Option ℕ → W → W
  resume_if_needed none w = w
  resume_if_needed (some h) w = if done w h then w else resume h w

  -- `h && h.done()`
  abbrev pub is_done : Option ℕ → W → Bool
  is_done none w = false
  is_done (some h) w = done w h

  -- `read_op::complete`
  unfoldable pub complete_read_op : ReadOp → W → W
  complete_read_op op w =
      let w' = resume_if_needed op.inner w in
      if is_done op.inner w' then resume_if_needed op.outer w' else w'

  -- `write_op::complete`
  unfoldable pub complete_write_op : WriteOp → W → W
  complete_write_op op w =
      let w' = resume_if_needed op.inner w in
      if is_done op.inner w' then resume_if_needed op.outer w' else w'

  -- `h.resume()` with no test: on a null handle its behaviour is undefined, shown as no step.
  abbrev pub resume_always : Option ℕ → W → W
  resume_always none w = w
  resume_always (some h) w = resume h w

  -- `accept_operation::complete`
  pub complete_accept_operation : Handles → W → W
  complete_accept_operation op w = elim op.inner_handle [
    | none ↦ w
    | some h ↦ if done w h then w else resume_always op.outer_handle (resume h w)
  ]

  -- `accept_operation::resume_outer_if_needed`, and that of `coro_operation`.
  pub resume_outer_if_needed : Handles → W → W
  resume_outer_if_needed op = resume_if_needed op.outer_handle

  -- `coro_operation::complete`; `cancelled` is what `cancel_token.cancel()` returns.
  pub complete_coro_operation : (W → Bool) → Handles → W → W
  complete_coro_operation cancelled op w =
      let w' = resume_if_needed op.inner_handle w in
      if cancelled w
      then resume_always op.outer_handle w
      else if is_done op.inner_handle w'
      then resume_always op.outer_handle w'
      else w'

  -- `coro_connect_operation::complete`
  pub complete_coro_connect_operation : Handles → W → W
  complete_coro_connect_operation op = resume_always op.outer_handle

  -- `call_back_operation::complete`, whose body is commented out.
  pub complete_call_back_operation : W → W
  complete_call_back_operation w = w

  -- `coro_resume::on_complete`
  pub on_complete_coro_resume : Option ℕ → W → W
  on_complete_coro_resume h = resume_always h
