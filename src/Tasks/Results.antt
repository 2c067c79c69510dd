-- ===== src/Tasks/Results.antt =====
-- include/async_frame/task.h: the results of tasks that are moved.
use async_io_framework.Prelude.{
  ℕ, ◌≡◌, ◌≢◌, refl, true, false, none, some, lookup, insert, erase, lookup-insert, lookup-erase,
  arith, ◌==◌, Option-cases, inl, inr, is_some, Option, subst, sym, ap, ◌∙◌,
}
use async_io_framework.Tasks.{
  Tasks, Promise, Fetched, task_destroy, task_move_construct, task_move_assign, task_result, fetch,
}
use async_io_framework.Tasks.Ownership.{Owned, task_destroy-eq}

module _ {A : Type 0} where
  -- Destroying a task leaves the frame of another.
  destroy-other :
      (object other frame : ℕ) (s : Tasks A)
      → Owned s
      → lookup other s.handles ≡ some frame
      → object ≢ other
      → let t = task_destroy object s in
        (lookup other t.handles ≡ some frame) × (lookup frame t.frames ≡ lookup frame s.frames)
  unfolding task_destroy
  destroy-other object other frame s o e apart = elim (Option-cases (lookup object s.handles)) [
    | inl g ↦ rw (g, task_destroy) (e, refl)
    | inr (n, g) ↦ elim (Option-cases (lookup n s.frames)) [
      | inl none_left ↦ absurd (ground (arith, o.live object n g))
      | inr (p, h) ↦
          subst
            (λ t.
              (lookup other t.handles ≡ some frame)
              × (lookup frame t.frames ≡ lookup frame s.frames))
            (sym (task_destroy-eq object n p s g h))
            (
              ground (arith, lookup-erase other object s.handles),
              ground (arith, lookup-erase frame n s.frames, o.one_owner object other n),
            )
    ]
  ]

  held_result :
      (object frame : ℕ) (s : Tasks A)
      → lookup object s.handles ≡ some frame
      → task_result object s ≡ fetch (lookup frame s.frames)
  unfolding task_result
  held_result object frame s e = rw (e, task_result) refl

  fetch-defined : (p : Option (Promise A)) → is_some p ≡ true → fetch p ≢ Fetched.undefined
  fetch-defined none h = cc
  fetch-defined (some p) h = elim (Option-cases p.eptr) [
    | inl e ↦ rw (e, fetch) (λ k. cc)
    | inr (x, e) ↦ rw (e, fetch) (λ k. cc)
  ]

  moved-result :
      (object other frame : ℕ) (s : Tasks A)
      → lookup other s.handles ≡ some frame
      → object ≢ other
      → let t = task_move_construct object other s in
        (task_result object t ≡ fetch (lookup frame s.frames)) × (lookup other t.handles ≡ none)
  unfolding task_move_construct
  moved-result object other frame s e apart =
      let t : Tasks A = record s { handles = insert object frame (erase other s.handles) } in
      rw (e, task_move_construct)
        (
          held_result object frame t
              (ground (arith, lookup-insert object object frame (erase other s.handles))),
          ground (
            arith,
            lookup-insert other object frame (erase other s.handles),
            lookup-erase other other s.handles,
          ),
        )

  -- A result goes with its task: with each frame owned by one task, moving or assigning a task that
  -- holds a frame to another gives that one the result or the exception, and the first has none.
  pub task_result-move :
      (object other frame : ℕ) (s : Tasks A)
      → Owned s
      → lookup other s.handles ≡ some frame
      → object ≢ other
      → let t = task_move_assign object other s in
        (task_result object t ≡ task_result other s)
        × (task_result object t ≢ Fetched.undefined)
        × (lookup other t.handles ≡ none)
  unfolding task_move_assign
  task_result-move object other frame s o e apart =
      let differs : (object == other) ≡ false = ground arith in
      let (e', same) = destroy-other object other frame s o e apart in
      let (gives, empty) = moved-result object other frame (task_destroy object s) e' apart in
      let all = gives ∙ ap fetch same in
      rw (differs, task_move_assign)
        (
          all ∙ sym (held_result other frame s e),
          λ h. fetch-defined (lookup frame s.frames) (o.live other frame e) (sym all ∙ h),
          empty,
        )
