-- ===== src/Tasks/Ownership.antt =====
-- include/async_frame/task.h: who owns a coroutine frame, in histories of tasks.
use async_io_framework.Prelude.{
  ℕ, ◌≡◌, refl, true, false, none, some, [], lookup, insert, erase, lookup-insert, lookup-erase,
  arith, ◌==◌, Option-cases, Bool-cases, inl, inr, is_some, subst, sym,
}
use async_io_framework.Tasks.{
  Tasks, Promise, start_task, return_value, unhandled_exception, task_destroy, task_move_construct,
  task_move_assign, destroy_frame,
}

-- A frame exists exactly as long as a task owns it, one task only, and none is destroyed twice.
pub record Owned {A : Type 0} (s : Tasks A) : Type 0 where
  pub live :
      (object frame : ℕ)
      → lookup object s.handles ≡ some frame
      → is_some (lookup frame s.frames) ≡ true
  pub one_owner :
      (a b frame : ℕ) → lookup a s.handles ≡ some frame → lookup b s.handles ≡ some frame → a ≡ b
  pub has_owner :
      (frame : ℕ)
      → is_some (lookup frame s.frames) ≡ true
      → (object : ℕ) × (lookup object s.handles ≡ some frame)
  pub no_fault : s.faults ≡ 0

-- A call of the program. A new task holds no frame yet, and a new frame is not one that exists; a
-- coroutine that has not finished may return or throw.
pub data Step {A : Type 0} (s : Tasks A) : Tasks A → Type 0 where
  starts :
      (initial : A) (object frame : ℕ)
      → lookup object s.handles ≡ none
      → lookup frame s.frames ≡ none
      → Step s (start_task initial object frame s)
  returns :
      (a : A) (frame : ℕ) (p : Promise A)
      → lookup frame s.frames ≡ some p
      → p.finished ≡ false
      → Step s (record s { frames = insert frame (return_value a p) s.frames })
  throws :
      (e : ℕ) (frame : ℕ) (p : Promise A)
      → lookup frame s.frames ≡ some p
      → p.finished ≡ false
      → Step s (record s { frames = insert frame (unhandled_exception e p) s.frames })
  moves :
      (object other : ℕ)
      → lookup object s.handles ≡ none
      → Step s (task_move_construct object other s)
  assigns : (object other : ℕ) → Step s (task_move_assign object other s)
  destroys : (object : ℕ) → Step s (task_destroy object s)

pub data Reach {A : Type 0} (s : Tasks A) : Tasks A → Type 0 where
  here : Reach s s
  next : {t u : Tasks A} → Reach s t → Step t u → Reach s u

module _ {A : Type 0} where
  start-Owned :
      (initial : A) (object frame : ℕ) (s : Tasks A)
      → Owned s
      → lookup object s.handles ≡ none
      → lookup frame s.frames ≡ none
      → Owned (start_task initial object frame s)
  unfolding start_task
  start-Owned initial object frame s o fresh new =
      let p : Promise A = record { result = initial; eptr = none; finished = false } in
      record {
        live = λ a n h. ground (
          arith,
          lookup-insert a object frame s.handles,
          lookup-insert n frame p s.frames,
          o.live a n,
        );
        one_owner = λ a b n h k. ground (
          arith,
          lookup-insert a object frame s.handles,
          lookup-insert b object frame s.handles,
          o.one_owner a b n,
          o.live a n,
          o.live b n,
        );
        has_owner = λ n h. elim (Bool-cases (frame == n)) [
          | inl same ↦ (object, ground (arith, lookup-insert object object frame s.handles))
          | inr other ↦
              let (a, owns) = o.has_owner n (ground (arith, lookup-insert n frame p s.frames)) in
              (a, ground (arith, lookup-insert a object frame s.handles))
        ];
        no_fault = o.no_fault;
      }

  keeps-Owned :
      (frame : ℕ) (p q : Promise A) (s : Tasks A)
      → Owned s
      → lookup frame s.frames ≡ some p
      → Owned (record s { frames = insert frame q s.frames })
  keeps-Owned frame p q s o e = record {
    live = λ a n h. ground (arith, lookup-insert n frame q s.frames, o.live a n);
    one_owner = o.one_owner;
    has_owner = λ n h. o.has_owner n (ground (arith, lookup-insert n frame q s.frames));
    no_fault = o.no_fault;
  }

  -- The state after a task that owned a frame is destroyed.
  abbrev pub disowned : ℕ → ℕ → Tasks A → Tasks A
  disowned object frame s = record s {
    handles = erase object s.handles;
    frames = erase frame s.frames;
  }

  pub task_destroy-eq :
      (object frame : ℕ) (p : Promise A) (s : Tasks A)
      → lookup object s.handles ≡ some frame
      → lookup frame s.frames ≡ some p
      → task_destroy object s ≡ disowned object frame s
  unfolding task_destroy
  task_destroy-eq object frame p s e g = rw (e, task_destroy) (rw (g, destroy_frame) refl)

  disowned-Owned :
      (object frame : ℕ) (s : Tasks A)
      → Owned s
      → lookup object s.handles ≡ some frame
      → Owned (disowned object frame s)
  disowned-Owned object frame s o e = record {
    live = λ a n h. ground (
      arith,
      lookup-erase a object s.handles,
      lookup-erase n frame s.frames,
      o.live a n,
      o.one_owner a object n,
    );
    one_owner = λ a b n h k. ground (
      arith,
      lookup-erase a object s.handles,
      lookup-erase b object s.handles,
      o.one_owner a b n,
    );
    has_owner = λ n h.
        let (a, owns) = o.has_owner n (ground (arith, lookup-erase n frame s.frames)) in
        (a, ground (arith, lookup-erase a object s.handles, lookup-erase n frame s.frames));
    no_fault = o.no_fault;
  }

  destroy-Owned :
      (object : ℕ) (s : Tasks A)
      → Owned s
      → Owned (task_destroy object s) × (lookup object (task_destroy object s).handles ≡ none)
  unfolding task_destroy
  destroy-Owned object s o = elim (Option-cases (lookup object s.handles)) [
    | inl e ↦ rw (e, task_destroy) (o, e)
    | inr (frame, e) ↦ elim (Option-cases (lookup frame s.frames)) [
      | inl g ↦ absurd (ground (arith, o.live object frame e))
      | inr (p, g) ↦
          subst (λ t. Owned t × (lookup object t.handles ≡ none))
            (sym (task_destroy-eq object frame p s e g))
            (
              disowned-Owned object frame s o e,
              ground (arith, lookup-erase object object s.handles),
            )
    ]
  ]

  move-Owned :
      (object other : ℕ) (s : Tasks A)
      → Owned s
      → lookup object s.handles ≡ none
      → Owned (task_move_construct object other s)
  unfolding task_move_construct
  move-Owned object other s o fresh = elim (Option-cases (lookup other s.handles)) [
    | inl e ↦
        rw (e, task_move_construct)
          (record {
            live = λ a n h. ground (arith, lookup-erase a object s.handles, o.live a n);
            one_owner = λ a b n h k. ground (
              arith,
              lookup-erase a object s.handles,
              lookup-erase b object s.handles,
              o.one_owner a b n,
            );
            has_owner = λ n h.
                let (a, owns) = o.has_owner n h in
                (a, ground (arith, lookup-erase a object s.handles));
            no_fault = o.no_fault;
          })
    | inr (frame, e) ↦
        let places = λ (a : ℕ). lookup-insert a object frame (erase other s.handles) in
        let takes = λ (a : ℕ). lookup-erase a other s.handles in
        rw (e, task_move_construct)
          (record {
            live = λ a n h. ground (arith, places a, takes a, o.live a n, o.live other n);
            one_owner = λ a b n h k. ground (
              arith,
              places a,
              places b,
              takes a,
              takes b,
              o.one_owner a b n,
              o.one_owner a other n,
              o.one_owner b other n,
            );
            has_owner = λ n h. elim (Bool-cases (frame == n)) [
              | inl same ↦ (object, ground (arith, places object))
              | inr differs ↦
                  let (a, owns) = o.has_owner n h in (a, ground (arith, places a, takes a))
            ];
            no_fault = o.no_fault;
          })
  ]

  assign-Owned :
      (object other : ℕ) (s : Tasks A) → Owned s → Owned (task_move_assign object other s)
  unfolding task_move_assign
  assign-Owned object other s o = elim (Bool-cases (object == other)) [
    | inl h ↦ rw (h, task_move_assign) o
    | inr h ↦
        let (o', empty) = destroy-Owned object s o in
        rw (h, task_move_assign) (move-Owned object other (task_destroy object s) o' empty)
  ]

  Step-Owned : {s t : Tasks A} → Step s t → Owned s → Owned t
  Step-Owned {s} (starts initial object frame fresh new) o =
      start-Owned initial object frame s o fresh new
  Step-Owned {s} (returns a frame p e runs) o = keeps-Owned frame p (return_value a p) s o e
  Step-Owned {s} (throws x frame p e runs) o = keeps-Owned frame p (unhandled_exception x p) s o e
  Step-Owned {s} (moves object other fresh) o = move-Owned object other s o fresh
  Step-Owned {s} (assigns object other) o = assign-Owned object other s o
  Step-Owned {s} (destroys object) o = (destroy-Owned object s o).0

  -- In every history of coroutines that are called, return or throw, and of their tasks, which are
  -- moved, assigned, to themselves too, and destroyed: a frame exists exactly as long as a task owns
  -- it, that is one task only, and no frame is destroyed twice. None is leaked.
  pub tasks-Owned :
      {s : Tasks A} → Reach (record { handles = []; frames = []; faults = 0 }) s → Owned s
  unfolding lookup
  tasks-Owned here = record {
    live = λ object frame h. absurd (ground arith);
    one_owner = λ a b frame h k. absurd (ground arith);
    has_owner = λ frame h. absurd (ground arith);
    no_fault = refl;
  }
  tasks-Owned (next r st) = Step-Owned st (tasks-Owned r)
