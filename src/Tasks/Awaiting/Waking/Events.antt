-- ===== src/Tasks/Awaiting/Waking/Events.antt =====
-- What the events do to a loop that waits for its connection, and to the coroutine that awaits it.
use async_io_framework.Prelude.{
  ℕ, zero, suc, ◌+◌, ◌≡◌, ◌≢◌, ◌∙◌, refl, ap, sym, subst, Bool, true, false, none, some, lookup,
  lookup-insert, has, put, has-put, ltb, not, ◌&&◌, if◌then◌else◌, arith,
}
use async_io_framework.Operations.{complete_read_op}
use async_io_framework.Tasks.Awaiting.{
  Body, Coroutines, is_finished, run_loop, go_on, resume, event, events,
}

-- A caller, or `with_timeout_impl`.
abbrev pub outer_body : Bool → Body
outer_body true = Body.caller
outer_body false = Body.forward

-- The loop `h` waits at its inner awaiter with `left` rounds after this one, for `outer`.
pub record Waits (h left outer : ℕ) (calls : Bool) (s : Coroutines) : Type 0 where
  pub waiting : s.waiting ≡ some (record { inner = some h; outer = some outer })
  pub body : lookup h s.bodies ≡ some (Body.loop left outer)
  pub outer_waits : lookup outer s.bodies ≡ some (outer_body calls)
  pub unfinished : has h s.finished ≡ false
  pub outer_unfinished : has outer s.finished ≡ false

resume-eq :
    (h : ℕ) (body : Body) (s : Coroutines)
    → lookup h s.bodies ≡ some body
    → resume h s ≡ go_on h body s
unfolding resume
resume-eq h body s e = rw (e, resume) refl

module _ (h outer : ℕ) (calls : Bool) (apart : h ≢ outer) where
  event-suc :
      (left : ℕ) (s : Coroutines)
      → Waits h (suc left) outer calls s
      → event s ≡ run_loop h (suc left) outer s
  unfolding event complete_read_op
  event-suc left s w =
      rw (w.waiting, event)
        (rw w.unfinished
          (rw (resume-eq h (Body.loop (suc left) outer) s w.body) (rw w.unfinished refl)))

  event-zero :
      (s : Coroutines)
      → Waits h zero outer calls s
      → event s ≡ go_on outer (outer_body calls) (run_loop h zero outer s)
  unfolding event complete_read_op
  event-zero s w =
      let done : has h (put h s.finished) ≡ true = ground (arith, has-put h h s.finished) in
      let open_outer : has outer (put h s.finished) ≡ false =
        ground (arith, has-put outer h s.finished) in
      rw (w.waiting, event)
        (rw w.unfinished (
          rw (resume-eq h (Body.loop zero outer) s w.body) (
            rw (done, open_outer)
              (resume-eq outer (outer_body calls) (run_loop h zero outer s) w.outer_waits))))

  again :
      (left : ℕ) (s : Coroutines)
      → Waits h (suc left) outer calls s
      → Waits h left outer calls (run_loop h (suc left) outer s)
  again left s w = record {
    waiting = refl;
    body = ground (arith, lookup-insert h h (Body.loop left outer) s.bodies);
    outer_waits =
        lookup-insert outer h (Body.loop left outer) s.bodies ∙ ground (arith, w.outer_waits);
    unfinished = w.unfinished;
    outer_unfinished = w.outer_unfinished;
  }

  -- How often the caller has gone on, and who has finished, after some events.
  pub record Woken (left n : ℕ) (s t : Coroutines) : Type 0 where
    pub woken : t.went_on ≡ s.went_on + (if calls && ltb left n then 1 else 0)
    pub loop_done : has h t.finished ≡ ltb left n
    pub outer_done : has outer t.finished ≡ (not calls && ltb left n)

event_idle : (s : Coroutines) → s.waiting ≡ none → event s ≡ s
unfolding event
event_idle s e =
    ap (λ o. elim o [ none ↦ s | some op ↦ complete_read_op is_finished resume op s ]) e

pub events_idle : (n : ℕ) (s : Coroutines) → s.waiting ≡ none → events n s ≡ s
unfolding events
events_idle zero s e = refl
events_idle (suc n) s e = ap (events n) (event_idle s e) ∙ events_idle n s e

module _ (h outer : ℕ) (apart : h ≢ outer) where
  last_event :
      (calls : Bool) (n : ℕ) (s : Coroutines)
      → Waits h zero outer calls s
      → let t = go_on outer (outer_body calls) (run_loop h zero outer s) in
        (t.waiting ≡ none) × Woken h outer calls apart zero (suc n) s t
  last_event true n s w = (
    refl,
    record {
      woken = ground arith;
      loop_done = ground (arith, has-put h h s.finished);
      outer_done = ground (arith, has-put outer h s.finished, w.outer_unfinished);
    },
  )
  last_event false n s w = (
    refl,
    record {
      woken = omega arith;
      loop_done = ground (arith, has-put h outer (put h s.finished), has-put h h s.finished);
      outer_done = ground (arith, has-put outer outer (put h s.finished));
    },
  )

  pub events-Woken :
      (calls : Bool) (n left : ℕ) (s : Coroutines)
      → Waits h left outer calls s
      → Woken h outer calls apart left n s (events n s)
  unfolding events
  events-Woken true zero left s w = record {
    woken = ground arith;
    loop_done = ground (arith, w.unfinished);
    outer_done = ground (arith, w.outer_unfinished);
  }
  events-Woken false zero left s w = record {
    woken = omega arith;
    loop_done = ground (arith, w.unfinished);
    outer_done = ground (arith, w.outer_unfinished);
  }
  events-Woken calls (suc n) zero s w =
      let t : Coroutines = go_on outer (outer_body calls) (run_loop h zero outer s) in
      let (idle, k) = last_event calls n s w in
      let same : events n (event s) ≡ t =
        ap (events n) (event-zero h outer calls apart s w) ∙ events_idle n t idle in
      subst (Woken h outer calls apart zero (suc n) s) (sym same) k
  events-Woken calls (suc n) (suc left) s w =
      let s1 : Coroutines = run_loop h (suc left) outer s in
      let k = events-Woken calls n left s1 (again h outer calls apart left s w) in
      let shift : ltb (suc left) (suc n) ≡ ltb left n = ground arith in
      subst (λ t. Woken h outer calls apart (suc left) (suc n) s (events n t))
        (sym (event-suc h outer calls apart left s w))
        (record {
          woken = k.woken ∙ rw shift refl;
          loop_done = k.loop_done ∙ sym shift;
          outer_done = k.outer_done ∙ ap (λ b. not calls && b) (sym shift);
        })

  -- The state in which the loop has been called and waits for the first time.
  pub first_Waits :
      (calls : Bool) (left : ℕ) (s : Coroutines)
      → has h s.finished ≡ false
      → has outer s.finished ≡ false
      → lookup outer s.bodies ≡ some (outer_body calls)
      → Waits h left outer calls (run_loop h (suc left) outer s)
  first_Waits calls left s fresh open_outer e = record {
    waiting = refl;
    body = ground (arith, lookup-insert h h (Body.loop left outer) s.bodies);
    outer_waits = lookup-insert outer h (Body.loop left outer) s.bodies ∙ ground (arith, e);
    unfinished = fresh;
    outer_unfinished = open_outer;
  }
