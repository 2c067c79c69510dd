-- ===== src/Timer/Agenda.antt =====
-- include/async_frame/timer.h: the invariant of the timers' ids, tombstones and deadlines, over a
-- list of scheduled tasks in the order of their deadlines.
use async_io_framework.Prelude.{
  ℕ, ◌+◌, ◌≤◌, ◌<◌, ◌≡◌, ◌≢◌, refl, true, false, List, [], ◌∷◌, Option, none, some, Map, lookup,
  erase, has, put, drop_id, has-put, has-drop_id, lookup-insert, lookup-erase, arith, ◌==◌,
  if◌then◌else◌, same_pointer, ⊤,
}
use async_io_framework.Timer.{TimerTask, push, remember, forget}

-- The scheduled task with an id.
abbrev pub find_task : ℕ → List TimerTask → Option TimerTask
find_task i [] = none
find_task i (x ∷ xs) = if x.id == i then some x else find_task i xs

abbrev pub Ordered : ℕ → List TimerTask → Type 0
Ordered b [] = ⊤
Ordered b (x ∷ xs) = (b ≤ x.time_point) × Ordered x.time_point xs

abbrev pub Distinct : List TimerTask → Type 0
Distinct [] = ⊤
Distinct (x ∷ xs) = (find_task x.id xs ≡ none) × Distinct xs

-- Every id is positive and below `n`.
abbrev pub Issued : ℕ → List TimerTask → Type 0
Issued n [] = ⊤
Issued n (x ∷ xs) = (0 < x.id) × (x.id < n) × Issued n xs

-- The operation that waits for a task.
abbrev pub reader_of : Option TimerTask → Option ℕ
reader_of none = none
reader_of (some task) = task.state_.read

pub record IsAgenda (n : ℕ) (cancelled : List ℕ) (active : Map ℕ) (xs : List TimerTask)
    : Type 0 where
  -- Positive deadlines in ascending order.
  pub ordered : Ordered 1 xs
  pub distinct : Distinct xs
  pub issued : Issued n xs
  -- Each tombstone is for a scheduled task.
  pub tombs : (i : ℕ) → has i cancelled ≡ true → find_task i xs ≢ none
  -- Each active id is that of a scheduled task without a tombstone, which its operation waits for.
  pub active_task :
      (read i : ℕ)
      → lookup read active ≡ some i
      → (has i cancelled ≡ false) × (reader_of (find_task i xs) ≡ some read)

pub Ordered-mono : (b b' : ℕ) (xs : List TimerTask) → b' ≤ b → Ordered b xs → Ordered b' xs
Ordered-mono b b' [] h o = tt
Ordered-mono b b' (x ∷ xs) h o = (omega arith, o.1)

find-skip :
    (i : ℕ) (x : TimerTask) (xs : List TimerTask) → i ≢ x.id → find_task i (x ∷ xs) ≡ find_task i xs
find-skip i x xs h = ground arith

-- `forget` unmaps at most the task's own operation, and only where it is mapped to this task.
lookup-forget :
    (read i : ℕ) (task : TimerTask) (active : Map ℕ)
    → lookup read (forget task active) ≡ some i
    → (lookup read active ≡ some i) × ((task.state_.read ≡ some read) → i ≢ task.id)
lookup-forget read i task active h = grind (arith, lookup-erase)

-- The head of the queue is dropped with its tombstone.
pub skip-IsAgenda :
    (n : ℕ) (cancelled : List ℕ) (active : Map ℕ) (x : TimerTask) (xs : List TimerTask)
    → IsAgenda n cancelled active (x ∷ xs)
    → has x.id cancelled ≡ true
    → IsAgenda n (drop_id x.id cancelled) (forget x active) xs
skip-IsAgenda n cancelled active x xs a h = record {
  ordered = Ordered-mono x.time_point 1 xs a.ordered.0 a.ordered.1;
  distinct = a.distinct.1;
  issued = a.issued.2;
  tombs = λ i p. ground (arith, a.tombs i, has-drop_id i x.id cancelled);
  active_task = λ read i e.
      ground
        (arith, has-drop_id i x.id cancelled, lookup-forget read i x active, a.active_task read i);
}

pub forget-IsAgenda :
    (n : ℕ) (cancelled : List ℕ) (active : Map ℕ) (x : TimerTask) (xs : List TimerTask)
    → IsAgenda n cancelled active xs
    → IsAgenda n cancelled (forget x active) xs
forget-IsAgenda n cancelled active x xs a = record {
  ordered = a.ordered;
  distinct = a.distinct;
  issued = a.issued;
  tombs = a.tombs;
  active_task = λ read i e. a.active_task read i (lookup-forget read i x active e).0;
}

-- The head of the queue is dropped without a tombstone.
pub pop-IsAgenda :
    (n : ℕ) (cancelled : List ℕ) (active : Map ℕ) (x : TimerTask) (xs : List TimerTask)
    → IsAgenda n cancelled active (x ∷ xs)
    → has x.id cancelled ≡ false
    → IsAgenda n cancelled (forget x active) xs
pop-IsAgenda n cancelled active x xs a h = record {
  ordered = Ordered-mono x.time_point 1 xs a.ordered.0 a.ordered.1;
  distinct = a.distinct.1;
  issued = a.issued.2;
  tombs = λ i p. ground (arith, a.tombs i);
  active_task = λ read i e. ground (arith, lookup-forget read i x active, a.active_task read i);
}

-- An id that was not issued yet is not scheduled.
pub find-Issued : (n i : ℕ) (xs : List TimerTask) → Issued n xs → n ≤ i → find_task i xs ≡ none
find-Issued n i [] h k = refl
find-Issued n i (x ∷ xs) h k = ground (arith, find-Issued n i xs h.2)

pub Issued-mono : (n m : ℕ) (xs : List TimerTask) → n ≤ m → Issued n xs → Issued m xs
Issued-mono n m [] h k = tt
Issued-mono n m (x ∷ xs) h k = (k.0, omega arith, Issued-mono n m xs h k.2)

pub find-push :
    (i : ℕ) (task : TimerTask) (xs : List TimerTask)
    → find_task task.id xs ≡ none
    → find_task i (push task xs) ≡ (if task.id == i then some task else find_task i xs)
unfolding push
find-push i task [] h = refl
find-push i task (x ∷ xs) h = ground (arith, find-push i task xs)

pub Ordered-push :
    (b : ℕ) (task : TimerTask) (xs : List TimerTask)
    → Ordered b xs
    → b ≤ task.time_point
    → Ordered b (push task xs)
unfolding push
Ordered-push b task [] o h = (h, tt)
Ordered-push b task (x ∷ xs) o h = ground (arith, Ordered-push x.time_point task xs o.1)

pub Distinct-push :
    (task : TimerTask) (xs : List TimerTask)
    → Distinct xs
    → find_task task.id xs ≡ none
    → Distinct (push task xs)
unfolding push
Distinct-push task [] d h = (refl, tt)
Distinct-push task (x ∷ xs) d h = ground (arith, Distinct-push task xs d.1, find-push x.id task xs)

pub Issued-push :
    (n : ℕ) (task : TimerTask) (xs : List TimerTask)
    → Issued n xs
    → 0 < task.id
    → task.id < n
    → Issued n (push task xs)
unfolding push
Issued-push n task [] s h k = (h, k, tt)
Issued-push n task (x ∷ xs) s h k = ground (arith, Issued-push n task xs s.2)

lookup-remember :
    (read : ℕ) (task : TimerTask) (active : Map ℕ)
    → lookup read (remember task active)
      ≡ (if same_pointer task.state_.read (some read) then some task.id else lookup read active)
lookup-remember read task active = grind (arith, lookup-insert)

-- A new task under the next id: `xs` becomes `ys`, which holds one task more.
pub add-IsAgenda :
    (n : ℕ) (cancelled : List ℕ) (active : Map ℕ) (task : TimerTask) (xs ys : List TimerTask)
    → IsAgenda n cancelled active xs
    → task.id ≡ n
    → 0 < n
    → Ordered 1 ys
    → Distinct ys
    → Issued (n + 1) ys
    → ((i : ℕ) → find_task i ys ≡ (if task.id == i then some task else find_task i xs))
    → IsAgenda (n + 1) cancelled (remember task active) ys
add-IsAgenda n cancelled active task xs ys a e p o d s f = record {
  ordered = o;
  distinct = d;
  issued = s;
  tombs = λ i h. ground (arith, a.tombs i, f i);
  active_task = λ read i h. ground (
    arith,
    lookup-remember read task active,
    a.active_task read i,
    f i,
    a.tombs i,
    find-Issued n i xs a.issued,
  );
}

-- The task of an operation is given a tombstone.
pub cancel-IsAgenda :
    (n : ℕ) (cancelled : List ℕ) (active : Map ℕ) (xs : List TimerTask) (read id : ℕ)
    → IsAgenda n cancelled active xs
    → lookup read active ≡ some id
    → IsAgenda n (put id cancelled) (erase read active) xs
cancel-IsAgenda n cancelled active xs read id a e = record {
  ordered = a.ordered;
  distinct = a.distinct;
  issued = a.issued;
  tombs = λ i h. ground (arith, has-put i id cancelled, a.tombs i, a.active_task read id e);
  active_task = λ read' i h. ground (
    arith,
    has-put i id cancelled,
    lookup-erase read' read active,
    a.active_task read id e,
    a.active_task read' i,
  );
}
