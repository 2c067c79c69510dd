-- ===== src/Descriptors/Ownership.antt =====
-- include/async_frame/connection.h: the owners of descriptors in histories of `Connection`;
-- include/async_frame/epoll_manager.h: a moved `Epoll_Manager`.
use async_io_framework.Prelude.{
  ℕ, ◌+◌, ◌≡◌, ◌≢◌, refl, ap, ◌∙◌, true, false, none, some, [], lookup, lookup-insert, lookup-erase,
  has, has-put, has-drop_id, insert, erase, drop_id, arith, ◌==◌, if◌then◌else◌, Option-cases,
  Bool-cases, inl, inr,
}
use async_io_framework.Descriptors.{
  Descriptors, close, make_object, close_fd, move_construct, move_assign, fdo_close_fd, fdo_destroy,
  epoll_move_construct,
}

-- Each descriptor has one owner, which keeps it open, and close(2) has only been called on open ones.
pub record Owned (s : Descriptors) : Type 0 where
  pub open_fds : (object fd : ℕ) → lookup object s.fds ≡ some fd → has fd s.opened ≡ true
  pub one_owner : (a b fd : ℕ) → lookup a s.fds ≡ some fd → lookup b s.fds ≡ some fd → a ≡ b
  pub no_fault : s.faults ≡ 0

-- A call of the program on its connections. A new object is not one that holds a descriptor, and a
-- new descriptor is not open.
pub data Step (s : Descriptors) : Descriptors → Type 0 where
  makes :
      (object fd : ℕ)
      → lookup object s.fds ≡ none
      → has fd s.opened ≡ false
      → Step s (make_object object fd s)
  moves : (object other : ℕ) → lookup object s.fds ≡ none → Step s (move_construct object other s)
  assigns : (object other : ℕ) → Step s (move_assign object other s)
  closes : (object : ℕ) → Step s (close_fd object s)

pub data Reach (s : Descriptors) : Descriptors → Type 0 where
  here : Reach s s
  next : {t u : Descriptors} → Reach s t → Step t u → Reach s u

pub make_object-Owned :
    (object fd : ℕ) (s : Descriptors)
    → Owned s
    → lookup object s.fds ≡ none
    → has fd s.opened ≡ false
    → Owned (make_object object fd s)
unfolding make_object
make_object-Owned object fd s o fresh shut = record {
  open_fds = λ a n h.
      ground (arith, lookup-insert a object fd s.fds, has-put n fd s.opened, o.open_fds a n);
  one_owner = λ a b n h k. ground (
    arith,
    lookup-insert a object fd s.fds,
    lookup-insert b object fd s.fds,
    o.one_owner a b n,
    o.open_fds a n,
    o.open_fds b n,
  );
  no_fault = o.no_fault;
}

pub close_fd-Owned : (object : ℕ) (s : Descriptors) → Owned s → Owned (close_fd object s)
unfolding close_fd
close_fd-Owned object s o = elim (Option-cases (lookup object s.fds)) [
  | inl e ↦ rw (e, close_fd) o
  | inr (fd, e) ↦
      rw (e, close_fd, o.open_fds object fd e)
        (record {
          open_fds = λ a n h. ground (
            arith,
            lookup-erase a object s.fds,
            has-drop_id n fd s.opened,
            o.open_fds a n,
            o.one_owner a object n,
          );
          one_owner = λ a b n h k.
              ground (
                arith,
                lookup-erase a object s.fds,
                lookup-erase b object s.fds,
                o.one_owner a b n,
              );
          no_fault = o.no_fault;
        })
]

close_fd-lookup : (object : ℕ) (s : Descriptors) → lookup object (close_fd object s).fds ≡ none
unfolding close_fd
close_fd-lookup object s = elim (Option-cases (lookup object s.fds)) [
  | inl e ↦ rw (e, close_fd) e
  | inr (fd, e) ↦ elim (Bool-cases (has fd s.opened)) [
    | inl h ↦ rw (e, close_fd, h) (ground (arith, lookup-erase object object s.fds))
    | inr h ↦ rw (e, close_fd, h) (ground (arith, lookup-erase object object s.fds))
  ]
]

pub move_construct-Owned :
    (object other : ℕ) (s : Descriptors)
    → Owned s
    → lookup object s.fds ≡ none
    → Owned (move_construct object other s)
unfolding move_construct
move_construct-Owned object other s o fresh = elim (Option-cases (lookup other s.fds)) [
  | inl e ↦
      rw (e, move_construct)
        (record {
          open_fds = λ a n h. ground (arith, lookup-erase a object s.fds, o.open_fds a n);
          one_owner = λ a b n h k.
              ground (
                arith,
                lookup-erase a object s.fds,
                lookup-erase b object s.fds,
                o.one_owner a b n,
              );
          no_fault = o.no_fault;
        })
  | inr (fd, e) ↦
      rw (e, move_construct)
        (record {
          open_fds = λ a n h. ground (
            arith,
            lookup-insert a object fd (erase other s.fds),
            lookup-erase a other s.fds,
            o.open_fds a n,
            o.open_fds other n,
          );
          one_owner = λ a b n h k. ground (
            arith,
            lookup-insert a object fd (erase other s.fds),
            lookup-insert b object fd (erase other s.fds),
            lookup-erase a other s.fds,
            lookup-erase b other s.fds,
            o.one_owner a b n,
            o.one_owner a other n,
            o.one_owner b other n,
          );
          no_fault = o.no_fault;
        })
]

pub Step-Owned : {s t : Descriptors} → Step s t → Owned s → Owned t
unfolding move_assign
Step-Owned {s} (makes object fd fresh shut) o = make_object-Owned object fd s o fresh shut
Step-Owned {s} (moves object other fresh) o = move_construct-Owned object other s o fresh
Step-Owned {s} (closes object) o = close_fd-Owned object s o
Step-Owned {s} (assigns object other) o = elim (Bool-cases (object == other)) [
  | inl h ↦ rw (h, move_assign) o
  | inr h ↦
      rw (h, move_assign)
        (move_construct-Owned object other (close_fd object s) (close_fd-Owned object s o)
          (close_fd-lookup object s))
]

-- In every history of making, moving, assigning, closing and destroying connections, each open
-- descriptor that a connection holds has that one owner, and close(2) is never called on a
-- descriptor that is not open: no descriptor is closed twice.
pub Reach-Owned :
    {s : Descriptors} → Reach (record { fds = []; opened = []; faults = 0 }) s → Owned s
unfolding lookup
Reach-Owned here = record {
  open_fds = λ object fd h. absurd (ground arith);
  one_owner = λ a b fd h k. absurd (ground arith);
  no_fault = refl;
}
Reach-Owned (next r s) = Step-Owned s (Reach-Owned r)

fdo_close_fd-eq :
    (object fd : ℕ) (s : Descriptors)
    → lookup object s.fds ≡ some fd
    → fdo_close_fd object s ≡ close fd s
fdo_close_fd-eq object fd s e = ap (λ o. elim o [ none ↦ s | some fd ↦ close fd s ]) e

fdo_destroy_shut :
    (object fd : ℕ) (s : Descriptors)
    → lookup object s.fds ≡ some fd
    → has fd s.opened ≡ false
    → fdo_destroy object s
      ≡ record { fds = erase object s.fds; opened = s.opened; faults = s.faults + 1 }
unfolding fdo_destroy
fdo_destroy_shut object fd s e h =
    ap (λ (t : Descriptors). record t { fds = erase object t.fds })
      (fdo_close_fd-eq object fd s e
        ∙ ap
            (λ b.
              if b
              then record s { opened = drop_id fd s.opened }
              else record s { faults = s.faults + 1 })
            h)

epoll_move_construct_open :
    (object other fd : ℕ) (s : Descriptors)
    → lookup other s.fds ≡ some fd
    → has fd s.opened ≡ true
    → object ≢ other
    → epoll_move_construct object other s
      ≡ record { fds = insert object fd s.fds; opened = drop_id fd s.opened; faults = s.faults }
unfolding epoll_move_construct
epoll_move_construct_open object other fd s e h n =
    let still : lookup other (insert object fd s.fds) ≡ some fd =
      ground (arith, lookup-insert other object fd s.fds) in
    let s' : Descriptors = record s { fds = insert object fd s.fds } in
    ap
      (λ o. elim o [
        | none ↦ record s { fds = erase object s.fds }
        | some fd ↦ fdo_close_fd other (record s { fds = insert object fd s.fds })
      ])
      e
    ∙ fdo_close_fd-eq other fd s' still
    ∙ ap
        (λ b.
          if b
          then record s' { opened = drop_id fd s.opened }
          else record s' { faults = s.faults + 1 })
        h

-- Moving an `Epoll_Manager` that holds an open descriptor into another object, and destroying both,
-- calls close(2) twice on a descriptor that is not open.
pub epoll_move_construct_faults :
    (object other fd : ℕ) (s : Descriptors)
    → lookup other s.fds ≡ some fd
    → has fd s.opened ≡ true
    → object ≢ other
    → (fdo_destroy object (fdo_destroy other (epoll_move_construct object other s))).faults
      ≡ s.faults + 2
epoll_move_construct_faults object other fd s e h n =
    let fds = insert object fd s.fds in
    let shut : has fd (drop_id fd s.opened) ≡ false = ground (arith, has-drop_id fd fd s.opened) in
    let first =
      fdo_destroy_shut other fd
        (record { fds = fds; opened = drop_id fd s.opened; faults = s.faults })
        (ground (arith, lookup-insert other object fd s.fds)) shut in
    let second =
      fdo_destroy_shut object fd
        (record { fds = erase other fds; opened = drop_id fd s.opened; faults = s.faults + 1 })
        (ground (arith, lookup-insert object object fd s.fds, lookup-erase object other fds))
        shut in
    ap (λ d. (fdo_destroy object (fdo_destroy other d)).faults)
      (epoll_move_construct_open object other fd s e h n)
    ∙ ap (λ d. (fdo_destroy object d).faults) first
    ∙ ap (λ d. d.faults) second
    ∙ omega arith
