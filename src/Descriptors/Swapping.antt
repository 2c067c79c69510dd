-- ===== src/Descriptors/Swapping.antt =====
-- include/async_frame/fd_object.h, include/async_frame/epoll_manager.h and
-- include/async_frame/connection.h: moves that swap.
use async_io_framework.Prelude.{
  ℕ, ◌≡◌, ◌≢◌, ◌∙◌, refl, none, some, Option, lookup, lookup-insert, lookup-erase, erase, arith,
  ◌==◌, if◌then◌else◌, Bool-cases, inl, inr, ap, subst, sym,
}
use async_io_framework.Descriptors.{
  Descriptors, close, set_fd, fdo_move_construct, fdo_move_assign, fdo_destroy, swap_managers,
  epoll_move_assign, swap_connections,
}

lookup-set_fd :
    (j object : ℕ) (v : Option ℕ) (s : Descriptors)
    → lookup j (set_fd object v s).fds ≡ (if object == j then v else lookup j s.fds)
lookup-set_fd j object none s = lookup-erase j object s.fds
lookup-set_fd j object (some fd) s = lookup-insert j object fd s.fds

set_fd_rest :
    (object : ℕ) (v : Option ℕ) (s : Descriptors)
    → ((set_fd object v s).opened ≡ s.opened) × ((set_fd object v s).faults ≡ s.faults)
set_fd_rest object none s = (refl, refl)
set_fd_rest object (some fd) s = (refl, refl)

-- Two objects have exchanged their descriptors, and nothing else has changed.
pub record Swapped (a b : ℕ) (s t : Descriptors) : Type 0 where
  pub members :
      (j : ℕ)
      → lookup j t.fds
        ≡ (if a == j then lookup b s.fds else if b == j then lookup a s.fds else lookup j s.fds)
  pub opened : t.opened ≡ s.opened
  pub faults : t.faults ≡ s.faults

swap-Swapped :
    (a b : ℕ) (s : Descriptors)
    → Swapped a b s (set_fd a (lookup b s.fds) (set_fd b (lookup a s.fds) s))
swap-Swapped a b s =
    let t : Descriptors = set_fd b (lookup a s.fds) s in
    let first = set_fd_rest b (lookup a s.fds) s in
    let second = set_fd_rest a (lookup b s.fds) t in
    record {
      members = λ j.
          ground
            (arith, lookup-set_fd j a (lookup b s.fds) t, lookup-set_fd j b (lookup a s.fds) s);
      opened = second.0 ∙ first.0;
      faults = second.1 ∙ first.1;
    }

fdo_move_assign-Swapped :
    (object other : ℕ) (s : Descriptors) → Swapped object other s (fdo_move_assign object other s)
unfolding fdo_move_assign
fdo_move_assign-Swapped object other s = swap-Swapped object other s

swap_connections-Swapped :
    (lhs rhs : ℕ) (s : Descriptors) → Swapped lhs rhs s (swap_connections lhs rhs s)
unfolding swap_connections
swap_connections-Swapped lhs rhs s = swap-Swapped lhs rhs s

destroy_empty :
    (object : ℕ) (s : Descriptors)
    → lookup object s.fds ≡ none
    → fdo_destroy object s ≡ record s { fds = erase object s.fds }
unfolding fdo_destroy
destroy_empty object s e =
    ap
      (λ o.
        let s' : Descriptors = elim o [ none ↦ s | some fd ↦ close fd s ] in
        record s' { fds = erase object s'.fds })
      e

move_construct-members :
    (object other j : ℕ) (s : Descriptors)
    → lookup j (fdo_move_construct object other s).fds
      ≡ (if other == j then none else if object == j then lookup other s.fds else lookup j s.fds)
unfolding fdo_move_construct
move_construct-members object other j s = ground (
  arith,
  lookup-set_fd j other none (set_fd object (lookup other s.fds) s),
  lookup-set_fd j object (lookup other s.fds) s,
)

move_construct_rest :
    (object other : ℕ) (s : Descriptors)
    → ((fdo_move_construct object other s).opened ≡ s.opened)
      × ((fdo_move_construct object other s).faults ≡ s.faults)
unfolding fdo_move_construct
move_construct_rest object other s =
    let first = set_fd_rest object (lookup other s.fds) s in
    let second = set_fd_rest other none (set_fd object (lookup other s.fds) s) in
    (second.0 ∙ first.0, second.1 ∙ first.1)

-- The moves of `std::swap`, one after another.
module _ (temporary a b : ℕ) (s : Descriptors) (fresh : lookup temporary s.fds ≡ none)
    (apart : a ≢ b) (t_a : temporary ≢ a) (t_b : temporary ≢ b) where
  abbrev first_move : Descriptors
  first_move = fdo_move_construct temporary a s

  abbrev second_move : Descriptors
  second_move = fdo_move_assign a b first_move

  abbrev third_move : Descriptors
  third_move = fdo_move_assign b temporary second_move

  second-members :
      (j : ℕ)
      → lookup j second_move.fds ≡ (
          if a == j
          then lookup b s.fds
          else if b == j
          then none
          else if temporary == j
          then lookup a s.fds
          else lookup j s.fds)
  second-members j = ground (
    arith,
    (fdo_move_assign-Swapped a b first_move).members j,
    move_construct-members temporary a j s,
    move_construct-members temporary a a s,
    move_construct-members temporary a b s,
  )

  third-members :
      (j : ℕ)
      → lookup j third_move.fds ≡ (
          if a == j
          then lookup b s.fds
          else if b == j
          then lookup a s.fds
          else if temporary == j
          then none
          else lookup j s.fds)
  third-members j = ground (
    arith,
    (fdo_move_assign-Swapped b temporary second_move).members j,
    second-members j,
    second-members temporary,
    second-members b,
  )

  swap_managers-Swapped : Swapped a b s (swap_managers temporary a b s)
  unfolding swap_managers
  swap_managers-Swapped =
      let emptied : lookup temporary third_move.fds ≡ none =
        ground (arith, third-members temporary) in
      let m1 = move_construct_rest temporary a s in
      let m2 = fdo_move_assign-Swapped a b first_move in
      let m3 = fdo_move_assign-Swapped b temporary second_move in
      subst (Swapped a b s) (sym (destroy_empty temporary third_move emptied)) (record {
        members = λ j. ground (arith, lookup-erase j temporary third_move.fds, third-members j);
        opened = m3.opened ∙ m2.opened ∙ m1.0;
        faults = m3.faults ∙ m2.faults ∙ m1.1;
      })

-- Assigning one `Epoll_Manager` to another, or `fdo` to `fdo`, or swapping two connections, exchanges
-- the descriptors of the two objects and nothing else: no descriptor is closed or lost. The two may
-- be one object. The temporary of `std::swap` is a third, new object.
pub moves_that_swap :
    (temporary object other : ℕ) (s : Descriptors)
    → lookup temporary s.fds ≡ none
    → temporary ≢ object
    → temporary ≢ other
    → Swapped object other s (epoll_move_assign temporary object other s)
      × Swapped object other s (fdo_move_assign object other s)
      × Swapped object other s (swap_connections object other s)
unfolding epoll_move_assign
moves_that_swap temporary object other s fresh t_a t_b = (
  elim (Bool-cases (object == other)) [
    | inl same ↦ rw same (record { members = λ j. ground arith; opened = refl; faults = refl })
    | inr differs ↦
        rw differs
          (swap_managers-Swapped temporary object other s fresh (λ e. ground arith) t_a t_b)
  ],
  fdo_move_assign-Swapped object other s,
  swap_connections-Swapped object other s,
)
