-- ===== src/Scheduler/Agreement.antt =====
-- include/async_frame/scheduler.h: the agreement of the table `fd_to_op` with the epoll instance.
use async_io_framework.Prelude.{
  ℕ, ◌≡◌, true, Option, none, some, is_some, lookup, insert, lookup-insert, lookup-erase, ok,
  Option-cases, Bool-cases, inl, inr, arith, ◌==◌, if◌then◌else◌,
}
use async_io_framework.Events.{Events, without, any, has_read, has_write}
use async_io_framework.Epoll.{Epoll, EpollEvent}
use async_io_framework.Operations.{FdOps}
use async_io_framework.Scheduler.{
  FdState, Scheduler, submit_event_impl, remove_op_impl, add_entry, change_entry, erase_entry,
  new_entry, known_entry, kept_entry, on_epoll-eq-ok, forget_entry-eq-ok,
}

-- An entry names its own descriptor, is interested in something, and has an operation exactly for
-- the directions that it is interested in.
pub record IsEntry (fd : ℕ) (st : FdState) : Type 0 where
  pub own_fd : st.ev.fd ≡ fd
  pub interested : any st.ev.events ≡ true
  pub reads : is_some st.read ≡ has_read st.ev.events
  pub writes : is_some st.write ≡ has_write st.ev.events

abbrev pub wanted : Option FdState → Option EpollEvent
wanted none = none
wanted (some st) = some st.ev

-- The caller passes an operation for each direction that it submits, and submits some event.
pub record Supplies (op : FdOps) (event : Events) : Type 0 where
  pub some_event : any event ≡ true
  pub read_op : has_read event ≡ true → is_some op.read ≡ true
  pub write_op : has_write event ≡ true → is_some op.write ≡ true

new_entry-IsEntry :
    (fd : ℕ) (op : FdOps) (event : Events) → Supplies op event → IsEntry fd (new_entry fd op event)
new_entry-IsEntry fd op event p = ground arith

known_entry-IsEntry :
    (fd : ℕ) (op : FdOps) (event : Events) (st : FdState)
    → Supplies op event
    → IsEntry fd st
    → IsEntry fd (known_entry op event st)
known_entry-IsEntry fd op event st p w = ground arith

kept_entry-IsEntry :
    (fd : ℕ) (event : Events) (st : FdState)
    → any (without st.ev.events event) ≡ true
    → IsEntry fd st
    → IsEntry fd (kept_entry event st)
kept_entry-IsEntry fd event st h w = ground arith

module _ {K : Type 0} (os : Epoll K) where
  -- Epoll watches exactly what the table says, at every descriptor.
  pub record Agrees (s : Scheduler K) : Type 0 where
    pub registered : (fd : ℕ) → os.interest s.epoll_manager fd ≡ wanted (lookup fd s.fd_to_op)
    pub entries : (fd : ℕ) (st : FdState) → lookup fd s.fd_to_op ≡ some st → IsEntry fd st

  -- One entry written in the table and in epoll, or erased from both.
  put_entry :
      (fd : ℕ) (st : FdState) (s s' : Scheduler K)
      → Agrees s
      → IsEntry fd st
      → ((j : ℕ)
          → os.interest s'.epoll_manager j
            ≡ (if fd == j then some st.ev else os.interest s.epoll_manager j))
      → ((j : ℕ) → lookup j s'.fd_to_op ≡ (if fd == j then some st else lookup j s.fd_to_op))
      → Agrees s'
  put_entry fd st s s' a w hk ht = record {
    registered = λ j. ground (arith, hk j, ht j, a.registered j);
    entries = λ j st' q. ground (arith, ht j, a.entries j st');
  }

  cut_entry :
      (fd : ℕ) (s s' : Scheduler K)
      → Agrees s
      → ((j : ℕ)
          → os.interest s'.epoll_manager j
            ≡ (if fd == j then none else os.interest s.epoll_manager j))
      → ((j : ℕ) → lookup j s'.fd_to_op ≡ (if fd == j then none else lookup j s.fd_to_op))
      → Agrees s'
  cut_entry fd s s' a hk ht = record {
    registered = λ j. ground (arith, hk j, ht j, a.registered j);
    entries = λ j st' q. ground (arith, ht j, a.entries j st');
  }

  add_entry-Agrees :
      (fd : ℕ) (st : FdState) (s : Scheduler K)
      → Agrees s
      → IsEntry fd st
      → (add_entry os fd st s).0 ≡ ok tt
      → Agrees (add_entry os fd st s).1
  unfolding add_entry
  add_entry-Agrees fd st s a w h =
      let (k, done, after) = on_epoll-eq-ok (os.ctl_add s.epoll_manager fd st.ev) _ h in
      rw after (
        put_entry fd st s _ a w (λ j. os.interest-add s.epoll_manager fd st.ev k j done)
          (λ j. lookup-insert j fd st s.fd_to_op))

  change_entry-Agrees :
      (fd : ℕ) (st : FdState) (s : Scheduler K)
      → Agrees s
      → IsEntry fd st
      → (change_entry os fd st s).0 ≡ ok tt
      → Agrees (change_entry os fd st s).1
  unfolding change_entry
  change_entry-Agrees fd st s a w h =
      let (k, done, after) = on_epoll-eq-ok (os.ctl_mod s.epoll_manager fd st.ev) _ h in
      rw after (
        put_entry fd st s _ a w (λ j. os.interest-mod s.epoll_manager fd st.ev k j done)
          (λ j. lookup-insert j fd st s.fd_to_op))

  erase_entry-Agrees :
      (fd : ℕ) (st : FdState) (s : Scheduler K)
      → Agrees s
      → (erase_entry os fd st s).0 ≡ ok tt
      → Agrees (erase_entry os fd st s).1
  unfolding erase_entry
  erase_entry-Agrees fd st s a h =
      let (k, done, after) = forget_entry-eq-ok fd (os.ctl_del s.epoll_manager fd) _ h in
      rw after (
        cut_entry fd s _ a (λ j. os.interest-del s.epoll_manager fd k j done)
          (λ j.
            ground (
              arith,
              lookup-insert j fd st s.fd_to_op,
              lookup-erase j fd (insert fd st s.fd_to_op),
            )))

  -- A submission that returns keeps the agreement, on a new descriptor and on a known one, if the
  -- caller supplies the operations of the event.
  pub submit_event_impl-Agrees :
      (fd : ℕ) (op : FdOps) (event : Events) (s : Scheduler K)
      → Agrees s
      → Supplies op event
      → (submit_event_impl os fd op event s).0 ≡ ok tt
      → Agrees (submit_event_impl os fd op event s).1
  unfolding submit_event_impl
  submit_event_impl-Agrees fd op event s a p h = elim (Option-cases (lookup fd s.fd_to_op)) [
    | inl e ↦
        rw (e, submit_event_impl)
          (add_entry-Agrees fd _ s a (new_entry-IsEntry fd op event p)
            (rw (e, submit_event_impl) at h))
    | inr (st, e) ↦
        rw (e, submit_event_impl)
          (change_entry-Agrees fd _ s a (known_entry-IsEntry fd op event st p (a.entries fd st e))
            (rw (e, submit_event_impl) at h))
  ]

  -- A removal that returns keeps the agreement, whether it leaves an entry, erases it or finds none.
  pub remove_op_impl-Agrees :
      (fd : ℕ) (event : Events) (s : Scheduler K)
      → Agrees s
      → (remove_op_impl os fd event s).0 ≡ ok tt
      → Agrees (remove_op_impl os fd event s).1
  unfolding remove_op_impl
  remove_op_impl-Agrees fd event s a h = elim (Option-cases (lookup fd s.fd_to_op)) [
    | inl e ↦ rw (e, remove_op_impl) a
    | inr (st, e) ↦ elim (Bool-cases (any (without st.ev.events event))) [
      | inl left ↦
          rw (e, remove_op_impl, left)
            (change_entry-Agrees fd _ s a (kept_entry-IsEntry fd event st left (a.entries fd st e))
              (rw (e, remove_op_impl, left) at h))
      | inr gone ↦
          rw (e, remove_op_impl, gone)
            (erase_entry-Agrees fd _ s a (rw (e, remove_op_impl, gone) at h))
    ]
  ]
