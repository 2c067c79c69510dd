-- ===== src/Scheduler/Slots.antt =====
-- include/async_frame/scheduler.h as a client sees it: each descriptor has one read slot and one
-- write slot. Submissions and removals are pointwise updates of these slots.
use async_io_framework.Prelude.{
  ℕ, ◌≡◌, refl, Option, none, some, lookup, lookup-insert, lookup-erase, Option-cases, Bool-cases,
  inl, inr, arith, ◌==◌, if◌then◌else◌, ◌>>◌,
}
use async_io_framework.Events.{Events, without, any, has_read, has_write}
use async_io_framework.Epoll.{Epoll, or_throw}
use async_io_framework.Operations.{FdOps}
use async_io_framework.Scheduler.{
  FdState, Scheduler, set_entry, submit_event_impl, remove_op_impl, add_entry, change_entry,
  erase_entry, new_entry, known_entry, kept_entry, on_epoll, forget_entry,
}
use async_io_framework.Scheduler.Agreement.{Agrees}

-- The operations that wait at a descriptor.
pub record Waiters : Type 0 where
  pub reader : Option ℕ
  pub writer : Option ℕ

abbrev pub nobody : Waiters
nobody = record { reader = none; writer = none }

abbrev pub of_entry : Option FdState → Waiters
of_entry none = nobody
of_entry (some st) = record { reader = st.read; writer = st.write }

abbrev pub waiters : {K : Type 0} → Scheduler K → ℕ → Waiters
waiters s fd = of_entry (lookup fd s.fd_to_op)

-- The specification: the directions of the event are overwritten, the others are left.
abbrev pub admit : Events → FdOps → Waiters → Waiters
admit event op w = record {
  reader = if has_read event then op.read else w.reader;
  writer = if has_write event then op.write else w.writer;
}

abbrev pub dismiss : Events → Waiters → Waiters
dismiss event w = record {
  reader = if has_read event then none else w.reader;
  writer = if has_write event then none else w.writer;
}

pub on_epoll-fd_to_op :
    {K : Type 0} (o : Option K) (s : Scheduler K)
    → (on_epoll (or_throw o) s).1.fd_to_op ≡ s.fd_to_op
on_epoll-fd_to_op none s = refl
on_epoll-fd_to_op (some k) s = refl

module _ {K : Type 0} (os : Epoll K) where
  -- For every descriptor, a submission overwrites the slots of its event's directions at its own
  -- descriptor, and leaves every other slot as it was, also where it throws.
  pub waiters-submit_event_impl :
      (fd j : ℕ) (op : FdOps) (event : Events) (s : Scheduler K)
      → waiters (submit_event_impl os fd op event s).1 j
        ≡ (if fd == j then admit event op (waiters s j) else waiters s j)
  unfolding submit_event_impl add_entry change_entry
  waiters-submit_event_impl fd j op event s = elim (Option-cases (lookup fd s.fd_to_op)) [
    | inl e ↦
        rw (e, submit_event_impl)
          (rw (on_epoll-fd_to_op (os.ctl_add s.epoll_manager fd (new_entry fd op event).ev))
            (rw lookup-insert (ground arith)))
    | inr (st, e) ↦
        rw (e, submit_event_impl)
          (rw (on_epoll-fd_to_op (os.ctl_mod s.epoll_manager fd (known_entry op event st).ev))
            (rw lookup-insert (ground arith)))
  ]

  forget_entry-waiters :
      (fd j : ℕ) (o : Option K) (s : Scheduler K)
      → waiters s fd ≡ nobody
      → waiters ((on_epoll (or_throw o) >> forget_entry fd) s).1 j ≡ waiters s j
  forget_entry-waiters fd j none s h = refl
  forget_entry-waiters fd j (some k) s h = rw lookup-erase (ground arith)

  -- For every descriptor, a removal empties the slots of its event's directions at its own
  -- descriptor, and leaves every other slot as it was, also where it throws; the table and epoll
  -- agree before it.
  pub waiters-remove_op_impl :
      (fd j : ℕ) (event : Events) (s : Scheduler K)
      → Agrees os s
      → waiters (remove_op_impl os fd event s).1 j
        ≡ (if fd == j then dismiss event (waiters s j) else waiters s j)
  unfolding remove_op_impl change_entry erase_entry
  waiters-remove_op_impl fd j event s a = elim (Option-cases (lookup fd s.fd_to_op)) [
    | inl e ↦ rw (e, remove_op_impl) (ground arith)
    | inr (st, e) ↦ elim (Bool-cases (any (without st.ev.events event))) [
      | inl left ↦
          rw (e, remove_op_impl, left)
            (rw (on_epoll-fd_to_op (os.ctl_mod s.epoll_manager fd (kept_entry event st).ev))
              (rw lookup-insert (ground arith)))
      | inr gone ↦
          rw (e, remove_op_impl, gone)
            (rw
              (forget_entry-waiters fd j (os.ctl_del s.epoll_manager fd)
                (set_entry fd (kept_entry event st) s)
                (rw lookup-insert (ground (arith, a.entries fd st e))))
              (rw lookup-insert (ground (arith, a.entries fd st e))))
    ]
  ]
