-- ===== src/Scheduler/Roundtrip.antt =====
-- include/async_frame/scheduler.h: a submission followed by the matching removal.
use async_io_framework.Prelude.{
  ℕ, ◌≡◌, sym, ◌∙◌, none, some, lookup, lookup-insert, lookup-erase, ok, ◌>>◌, >>-eq-ok, arith,
  ◌==◌, if◌then◌else◌, false, insert, ap,
}
use async_io_framework.Events.{Events, without, any}
use async_io_framework.Epoll.{Epoll, IsReliable}
use async_io_framework.Operations.{FdOps}
use async_io_framework.Scheduler.{
  FdState, Scheduler, submit_event_impl, remove_op_impl, add_entry, erase_entry, new_entry,
  kept_entry, set_entry, forget_entry-eq-ok,
}
use async_io_framework.Scheduler.Agreement.{
  Agrees, Supplies, wanted, submit_event_impl-Agrees, remove_op_impl-Agrees,
}
use async_io_framework.Scheduler.Slots.{on_epoll-fd_to_op}
use async_io_framework.Scheduler.Total.{submit_event_impl_total, remove_op_impl_total}

any-without_self : (e : Events) → any (without e e) ≡ false
any-without_self e = ground arith

module _ {K : Type 0} (os : Epoll K) where
  submit_new-lookup :
      (fd j : ℕ) (op : FdOps) (event : Events) (s : Scheduler K)
      → lookup fd s.fd_to_op ≡ none
      → lookup j (submit_event_impl os fd op event s).1.fd_to_op
        ≡ (if fd == j then some (new_entry fd op event) else lookup j s.fd_to_op)
  unfolding submit_event_impl add_entry
  submit_new-lookup fd j op event s e =
      rw (e, submit_event_impl)
        (rw (on_epoll-fd_to_op (os.ctl_add s.epoll_manager fd (new_entry fd op event).ev))
          (lookup-insert j fd (new_entry fd op event) s.fd_to_op))

  remove_last-lookup :
      (fd j : ℕ) (event : Events) (st : FdState) (s : Scheduler K)
      → lookup fd s.fd_to_op ≡ some st
      → any (without st.ev.events event) ≡ false
      → (remove_op_impl os fd event s).0 ≡ ok tt
      → lookup j (remove_op_impl os fd event s).1.fd_to_op
        ≡ (if fd == j then none else lookup j s.fd_to_op)
  unfolding remove_op_impl erase_entry
  remove_last-lookup fd j event st s e gone h =
      let (k, done, after) =
        forget_entry-eq-ok fd (os.ctl_del s.epoll_manager fd) (set_entry fd (kept_entry event st) s)
          (rw (e, remove_op_impl, gone) at h) in
      rw (e, remove_op_impl, gone)
        (rw after (
          ground (
            arith,
            lookup-erase j fd (insert fd (kept_entry event st) s.fd_to_op),
            lookup-insert j fd (kept_entry event st) s.fd_to_op,
          )))

  -- A submission at a descriptor that nobody waits for, followed by the removal of the same events,
  -- returns, and restores the table at every descriptor and what epoll watches. The table and epoll
  -- agree before it, epoll is reliable, and the caller supplies the operations of the event.
  pub submit-remove :
      (fd : ℕ) (op : FdOps) (event : Events) (s : Scheduler K)
      → IsReliable os
      → Agrees os s
      → Supplies op event
      → lookup fd s.fd_to_op ≡ none
      → let (r, s') = (submit_event_impl os fd op event >> remove_op_impl os fd event) s in
        (r ≡ ok tt)
        × ((j : ℕ) → lookup j s'.fd_to_op ≡ lookup j s.fd_to_op)
        × ((j : ℕ) → os.interest s'.epoll_manager j ≡ os.interest s.epoll_manager j)
  submit-remove fd op event s r a p e = rw together (removes, same_table, same_interest)
    where
      s1 : Scheduler K
      s1 = (submit_event_impl os fd op event s).1

      submits : (submit_event_impl os fd op event s).0 ≡ ok tt
      submits = submit_event_impl_total os fd op event s r a

      together :
          (submit_event_impl os fd op event >> remove_op_impl os fd event) s
          ≡ remove_op_impl os fd event s1
      together =
          >>-eq-ok (submit_event_impl os fd op event) (remove_op_impl os fd event) s tt submits

      agrees : Agrees os s1
      agrees = submit_event_impl-Agrees os fd op event s a p submits

      removes : (remove_op_impl os fd event s1).0 ≡ ok tt
      removes = remove_op_impl_total os fd event s1 r agrees

      same_table :
          (j : ℕ) → lookup j (remove_op_impl os fd event s1).1.fd_to_op ≡ lookup j s.fd_to_op
      same_table j = ground (
        arith,
        remove_last-lookup fd j event (new_entry fd op event) s1
            (submit_new-lookup fd fd op event s e ∙ ground arith) (any-without_self event) removes,
        submit_new-lookup fd j op event s e,
      )

      same_interest :
          (j : ℕ)
          → os.interest (remove_op_impl os fd event s1).1.epoll_manager j
            ≡ os.interest s.epoll_manager j
      same_interest j =
          (remove_op_impl-Agrees os fd event s1 agrees removes).registered j
          ∙ ap wanted (same_table j)
          ∙ sym (a.registered j)
