-- ===== src/Scheduler/Total.antt =====
-- include/async_frame/scheduler.h: when submissions and removals return.
use async_io_framework.Prelude.{
  ℕ, ◌≡◌, ◌≢◌, none, some, lookup, ok, Option-cases, Bool-cases, inl, inr, arith,
}
use async_io_framework.Events.{Events, without, any}
use async_io_framework.Epoll.{Epoll, IsReliable}
use async_io_framework.Operations.{FdOps}
use async_io_framework.Scheduler.{
  FdState, Scheduler, submit_event_impl, remove_op_impl, add_entry, change_entry, erase_entry,
  new_entry, known_entry, kept_entry,
}
use async_io_framework.Scheduler.Agreement.{Agrees}

module _ {K : Type 0} (os : Epoll K) where
  add_entry_total :
      (fd : ℕ) (st : FdState) (s : Scheduler K)
      → os.ctl_add s.epoll_manager fd st.ev ≢ none
      → (add_entry os fd st s).0 ≡ ok tt
  unfolding add_entry
  add_entry_total fd st s h = ground arith

  change_entry_total :
      (fd : ℕ) (st : FdState) (s : Scheduler K)
      → os.ctl_mod s.epoll_manager fd st.ev ≢ none
      → (change_entry os fd st s).0 ≡ ok tt
  unfolding change_entry
  change_entry_total fd st s h = ground arith

  erase_entry_total :
      (fd : ℕ) (st : FdState) (s : Scheduler K)
      → os.ctl_del s.epoll_manager fd ≢ none
      → (erase_entry os fd st s).0 ≡ ok tt
  unfolding erase_entry
  erase_entry_total fd st s h = ground arith

  is_registered :
      (fd : ℕ) (st : FdState) (s : Scheduler K)
      → Agrees os s
      → lookup fd s.fd_to_op ≡ some st
      → os.interest s.epoll_manager fd ≢ none
  is_registered fd st s a e = ground (arith, a.registered fd)

  -- Where epoll refuses no valid call and agrees with the table, no submission throws: a new
  -- descriptor is added and a known one modified.
  pub submit_event_impl_total :
      (fd : ℕ) (op : FdOps) (event : Events) (s : Scheduler K)
      → IsReliable os
      → Agrees os s
      → (submit_event_impl os fd op event s).0 ≡ ok tt
  unfolding submit_event_impl
  submit_event_impl_total fd op event s r a = elim (Option-cases (lookup fd s.fd_to_op)) [
    | inl e ↦
        rw (e, submit_event_impl)
          (add_entry_total fd (new_entry fd op event) s
            (r.adds s.epoll_manager fd _ (ground (arith, a.registered fd))))
    | inr (st, e) ↦
        rw (e, submit_event_impl)
          (change_entry_total fd (known_entry op event st) s
            (r.mods s.epoll_manager fd _ (is_registered fd st s a e)))
  ]

  -- Nor does a removal: a descriptor with interests left is modified, one without is deleted, and
  -- one that is not in the table is left alone.
  pub remove_op_impl_total :
      (fd : ℕ) (event : Events) (s : Scheduler K)
      → IsReliable os
      → Agrees os s
      → (remove_op_impl os fd event s).0 ≡ ok tt
  unfolding remove_op_impl
  remove_op_impl_total fd event s r a = elim (Option-cases (lookup fd s.fd_to_op)) [
    | inl e ↦ rw (e, remove_op_impl)
    | inr (st, e) ↦ elim (Bool-cases (any (without st.ev.events event))) [
      | inl left ↦
          rw (e, remove_op_impl, left)
            (change_entry_total fd (kept_entry event st) s
              (r.mods s.epoll_manager fd _ (is_registered fd st s a e)))
      | inr gone ↦
          rw (e, remove_op_impl, gone)
            (erase_entry_total fd (kept_entry event st) s
              (r.dels s.epoll_manager fd (is_registered fd st s a e)))
    ]
  ]
