-- ===== src/Scheduler.antt =====
-- include/async_frame/scheduler.h: `class Scheduler`, the table of waiting operations that is kept
-- in step with an epoll instance. The event loop is in Scheduler/Running.antt.
pub mod Slots
pub mod Agreement
pub mod Total
pub mod Roundtrip
pub mod Running
use async_io_framework.Prelude.{
  ℕ, ◌≡◌, refl, Option, none, some, Map, lookup, insert, erase, Action, ok, ⊤, ◌>>◌, modify,
  on_member, discard, if◌then◌else◌,
}
use async_io_framework.Events.{
  Events, RegisterType, to_underlying, union, without, any, has_read, has_write,
}
use async_io_framework.Epoll
use async_io_framework.Epoll.{Epoll, EpollEvent, or_throw}
use async_io_framework.Operations.{FdOps}

pub record FdState : Type 0 where
  pub ev : EpollEvent
  pub read : Option ℕ
  pub write : Option ℕ

pub record Scheduler (K : Type 0) : Type 0 where
  pub epoll_manager : K
  pub fd_to_op : Map FdState

-- The bodies of the `if`s on `EVENT_READ` and `EVENT_WRITE`: the operations that `op` brings.
abbrev pub take_ops : Events → FdOps → FdState → FdState
take_ops event op st = record st {
  read = if has_read event then op.read else st.read;
  write = if has_write event then op.write else st.write;
}

abbrev pub drop_ops : Events → FdState → FdState
drop_ops event st = record st {
  read = if has_read event then none else st.read;
  write = if has_write event then none else st.write;
}

-- The entry that a submission writes, at a missing descriptor and over an entry.
abbrev pub new_entry : ℕ → FdOps → Events → FdState
new_entry fd op event =
    take_ops event op
      (record { ev = record { events = event; fd = fd }; read = none; write = none })

abbrev pub known_entry : FdOps → Events → FdState → FdState
known_entry op event st =
    take_ops event op
      (record st { ev = record { events = union st.ev.events event; fd = st.ev.fd } })

-- The entry that a removal writes.
abbrev pub kept_entry : Events → FdState → FdState
kept_entry event st =
    drop_ops event
      (record st { ev = record { events = without st.ev.events event; fd = st.ev.fd } })

module _ {K : Type 0} where
  -- A call of the member `epoll_manager_`.
  abbrev pub on_epoll : Action K ℕ → Action (Scheduler K) ⊤
  on_epoll m = discard (on_member (λ s. s.epoll_manager) (λ k s. record s { epoll_manager = k }) m)

  abbrev pub set_entry : ℕ → FdState → Scheduler K → Scheduler K
  set_entry fd st s = record s { fd_to_op = insert fd st s.fd_to_op }

  -- `fd_to_op.erase(it)`
  abbrev pub forget_entry : ℕ → Action (Scheduler K) ⊤
  forget_entry fd = modify (λ s. record s { fd_to_op = erase fd s.fd_to_op })

module _ {K : Type 0} (os : Epoll K) where
  pub commit_to_epoll : ℕ → EpollEvent → Action (Scheduler K) ⊤
  commit_to_epoll fd ev s = elim (lookup fd s.fd_to_op) [
    | none ↦ on_epoll (Epoll.add os fd ev) s
    | some st ↦
        on_epoll (Epoll.modify os fd (record { events = union ev.events st.ev.events; fd = fd })) s
  ]

  -- The entry is written, and epoll is told after. A throw leaves the entry written.
  unfoldable pub add_entry : ℕ → FdState → Action (Scheduler K) ⊤
  add_entry fd st s = on_epoll (Epoll.add os fd st.ev) (set_entry fd st s)

  unfoldable pub change_entry : ℕ → FdState → Action (Scheduler K) ⊤
  change_entry fd st s = on_epoll (Epoll.modify os fd st.ev) (set_entry fd st s)

  -- The entry is written, epoll is told, and the entry is erased last.
  unfoldable pub erase_entry : ℕ → FdState → Action (Scheduler K) ⊤
  erase_entry fd st s = (on_epoll (Epoll.remove os fd) >> forget_entry fd) (set_entry fd st s)

  unfoldable pub submit_event_impl : ℕ → FdOps → Events → Action (Scheduler K) ⊤
  submit_event_impl fd op event s = elim (lookup fd s.fd_to_op) [
    | none ↦ add_entry fd (new_entry fd op event) s
    | some st ↦ change_entry fd (known_entry op event st) s
  ]

  abbrev pub submit_read : ℕ → FdOps → Action (Scheduler K) ⊤
  submit_read fd op = submit_event_impl fd op (to_underlying RegisterType.event_read)

  abbrev pub submit_connect : ℕ → FdOps → Action (Scheduler K) ⊤
  submit_connect fd op = submit_event_impl fd op (to_underlying RegisterType.event_connect)

  abbrev pub submit_accept : ℕ → FdOps → Action (Scheduler K) ⊤
  submit_accept fd op = submit_event_impl fd op (to_underlying RegisterType.event_accept)

  abbrev pub submit_write : ℕ → FdOps → Action (Scheduler K) ⊤
  submit_write fd op = submit_event_impl fd op (to_underlying RegisterType.event_write)

  abbrev pub submit_timer : ℕ → FdOps → Action (Scheduler K) ⊤
  submit_timer fd op = submit_event_impl fd op (to_underlying RegisterType.event_timer)

  abbrev pub submit_cancel : ℕ → FdOps → Action (Scheduler K) ⊤
  submit_cancel fd op = submit_event_impl fd op (to_underlying RegisterType.event_read)

  unfoldable pub remove_op_impl : ℕ → Events → Action (Scheduler K) ⊤
  remove_op_impl fd event s = elim (lookup fd s.fd_to_op) [
    | none ↦ (ok tt, s)
    | some st ↦
        let st' = kept_entry event st in
        if any st'.ev.events then change_entry fd st' s else erase_entry fd st' s
  ]

  abbrev pub remove_read : ℕ → Action (Scheduler K) ⊤
  remove_read fd = remove_op_impl fd (to_underlying RegisterType.event_read)

  abbrev pub remove_write : ℕ → Action (Scheduler K) ⊤
  remove_write fd = remove_op_impl fd (to_underlying RegisterType.event_write)

  abbrev pub remove_connect : ℕ → Action (Scheduler K) ⊤
  remove_connect fd = remove_op_impl fd (to_underlying RegisterType.event_connect)

  abbrev pub remove_accept : ℕ → Action (Scheduler K) ⊤
  remove_accept fd = remove_op_impl fd (to_underlying RegisterType.event_accept)

  abbrev pub remove_timer : ℕ → Action (Scheduler K) ⊤
  remove_timer fd = remove_op_impl fd (to_underlying RegisterType.event_timer)

  abbrev pub remove_cancel : ℕ → Action (Scheduler K) ⊤
  remove_cancel fd = remove_op_impl fd (to_underlying RegisterType.event_read)

-- A call of epoll that succeeds returned an instance, which is the scheduler's from then on.
pub on_epoll-eq-ok :
    {K : Type 0} (o : Option K) (s : Scheduler K)
    → (on_epoll (or_throw o) s).0 ≡ ok tt
    → (k : K) × (o ≡ some k) × ((on_epoll (or_throw o) s).1 ≡ record s { epoll_manager = k })
on_epoll-eq-ok none s h = cc
on_epoll-eq-ok (some k) s h = (k, refl, refl)

pub forget_entry-eq-ok :
    {K : Type 0} (fd : ℕ) (o : Option K) (s : Scheduler K)
    → ((on_epoll (or_throw o) >> forget_entry fd) s).0 ≡ ok tt
    → (k : K) × (o ≡ some k)
      × (((on_epoll (or_throw o) >> forget_entry fd) s).1
          ≡ record { epoll_manager = k; fd_to_op = erase fd s.fd_to_op })
forget_entry-eq-ok fd none s h = cc
forget_entry-eq-ok fd (some k) s h = (k, refl, refl)
