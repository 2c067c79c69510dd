-- ===== src/Context.antt =====
-- include/async_frame/async_frame.hpp: `IO_CONTEXT`, the older front end, as an owner of two epoll
-- descriptors. What epoll_create1(2) and close(2) do is an argument, or a step on the descriptors.
use async_io_framework.Prelude.{
  ℕ, ◌+◌, ◌≡◌, ◌≢◌, ◌∙◌, refl, ap, true, false, Option, none, some, has, put, drop_id, has-put,
  has-drop_id, Action, ok, thrown, ⊤, arith,
}
use async_io_framework.Events.{RegisterType, to_underlying}
use async_io_framework.Epoll.{Epoll}
use async_io_framework.Descriptors.{Descriptors, close}

-- The members, which are `none` for -1, and the descriptors of the process.
pub record IoContext : Type 0 where
  pub accept_epfd : Option ℕ
  pub conn_epfd : Option ℕ

-- A descriptor that epoll_create1(2) returned is open.
abbrev pub open_fd : Option ℕ → Descriptors → Descriptors
open_fd none s = s
open_fd (some fd) s = record s { opened = put fd s.opened }

-- `IO_CONTEXT()`: the test after the second call is about the first descriptor again.
unfoldable pub make_io_context : Option ℕ → Option ℕ → Action Descriptors IoContext
make_io_context none accept s = (thrown, s)
make_io_context (some conn) accept s = (
  ok (record { accept_epfd = accept; conn_epfd = some conn }),
  open_fd accept (open_fd (some conn) s),
)

-- close(2) of a member; of -1 it does nothing.
abbrev pub close_member : Option ℕ → Descriptors → Descriptors
close_member none s = s
close_member (some fd) s = close fd s

-- `close_all_epfd`, which is also what the destructor does. The members stay.
unfoldable pub close_all_epfd : IoContext → Descriptors → Descriptors
close_all_epfd c s = close_member c.conn_epfd (close_member c.accept_epfd s)

-- `register_event`, on the epoll instance of `conn_epfd`; `ev.events` is EPOLLIN.
unfoldable pub register_event : {K : Type 0} → Epoll K → ℕ → Action K ⊤
register_event os fd k =
    elim (os.ctl_add k fd (record { events = to_underlying RegisterType.event_read; fd = fd })) [
      | none ↦ (thrown, k)
      | some k' ↦ (ok tt, k')
    ]

close_open :
    (fd : ℕ) (s : Descriptors)
    → has fd s.opened ≡ true
    → close fd s ≡ record s { opened = drop_id fd s.opened }
close_open fd s h = rw h refl

close_shut :
    (fd : ℕ) (s : Descriptors)
    → has fd s.opened ≡ false
    → close fd s ≡ record s { faults = s.faults + 1 }
close_shut fd s h = rw h refl

-- A context whose constructor opened two descriptors: `close_all_epfd` closes both, and the
-- destructor, which runs it again on the same members, calls close(2) twice on descriptors that are
-- not open. The two descriptors are new and different.
pub close_all_epfd_twice :
    (conn accept : ℕ) (s : Descriptors)
    → has conn s.opened ≡ false
    → has accept s.opened ≡ false
    → conn ≢ accept
    → let (r, s1) = make_io_context (some conn) (some accept) s in
      let c : IoContext = record { accept_epfd = some accept; conn_epfd = some conn } in
      let s2 = close_all_epfd c s1 in
      (r ≡ ok c)
      × (has conn s2.opened ≡ false)
      × (has accept s2.opened ≡ false)
      × (s2.faults ≡ s.faults)
      × ((close_all_epfd c s2).faults ≡ s.faults + 2)
unfolding make_io_context close_all_epfd
close_all_epfd_twice conn accept s h k apart =
    let both = put accept (put conn s.opened) in
    let shut = drop_id conn (drop_id accept both) in
    let accept_in : has accept both ≡ true =
      ground (arith, has-put accept accept (put conn s.opened)) in
    let conn_in : has conn (drop_id accept both) ≡ true = ground (
      arith,
      has-drop_id conn accept both,
      has-put conn accept (put conn s.opened),
      has-put conn conn s.opened,
    ) in
    let accept_out : has accept shut ≡ false =
      ground
        (arith, has-drop_id accept conn (drop_id accept both), has-drop_id accept accept both) in
    let conn_out : has conn shut ≡ false =
      ground (arith, has-drop_id conn conn (drop_id accept both)) in
    let s1 : Descriptors = record s { opened = both } in
    let s2 : Descriptors = record s { opened = shut } in
    let closed : close conn (close accept s1) ≡ s2 =
      ap (close conn) (close_open accept s1 accept_in)
      ∙ close_open conn (record s { opened = drop_id accept both }) conn_in in
    let again : close conn (close accept s2) ≡ record s2 { faults = s.faults + 1 + 1 } =
      ap (close conn) (close_shut accept s2 accept_out)
      ∙ close_shut conn (record s2 { faults = s.faults + 1 }) conn_out in
    (
      refl,
      ap (λ t. has conn t.opened) closed ∙ conn_out,
      ap (λ t. has accept t.opened) closed ∙ accept_out,
      ap (λ t. t.faults) closed,
      ap (λ t. (close conn (close accept t)).faults) closed
          ∙ ap (λ t. t.faults) again
          ∙ omega arith,
    )
