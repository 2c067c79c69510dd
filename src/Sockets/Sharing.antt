-- ===== src/Sockets/Sharing.antt =====
-- include/async_frame/connector.hpp: which of its objects share a descriptor, and which take it over.
use async_io_framework.Prelude.{
  ℕ, ◌+◌, ◌≡◌, ◌≢◌, ◌⊎◌, inl, inr, refl, ap, sym, ◌∙◌, ⊤, Bool, true, false, ◌&&◌, none, some, [],
  lookup, lookup-insert, lookup-erase, has, has-drop_id, insert, erase, Result, ok, thrown, arith,
  ◌==◌, Bool-cases, Option, drop_id,
}
use async_io_framework.Transfer.{ErrorCode, einprogress}
use async_io_framework.Descriptors.{Descriptors, close_fd}
use async_io_framework.Descriptors.Ownership.{
  Owned, make_object-Owned, close_fd-Owned, move_construct-Owned,
}
use async_io_framework.Descriptors.Ownership
use async_io_framework.Sockets.{Pton}
use async_io_framework.Sockets.Connector.{
  make_socket, destroy_socket, share_fd, server_from_socket, make_acceptor, accept_now,
  acceptor_close_fd, connecting_now, is_unconverted, is_failed,
}
use async_io_framework.Awaiters.Single.{ConnectOutcome}

-- A call of a program that makes sockets and acceptors, accepts connections, and uses them. A new
-- object holds no descriptor yet, and a new descriptor is not open.
pub data Step (s : Descriptors) : Descriptors → Type 0 where
  connections : {t : Descriptors} → Ownership.Step s t → Step s t
  makes_socket :
      (object : ℕ) (answer : Option ℕ)
      → lookup object s.fds ≡ none
      → ((fd : ℕ) → answer ≡ some fd → has fd s.opened ≡ false)
      → Step s (make_socket object answer s).1
  destroys_socket : (object : ℕ) → Step s (destroy_socket object s)
  makes_acceptor :
      (object socket : ℕ) (binds listens : Bool)
      → lookup object s.fds ≡ none
      → Step s (make_acceptor object socket binds listens s).1
  accepts :
      (connection : ℕ) (answer : Option ℕ)
      → lookup connection s.fds ≡ none
      → ((fd : ℕ) → answer ≡ some fd → has fd s.opened ≡ false)
      → Step s (accept_now connection answer s).1
  closes_acceptor : (object : ℕ) → Step s (acceptor_close_fd object s)

pub data Reach (s : Descriptors) : Descriptors → Type 0 where
  here : Reach s s
  next : {t u : Descriptors} → Reach s t → Step t u → Reach s u

destroy_socket-eq : (object : ℕ) (s : Descriptors) → destroy_socket object s ≡ close_fd object s
unfolding destroy_socket close_fd
destroy_socket-eq object s = refl

acceptor_close_fd-eq :
    (object : ℕ) (s : Descriptors) → acceptor_close_fd object s ≡ close_fd object s
unfolding acceptor_close_fd close_fd
acceptor_close_fd-eq object s = refl

made-Owned :
    (object : ℕ) (answer : Option ℕ) (s : Descriptors)
    → Owned s
    → lookup object s.fds ≡ none
    → ((fd : ℕ) → answer ≡ some fd → has fd s.opened ≡ false)
    → Owned (make_socket object answer s).1 × Owned (accept_now object answer s).1
unfolding make_socket accept_now
made-Owned object none s o fresh shut = (o, o)
made-Owned object (some fd) s o fresh shut =
    let m = make_object-Owned object fd s o fresh (shut fd refl) in (m, m)

make_acceptor-Owned :
    (object socket : ℕ) (binds listens : Bool) (s : Descriptors)
    → Owned s
    → lookup object s.fds ≡ none
    → Owned (make_acceptor object socket binds listens s).1
unfolding make_acceptor
make_acceptor-Owned object socket false listens s o fresh = o
make_acceptor-Owned object socket true false s o fresh = o
make_acceptor-Owned object socket true true s o fresh = move_construct-Owned object socket s o fresh

Step-Owned : {s t : Descriptors} → Step s t → Owned s → Owned t
Step-Owned (connections st) o = Ownership.Step-Owned st o
Step-Owned {s} (makes_socket object answer fresh shut) o =
    (made-Owned object answer s o fresh shut).0
Step-Owned {s} (destroys_socket object) o =
    rw (destroy_socket-eq object s) (close_fd-Owned object s o)
Step-Owned {s} (makes_acceptor object socket binds listens fresh) o =
    make_acceptor-Owned object socket binds listens s o fresh
Step-Owned {s} (accepts connection answer fresh shut) o =
    (made-Owned connection answer s o fresh shut).1
Step-Owned {s} (closes_acceptor object) o =
    rw (acceptor_close_fd-eq object s) (close_fd-Owned object s o)

-- In every history of sockets that are made and destroyed, acceptors that take them over, whether
-- bind(2), listen(2) and accept4(2) succeed or fail, and connections that are made, accepted, moved,
-- assigned and closed: each descriptor that an object holds is open and has that one owner, and
-- close(2) is never called on a descriptor that is not open.
pub Reached-Owned :
    {s : Descriptors} → Reach (record { fds = []; opened = []; faults = 0 }) s → Owned s
Reached-Owned here = Ownership.Reach-Owned Ownership.Reach.here
Reached-Owned (next r st) = Step-Owned st (Reached-Owned r)

-- A connection `a` was made from the socket `b`, which keeps its descriptor; `s` is the state before.
abbrev pub Shares : ℕ → ℕ → ℕ → Descriptors → Result ⊤ → Descriptors → Type 0
Shares a b fd s r s' =
    (r ≡ ok tt)
    × (lookup a s'.fds ≡ some fd)
    × (lookup b s'.fds ≡ some fd)
    × ((destroy_socket b (close_fd a s')).faults ≡ s.faults + 1)

-- Two objects with the same descriptor.
module _ (a b fd : ℕ) (s : Descriptors) (held : lookup b s.fds ≡ some fd)
    (is_open : has fd s.opened ≡ true) (apart : a ≢ b) where
  abbrev shared : Descriptors
  shared = record s { fds = insert a fd s.fds }

  abbrev once : Descriptors
  once = record s { fds = erase a (insert a fd s.fds); opened = drop_id fd s.opened }

  share_fd-eq : share_fd a b s ≡ shared
  share_fd-eq = rw (held, share_fd) refl

  destroy_first : destroy_socket a shared ≡ once
  unfolding destroy_socket
  destroy_first =
      let mine : lookup a (insert a fd s.fds) ≡ some fd =
        ground (arith, lookup-insert a a fd s.fds) in
      rw (mine, destroy_socket) (rw is_open refl)

  destroy_second : (destroy_socket b once).faults ≡ s.faults + 1
  unfolding destroy_socket
  destroy_second =
      let still : lookup b (erase a (insert a fd s.fds)) ≡ some fd =
        ground (arith, lookup-erase b a (insert a fd s.fds), lookup-insert b a fd s.fds) in
      let shut : has fd (drop_id fd s.opened) ≡ false =
        ground (arith, has-drop_id fd fd s.opened) in
      rw (still, destroy_socket) (rw shut refl)

  -- `BuildServer` on a socket that holds an open descriptor: whatever bind(2) and listen(2) answer,
  -- the descriptor is closed when the constructor has ended, and the socket, which still holds it,
  -- closes it once more. Where both succeed, the server's descriptor is that closed one.
  pub server_from_socket_shut :
      (binds listens : Bool)
      → let (r, s') = server_from_socket a b binds listens s in
        (has fd s'.opened ≡ false)
        × ((destroy_socket b s').faults ≡ s.faults + 1)
        × ((binds && listens) ≡ true → r ≡ ok (some fd))
  unfolding server_from_socket
  server_from_socket_shut binds listens =
      rw (share_fd-eq, destroy_first)
        (
          ground (arith, has-drop_id fd fd s.opened),
          destroy_second,
          λ h. rw (lookup-insert a a fd s.fds) (ground arith),
        )

  shared-Shares : Shares a b fd s (ok tt) (share_fd a b s)
  shared-Shares = rw share_fd-eq (
    refl,
    ground (arith, lookup-insert a a fd s.fds),
    ground (arith, lookup-insert b a fd s.fds),
    ap (λ t. (destroy_socket b t).faults) (sym (destroy_socket-eq a shared) ∙ destroy_first)
        ∙ destroy_second,
  )

  -- `Connector::ConnectingNow` from a socket that holds an open descriptor. It throws exactly where
  -- the text does not parse, where connect(2) fails, a connect in progress included, and where errno
  -- is a stale EINPROGRESS; nothing changes then. Otherwise the connection and the socket hold the
  -- same descriptor, and destroying the connection and then the socket closes it twice.
  pub connecting_now-Shares :
      (pton : Pton) (before : ErrorCode) (outcome : ConnectOutcome)
      → let (r, s') = connecting_now a b pton before outcome s in
        ((r ≡ thrown)
          × (s' ≡ s)
          × ((is_unconverted pton ≡ true) ⊎ ((is_failed outcome ≡ true) ⊎ (before ≡ einprogress))))
        ⊎ ((is_unconverted pton ≡ false)
            × (is_failed outcome ≡ false)
            × (before ≢ einprogress)
            × Shares a b fd s r s')
  unfolding connecting_now
  connecting_now-Shares Pton.malformed before outcome = inl (refl, refl, inl refl)
  connecting_now-Shares (Pton.unsupported errno) before outcome = inl (refl, refl, inl refl)
  connecting_now-Shares (Pton.converted bytes) before (ConnectOutcome.connect_failed errno) =
      inl (refl, refl, inr (inl refl))
  connecting_now-Shares (Pton.converted bytes) before ConnectOutcome.connects =
      elim (Bool-cases (before == einprogress)) [
        | inl h ↦ rw h (inl (refl, refl, inr (inr (ground arith))))
        | inr h ↦ rw h (inr (refl, refl, λ e. ground arith, shared-Shares))
      ]
