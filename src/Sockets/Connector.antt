-- ===== src/Sockets/Connector.antt =====
-- include/async_frame/connector.hpp: `MakeSocket`, `BuildServer`, `BuildClient`, `Acceptor` and
-- `Connector`, as owners of descriptors. What the kernel and inet_pton(3) answer is an argument.
use async_io_framework.Prelude.{
  ℕ, Bool, true, false, ◌||◌, Option, none, some, lookup, insert, erase, Action, Result, ok, thrown,
  ⊤, ◌==◌, if◌then◌else◌,
}
use async_io_framework.Descriptors.{Descriptors, close, make_object, move_construct}
use async_io_framework.Transfer.{ErrorCode, einprogress}
use async_io_framework.Sockets.{Pton}
use async_io_framework.Awaiters.Single.{ConnectOutcome}

-- `MakeSocket<TCP_PROTOCAL>()`; `none` is the -1 of socket(2).
unfoldable pub make_socket : ℕ → Option ℕ → Action Descriptors ⊤
make_socket object none s = (thrown, s)
make_socket object (some fd) s = (ok tt, make_object object fd s)

-- `~MakeSocket`: the object is gone afterwards.
unfoldable pub destroy_socket : ℕ → Descriptors → Descriptors
destroy_socket object s = elim (lookup object s.fds) [
  | none ↦ s
  | some fd ↦ let s' = close fd s in record s' { fds = erase object s'.fds }
]

-- `object` takes the member of `other`, which keeps it.
abbrev pub share_fd : ℕ → ℕ → Descriptors → Descriptors
share_fd object other s = elim (lookup other s.fds) [
  | none ↦ record s { fds = erase object s.fds }
  | some fd ↦ record s { fds = insert object fd s.fds }
]

-- The copy constructor of `MakeSocket`, which the compiler gives it.
abbrev pub copy_socket : ℕ → ℕ → Descriptors → Descriptors
copy_socket = share_fd

-- The checks of bind(2) and listen(2); `fd` is the member of the object that is made.
abbrev pub bound_and_listening : Bool → Bool → Option ℕ → Result (Option ℕ)
bound_and_listening binds listens fd = if binds then (if listens then ok fd else thrown) else thrown

-- `BuildServer(MakeSocket<PROTOCAL> socket_, int port)`: `parameter` is the copy that the caller
-- makes of its socket, and destroys when the constructor ends. A `BuildServer` closes nothing.
unfoldable pub server_from_socket : ℕ → ℕ → Bool → Bool → Action Descriptors (Option ℕ)
server_from_socket parameter socket binds listens s =
    let s' = copy_socket parameter socket s in
    (bound_and_listening binds listens (lookup parameter s'.fds), destroy_socket parameter s')

-- `inet_pton(…) <= 0`
abbrev pub is_unconverted : Pton → Bool
is_unconverted (Pton.converted bytes) = false
is_unconverted Pton.malformed = true
is_unconverted (Pton.unsupported errno) = true

abbrev pub is_failed : ConnectOutcome → Bool
is_failed ConnectOutcome.connects = false
is_failed (ConnectOutcome.connect_failed errno) = true

-- `BuildClient(Connection &, MakeSocket<TCP_PROTOCAL> server_socket, …)`
unfoldable pub client_from_socket : ℕ → ℕ → Pton → ConnectOutcome → Action Descriptors (Option ℕ)
client_from_socket parameter socket pton outcome s =
    let s' = copy_socket parameter socket s in
    let fd = lookup parameter s'.fds in
    (
      if is_unconverted pton then thrown else if is_failed outcome then thrown else ok fd,
      destroy_socket parameter s',
    )

-- `Acceptor(MakeSocket<TCP_PROTOCAL> &sock_, int port)`, which takes the descriptor over.
unfoldable pub make_acceptor : ℕ → ℕ → Bool → Bool → Action Descriptors ⊤
make_acceptor object socket binds listens s =
    if binds
    then (if listens then (ok tt, move_construct object socket s) else (thrown, s))
    else (thrown, s)

-- `Acceptor::accept_now`: a connection is made around what accept4(2) returned.
unfoldable pub accept_now : ℕ → Option ℕ → Action Descriptors ⊤
accept_now connection none s = (thrown, s)
accept_now connection (some fd) s = (ok tt, make_object connection fd s)

-- `Acceptor::close_fd`, which is also what the destructor does.
unfoldable pub acceptor_close_fd : ℕ → Descriptors → Descriptors
acceptor_close_fd object s = elim (lookup object s.fds) [
  | none ↦ s
  | some fd ↦ let s' = close fd s in record s' { fds = erase object s'.fds }
]

-- `errno` after connect(2), which a success leaves as it was.
abbrev pub errno_after : ErrorCode → ConnectOutcome → ErrorCode
errno_after before ConnectOutcome.connects = before
errno_after before (ConnectOutcome.connect_failed errno) = errno

-- `Connector::ConnectingNow`: a connection is made around the socket's descriptor.
unfoldable pub connecting_now : ℕ → ℕ → Pton → ErrorCode → ConnectOutcome → Action Descriptors ⊤
connecting_now connection socket pton before outcome s =
    if is_unconverted pton
    then (thrown, s)
    else if is_failed outcome || errno_after before outcome == einprogress
    then (thrown, s)
    else (ok tt, share_fd connection socket s)
