-- ===== src/Descriptors.antt =====
-- include/async_frame/connection.h (`Connection`), include/async_frame/fd_object.h (`fdo`) and the
-- move constructor of `Epoll_Manager` (include/async_frame/epoll_manager.h): who owns a descriptor.
pub mod Ownership
pub mod Swapping
use async_io_framework.Prelude.{
  ℕ, ◌+◌, ◌≡◌, false, List, Option, none, some, Map, lookup, insert, erase, has, put, drop_id, ◌==◌,
  if◌then◌else◌,
}

-- The member `fd_` of each object, which is missing for -1; the descriptors that are open; and how
-- often close(2) was called on one that was not open.
pub record Descriptors : Type 0 where
  pub fds : Map ℕ
  pub opened : List ℕ
  pub faults : ℕ

-- close(2)
abbrev pub close : ℕ → Descriptors → Descriptors
close fd s =
    if has fd s.opened
    then record s { opened = drop_id fd s.opened }
    else record s { faults = s.faults + 1 }

-- An object is made around a new descriptor: `Connection(int)`, `fdo(int)`.
unfoldable pub make_object : ℕ → ℕ → Descriptors → Descriptors
make_object object fd s = record s { fds = insert object fd s.fds; opened = put fd s.opened }

-- `Connection::close_fd`, which is also what the destructor does.
unfoldable pub close_fd : ℕ → Descriptors → Descriptors
close_fd object s = elim (lookup object s.fds) [
  | none ↦ s
  | some fd ↦ let s' = close fd s in record s' { fds = erase object s'.fds }
]

-- `Connection(Connection &&)`, and `fdo(fdo &&)`.
unfoldable pub move_construct : ℕ → ℕ → Descriptors → Descriptors
move_construct object other s = elim (lookup other s.fds) [
  | none ↦ record s { fds = erase object s.fds }
  | some fd ↦ record s { fds = insert object fd (erase other s.fds) }
]

-- `Connection::operator=(Connection &&)`
unfoldable pub move_assign : ℕ → ℕ → Descriptors → Descriptors
move_assign object other s =
    if object == other then s else move_construct object other (close_fd object s)

-- `fdo::close_fd`, which keeps the member.
abbrev pub fdo_close_fd : ℕ → Descriptors → Descriptors
fdo_close_fd object s = elim (lookup object s.fds) [ none ↦ s | some fd ↦ close fd s ]

-- `~fdo`: the object is gone afterwards.
unfoldable pub fdo_destroy : ℕ → Descriptors → Descriptors
fdo_destroy object s = let s' = fdo_close_fd object s in record s' { fds = erase object s'.fds }

-- The move constructor of `Epoll_Manager`.
unfoldable pub epoll_move_construct : ℕ → ℕ → Descriptors → Descriptors
epoll_move_construct object other s = elim (lookup other s.fds) [
  | none ↦ record s { fds = erase object s.fds }
  | some fd ↦ fdo_close_fd other (record s { fds = insert object fd s.fds })
]

-- A member `fd_` is set; `none` is -1.
abbrev pub set_fd : ℕ → Option ℕ → Descriptors → Descriptors
set_fd object none s = record s { fds = erase object s.fds }
set_fd object (some fd) s = record s { fds = insert object fd s.fds }

-- `fdo(fdo &&)`
unfoldable pub fdo_move_construct : ℕ → ℕ → Descriptors → Descriptors
fdo_move_construct object other s = set_fd other none (set_fd object (lookup other s.fds) s)

-- `fdo::operator=(fdo &&)`, which swaps the members.
unfoldable pub fdo_move_assign : ℕ → ℕ → Descriptors → Descriptors
fdo_move_assign object other s =
    set_fd object (lookup other s.fds) (set_fd other (lookup object s.fds) s)

-- `swap(Epoll_Manager &, Epoll_Manager &)`: `std::swap` moves through an object of its own.
unfoldable pub swap_managers : ℕ → ℕ → ℕ → Descriptors → Descriptors
swap_managers temporary lhs rhs s =
    fdo_destroy temporary
      (fdo_move_assign rhs temporary (fdo_move_assign lhs rhs (fdo_move_construct temporary lhs s)))

-- `Epoll_Manager::operator=(Epoll_Manager &&)`, whose missing `return` is left aside.
unfoldable pub epoll_move_assign : ℕ → ℕ → ℕ → Descriptors → Descriptors
epoll_move_assign temporary object other s =
    if object == other then s else swap_managers temporary object other s

-- `swap(Connection &, Connection &)`
unfoldable pub swap_connections : ℕ → ℕ → Descriptors → Descriptors
swap_connections lhs rhs s = set_fd lhs (lookup rhs s.fds) (set_fd rhs (lookup lhs s.fds) s)

-- `Connection::get_viewer`: a `Connection_Viewer` has the descriptor and owns nothing.
abbrev pub get_viewer : ℕ → Descriptors → Option ℕ
get_viewer object s = lookup object s.fds
