-- ===== src/Tests/Owning.antt =====
-- Examples for include/async_frame/connection.h and include/async_frame/epoll_manager.h.
use async_io_framework.Prelude.{
  some, ok, false, insert, has, lookup, ◌≡◌, refl, has, lookup, [], ◌∷◌, arith,
}
use async_io_framework.Descriptors.{
  Descriptors, make_object, close_fd, move_construct, move_assign, fdo_destroy, epoll_move_assign,
  fdo_move_assign, swap_connections, epoll_move_construct,
}
use async_io_framework.Descriptors.Swapping.{Swapped, moves_that_swap}
use async_io_framework.Context.{IoContext, make_io_context, close_all_epfd, close_all_epfd_twice}
use async_io_framework.Descriptors.Ownership.{
  Owned, Step, Reach, Reach-Owned, epoll_move_construct_faults,
}

abbrev nothing : Descriptors
nothing = record { fds = []; opened = []; faults = 0 }

-- Connection 1 is moved into 2, which is moved into 3 and closed.
abbrev moved : Descriptors
moved = close_fd 3 (move_assign 3 2 (move_construct 2 1 (make_object 1 7 nothing)))

moved-Reach : Reach nothing moved
unfolding make_object has lookup insert
moved-Reach =
    Reach.next
      (Reach.next
        (Reach.next (Reach.next Reach.here (Step.makes 1 7 refl refl)) (Step.moves 2 1 refl))
        (Step.assigns 3 2))
      (Step.closes 3)

moved-Owned : Owned moved
moved-Owned = Reach-Owned moved-Reach

abbrev one_epoll : Descriptors
one_epoll = record { fds = (1, 7) ∷ []; opened = 7 ∷ []; faults = 0 }

epoll_move_construct_faults_example :
    (fdo_destroy 2 (fdo_destroy 1 (epoll_move_construct 2 1 one_epoll))).faults ≡ 2
unfolding has lookup
epoll_move_construct_faults_example =
    epoll_move_construct_faults 2 1 7 one_epoll refl refl (λ h. ground arith)

managers_swap :
    let s = record one_epoll { fds = (1, 7) ∷ (2, 9) ∷ []; opened = 7 ∷ 9 ∷ [] } in
    Swapped 1 2 s (epoll_move_assign 3 1 2 s)
    × Swapped 1 2 s (fdo_move_assign 1 2 s)
    × Swapped 1 2 s (swap_connections 1 2 s)
unfolding lookup
managers_swap =
    moves_that_swap 3 1 2 (record one_epoll { fds = (1, 7) ∷ (2, 9) ∷ []; opened = 7 ∷ 9 ∷ [] })
      refl (λ e. ground arith) (λ e. ground arith)

context_closed_twice :
    let (r, s1) = make_io_context (some 7) (some 8) nothing in
    let c : IoContext = record { accept_epfd = some 8; conn_epfd = some 7 } in
    let s2 = close_all_epfd c s1 in
    (r ≡ ok c)
    × (has 7 s2.opened ≡ false)
    × (has 8 s2.opened ≡ false)
    × (s2.faults ≡ 0)
    × ((close_all_epfd c s2).faults ≡ 2)
unfolding has
context_closed_twice = close_all_epfd_twice 7 8 nothing refl refl (λ e. ground arith)
