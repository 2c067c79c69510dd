-- ===== src/Tests/Sockets.antt =====
-- Examples for include/async_frame/connecting.h and include/async_frame/connector.hpp.
use async_io_framework.Prelude.{
  ℕ, ◌%◌, ◌<◌, ◌≡◌, ◌≢◌, ◌⊎◌, ◌↔◌, refl, Option, none, some, List, [], ◌∷◌, true, false, has,
  lookup, insert, ok, thrown, arith, erase, put,
}
use async_io_framework.Descriptors.{Descriptors, make_object, move_construct}
use async_io_framework.Descriptors.Ownership.{Owned}
use async_io_framework.Transfer.{einprogress}
use async_io_framework.Awaiters.Single.{ConnectOutcome}
use async_io_framework.Sockets.{
  Family, Protocol, Pton, SockAddr, Net, Answers, build_server, build_client, parse_ipv6,
}
use async_io_framework.Sockets.Built.{
  ServerOutcome, ClientOutcome, build_server-Built, build_client-Built, parse-port, port_number,
}
use async_io_framework.Sockets.Connector.{
  make_socket, make_acceptor, accept_now, connecting_now, destroy_socket, server_from_socket,
  is_unconverted, is_failed,
}
use async_io_framework.Sockets.Sharing.{
  Step, Reach, Reached-Owned, connecting_now-Shares, server_from_socket_shut, Shares,
}

-- The kernel opens descriptor 5, and everything succeeds but listen(2).
abbrev answers : Answers
answers = record {
  socket_fd = some 5;
  pton = λ ip. Pton.converted (127 ∷ 0 ∷ 0 ∷ 1 ∷ []);
  binds = true;
  listens = false;
  connects = true;
}

abbrev localhost : Option (List ℕ)
localhost = some (b'1' ∷ b'2' ∷ b'7' ∷ [])

abbrev no_net : Net
no_net = []

build_server-Built_example :
    let (r, net) = build_server Family.ipv4 Protocol.tcp answers 8080 localhost no_net in
    ServerOutcome Family.ipv4 Protocol.tcp answers 8080 localhost no_net (some 5) r net
build_server-Built_example =
    build_server-Built Family.ipv4 Protocol.tcp answers 8080 localhost no_net

client_built :
    let (r, net) = build_client Family.ipv4 Protocol.tcp answers 8080 localhost no_net in
    ClientOutcome Family.ipv4 Protocol.tcp answers 8080 localhost no_net (some 5) r net
client_built = build_client-Built Family.ipv4 Protocol.tcp answers 8080 localhost no_net

-- A port of 17 bits.
abbrev high_port : SockAddr
high_port = record { family = Family.ipv6; port = 0 ∷ 80 ∷ []; ip = [] }

parse-port_example :
    (high_port.family ≡ Family.ipv6)
    × (port_number high_port.port ≡ 65616 % 65536)
    × (port_number high_port.port < 65536)
    × ((port_number high_port.port ≡ 65616) ↔ (65616 < 65536))
unfolding parse_ipv6
parse-port_example = parse-port Family.ipv6 answers.pton 65616 none high_port refl

abbrev nothing : Descriptors
nothing = record { fds = []; opened = []; faults = 0 }

-- A socket is made, an acceptor takes it over, and a connection is accepted.
abbrev serving : Descriptors
serving =
    (accept_now 3 (some 8) (make_acceptor 2 1 true true (make_socket 1 (some 7) nothing).1).1).1

serving-Reach : Reach nothing serving
unfolding lookup has insert make_socket make_acceptor make_object move_construct erase put
serving-Reach =
    Reach.next
      (Reach.next (Reach.next Reach.here (Step.makes_socket 1 (some 7) refl (λ fd e. refl)))
        (Step.makes_acceptor 2 1 true true refl))
      (Step.accepts 3 (some 8) refl (λ fd e. ground arith))

Reached-Owned_example : Owned serving
Reached-Owned_example = Reached-Owned serving-Reach

abbrev one_socket : Descriptors
one_socket = record { fds = (1, 7) ∷ []; opened = 7 ∷ []; faults = 0 }

server_socket_shut :
    let (r, s) = server_from_socket 2 1 true true one_socket in
    (has 7 s.opened ≡ false) × ((destroy_socket 1 s).faults ≡ 1) × (true ≡ true → r ≡ ok (some 7))
unfolding has lookup
server_socket_shut =
    server_from_socket_shut 2 1 7 one_socket refl refl (λ e. ground arith) true true

connecting_now-Shares_example :
    let pton = Pton.converted (127 ∷ 0 ∷ 0 ∷ 1 ∷ []) in
    let (r, s) = connecting_now 2 1 pton 0 ConnectOutcome.connects one_socket in
    ((r ≡ thrown)
      × (s ≡ one_socket)
      × ((is_unconverted pton ≡ true)
          ⊎ ((is_failed ConnectOutcome.connects ≡ true) ⊎ (◌≡◌ {A = ℕ} 0 einprogress))))
    ⊎ ((is_unconverted pton ≡ false)
        × (is_failed ConnectOutcome.connects ≡ false)
        × (◌≢◌ {A = ℕ} 0 einprogress)
        × Shares 2 1 7 one_socket r s)
unfolding has lookup
connecting_now-Shares_example =
    connecting_now-Shares 2 1 7 one_socket refl refl (λ e. ground arith)
      (Pton.converted (127 ∷ 0 ∷ 0 ∷ 1 ∷ [])) 0 ConnectOutcome.connects
