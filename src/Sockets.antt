-- ===== src/Sockets.antt =====
-- include/async_frame/connecting.h: addresses, and the sockets that the builders make. What the
-- kernel and inet_pton(3) answer is an argument of each function.
pub mod Built
pub mod Connector
pub mod Sharing
pub mod Intermediate
use async_io_framework.Prelude.{
  ℕ, ◌/◌, ◌%◌, Bool, true, false, not, Option, none, some, List, [], ◌∷◌, Map, lookup, insert,
  Action, Result, ok, thrown, ⊤, pure, throw, ◌>>=◌, ◌>>◌, if◌then◌else◌,
}
use async_io_framework.Transfer.{ErrorCode}

-- `IPV4` and `IPV6`, with AF_INET and AF_INET6 as their values.
pub data Family : Type 0 where
  ipv4 ipv6 : Family

-- `TCP` and `UDP`. Both values carry SOCK_NONBLOCK.
pub data Protocol : Type 0 where
  tcp udp : Protocol

-- What inet_pton(3) did: it returned 1 and wrote an address, 0, or -1 with an errno.
pub data Pton : Type 0 where
  converted : List ℕ → Pton
  malformed : Pton
  unsupported : ErrorCode → Pton

-- `std::invalid_argument` and `std::runtime_error`
pub data Exception : Type 0 where
  invalid_argument runtime_error : Exception

pub data Parsed (A : Type 0) : Type 0 where
  parsed : A → Parsed A
  refused : Exception → Parsed A

-- `sockaddr_in` and `sockaddr_in6`: the port and the address as the bytes that stand in memory. No
-- bytes of an address are INADDR_ANY or IN6ADDR_ANY_INIT.
pub record SockAddr : Type 0 where
  pub family : Family
  pub port : List ℕ
  pub ip : List ℕ

-- `htons(port)` in memory: the int is cut to 16 bits, and the high byte comes first.
abbrev pub htons : ℕ → List ℕ
htons port = (port / 256 % 256) ∷ (port % 256) ∷ []

-- `ip_to_in_addr_t`
unfoldable pub ip_to_in_addr_t : Pton → Parsed (List ℕ)
ip_to_in_addr_t (Pton.converted bytes) = Parsed.parsed bytes
ip_to_in_addr_t Pton.malformed = Parsed.refused Exception.invalid_argument
ip_to_in_addr_t (Pton.unsupported errno) = Parsed.refused Exception.runtime_error

abbrev pub with_ip : Family → ℕ → Parsed (List ℕ) → Parsed SockAddr
with_ip family port (Parsed.parsed bytes) =
    Parsed.parsed (record { family = family; port = htons port; ip = bytes })
with_ip family port (Parsed.refused e) = Parsed.refused e

-- The text of an address. `none` is a null pointer; only its being empty matters here.
abbrev pub is_blank : Option (List ℕ) → Bool
is_blank none = true
is_blank (some []) = true
is_blank (some (c ∷ cs)) = false

-- `FamilyTraits<IPV4>::parse`
unfoldable pub parse_ipv4 : (Option (List ℕ) → Pton) → ℕ → Option (List ℕ) → Parsed SockAddr
unfolding ip_to_in_addr_t
parse_ipv4 pton port ip =
    if is_blank ip
    then Parsed.parsed (record { family = Family.ipv4; port = htons port; ip = [] })
    else with_ip Family.ipv4 port (ip_to_in_addr_t (pton ip))

-- `FamilyTraits<IPV6>::parse`
unfoldable pub parse_ipv6 : (Option (List ℕ) → Pton) → ℕ → Option (List ℕ) → Parsed SockAddr
unfolding ip_to_in_addr_t
parse_ipv6 pton port ip =
    if is_blank ip
    then Parsed.parsed (record { family = Family.ipv6; port = htons port; ip = [] })
    else with_ip Family.ipv6 port (ip_to_in_addr_t (pton ip))

abbrev pub parse : Family → (Option (List ℕ) → Pton) → ℕ → Option (List ℕ) → Parsed SockAddr
parse Family.ipv4 = parse_ipv4
parse Family.ipv6 = parse_ipv6

-- An open socket, as socket(2), fcntl(2), setsockopt(2), bind(2), listen(2) and connect(2) leave it.
pub record Socket : Type 0 where
  pub family : Family
  pub protocol : Protocol
  pub nonblocking : Bool
  pub reuse_port : Bool
  pub reuse_addr : Bool
  pub bound : Option SockAddr
  pub backlog : Option ℕ
  pub peer : Option SockAddr

-- The open sockets of the process.
abbrev pub Net : Type 0
Net = Map Socket

-- What the kernel and inet_pton(3) answer. `none` of socket(2), and `false`, are -1.
pub record Answers : Type 0 where
  pub socket_fd : Option ℕ
  pub pton : Option (List ℕ) → Pton
  pub binds : Bool
  pub listens : Bool
  pub connects : Bool

abbrev pub fresh : Family → Protocol → Socket
fresh family protocol = record {
  family = family;
  protocol = protocol;
  nonblocking = true;
  reuse_port = false;
  reuse_addr = false;
  bound = none;
  backlog = none;
  peer = none;
}

-- socket(2) with SOCK_NONBLOCK
abbrev pub socket : Family → Protocol → Option ℕ → Action Net (Option ℕ)
socket family protocol none net = (ok none, net)
socket family protocol (some fd) net = (ok (some fd), insert fd (fresh family protocol) net)

-- A call that changes one socket; on a descriptor that is not open, or -1, it changes nothing.
abbrev pub change : (Socket → Socket) → Option ℕ → Net → Net
change f none net = net
change f (some fd) net = elim (lookup fd net) [ none ↦ net | some s ↦ insert fd (f s) net ]

abbrev pub or_raise : {A : Type 0} → Parsed A → Action Net A
or_raise (Parsed.parsed a) = pure a
or_raise (Parsed.refused e) = throw

-- `if (fd < 0) throw …;`
abbrev pub need_fd : Option ℕ → Action Net ℕ
need_fd none = throw
need_fd (some fd) = pure fd

-- `if (call == -1) throw …;` for a call that changes one socket.
abbrev pub attempt : Bool → (Socket → Socket) → ℕ → Action Net ⊤
attempt true f fd net = (ok tt, change f (some fd) net)
attempt false f fd net = (thrown, net)

-- `create_sock`
unfoldable pub create_sock : Family → Protocol → Answers → Option (List ℕ) → ℕ → Action Net ℕ
unfolding parse_ipv4 parse_ipv6
create_sock family protocol a ip port = do
  opened ← socket family protocol a.socket_fd
  fd ← need_fd opened
  _ ← or_raise (parse family a.pton port ip)
  pure fd

abbrev max_listen_socket : ℕ
max_listen_socket = 1024

abbrev pub binding : SockAddr → Socket → Socket
binding addr s = record s { bound = some addr }

abbrev pub listening : Socket → Socket
listening s = record s { backlog = some max_listen_socket }

-- `ConnectionBuilder<FAMILY, PROTOCAL, SERVER_ROLE>::build`
unfoldable pub build_server : Family → Protocol → Answers → ℕ → Option (List ℕ) → Action Net ℕ
unfolding create_sock
build_server family protocol a port ip = do
  fd ← create_sock family protocol a ip port
  addr ← or_raise (parse family a.pton port ip)
  attempt a.binds (binding addr) fd
  attempt a.listens listening fd
  pure fd

-- `ConnectionBuilder<FAMILY, PROTOCAL, CLENT_ROLE>::build`, whose `Connection_Viewer` is its
-- descriptor, and `BuilderClient`, which returns its result.
unfoldable pub build_client :
    Family → Protocol → Answers → ℕ → Option (List ℕ) → Action Net (ℕ × SockAddr)
unfolding create_sock
build_client family protocol a port ip = do
  fd ← create_sock family protocol a ip port
  addr ← or_raise (parse family a.pton port ip)
  pure (fd, addr)

-- `ConnectionBuilder::create_sock`, whose connect(2) is not checked.
unfoldable pub create_connected_sock :
    Family → Protocol → Answers → Option (List ℕ) → ℕ → Action Net ℕ
unfolding parse_ipv4 parse_ipv6
create_connected_sock family protocol a ip port = do
  opened ← socket family protocol a.socket_fd
  λ net. (ok tt, change (λ s. record s { nonblocking = true }) opened net)
  addr ← or_raise (parse family a.pton port ip)
  fd ← need_fd opened
  λ net. (ok tt, if a.connects then change (λ s. record s { peer = some addr }) opened net else net)
  pure fd

-- `set_reuse_port` and `set_reuse_addr`, which do not check setsockopt(2).
pub set_reuse_port : ℕ → Action Net ℕ
set_reuse_port fd net = (ok 1, change (λ s. record s { reuse_port = true }) (some fd) net)

pub set_reuse_addr : ℕ → Action Net ℕ
set_reuse_addr fd net = (ok 1, change (λ s. record s { reuse_addr = true }) (some fd) net)
