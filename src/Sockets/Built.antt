-- ===== src/Sockets/Built.antt =====
-- include/async_frame/connecting.h: what the builders leave on every branch.
use async_io_framework.Prelude.{
  ℕ, ◌+◌, ◌*◌, ◌%◌, ◌<◌, ◌≡◌, ◌≢◌, ◌↔◌, ◌⊎◌, inl, inr, refl, ◌∙◌, true, false, ◌&&◌, Option, none,
  some, List, [], ◌∷◌, lookup, insert, lookup-insert, Result, ok, thrown, arith, ◌==◌,
  if◌then◌else◌, Option-cases, Bool-cases,
}
use async_io_framework.Sockets.{
  Family, Protocol, Pton, Parsed, Exception, SockAddr, Socket, Net, Answers, parse, parse_ipv4,
  parse_ipv6, ip_to_in_addr_t, is_blank, with_ip, htons, fresh, change, binding, listening,
  build_server, build_client,
}

abbrev pub changed : (Socket → Socket) → Option Socket → Option Socket
changed f none = none
changed f (some s) = some (f s)

lookup-change :
    (f : Socket → Socket) (fd j : ℕ) (net : Net)
    → lookup j (change f (some fd) net)
      ≡ (if fd == j then changed f (lookup fd net) else lookup j net)
lookup-change f fd j net = elim (Option-cases (lookup fd net)) [
  | inl e ↦ rw (e, change) (ground (arith, e))
  | inr (s, e) ↦ rw (e, change) (lookup-insert j fd (f s) net)
]

-- A socket that listens at an address.
abbrev pub server_socket : Family → Protocol → SockAddr → Socket
server_socket family protocol addr = record (fresh family protocol) {
  bound = some addr;
  backlog = some 1024;
}

-- How `build_server` ends, by what socket(2) returned.
abbrev pub ServerOutcome :
    Family → Protocol → Answers → ℕ → Option (List ℕ) → Net → Option ℕ → Result ℕ → Net → Type 0
ServerOutcome family protocol a port ip net none r net' = (r ≡ thrown) × (net' ≡ net)
ServerOutcome family protocol a port ip net (some fd) r net' =
    ((j : ℕ) → fd ≢ j → lookup j net' ≡ lookup j net)
    × (((addr : SockAddr) × (parse family a.pton port ip ≡ Parsed.parsed addr)
          × ((a.binds && a.listens) ≡ true)
          × (r ≡ ok fd)
          × (lookup fd net' ≡ some (server_socket family protocol addr)))
        ⊎ ((r ≡ thrown)
            × (((a.binds && a.listens) ≡ false)
                ⊎ ((e : Exception) × (parse family a.pton port ip ≡ Parsed.refused e)))
            × (lookup fd net' ≢ none)))

Parsed-cases :
    {A : Type 0} (p : Parsed A)
    → ((a : A) × (p ≡ Parsed.parsed a)) ⊎ ((e : Exception) × (p ≡ Parsed.refused e))
Parsed-cases (Parsed.parsed a) = inl (a, refl)
Parsed-cases (Parsed.refused e) = inr (e, refl)

-- The rest of `build_server` after `create_sock` on a new descriptor.
module _ (family : Family) (protocol : Protocol) (fd : ℕ) (net : Net) (addr : SockAddr) where
  abbrev opened : Net
  opened = insert fd (fresh family protocol) net

  opened-lookup :
      (j : ℕ) → lookup j opened ≡ (if fd == j then some (fresh family protocol) else lookup j net)
  opened-lookup j = lookup-insert j fd (fresh family protocol) net

  bound-lookup :
      (j : ℕ)
      → lookup j (change (binding addr) (some fd) opened)
        ≡ (if fd == j then some (binding addr (fresh family protocol)) else lookup j net)
  bound-lookup j =
      lookup-change (binding addr) fd j opened
      ∙ rw (opened-lookup fd) (ground (arith, opened-lookup j))

  listening-lookup :
      (j : ℕ)
      → lookup j (change listening (some fd) (change (binding addr) (some fd) opened))
        ≡ (if fd == j then some (server_socket family protocol addr) else lookup j net)
  listening-lookup j =
      lookup-change listening fd j (change (binding addr) (some fd) opened)
      ∙ rw (bound-lookup fd) (ground (arith, bound-lookup j))

-- On every branch of `BuilderServer`: a failed socket(2) leaves all as it was. Else the other
-- descriptors keep their sockets, and either the port and the text parse, bind(2) and listen(2)
-- succeed, and the result is the new descriptor, a nonblocking socket that is bound to the parsed
-- address and listens with a backlog of 1024; or one of them fails, an exception leaves, and the new
-- descriptor stays open with nobody to close it.
pub build_server-Built :
    (family : Family) (protocol : Protocol) (a : Answers) (port : ℕ) (ip : Option (List ℕ))
    (net : Net)
    → let (r, net') = build_server family protocol a port ip net in
      ServerOutcome family protocol a port ip net a.socket_fd r net'
unfolding build_server
build_server-Built family protocol a port ip net = elim (Option-cases a.socket_fd) [
  | inl e ↦ rw e (refl, refl)
  | inr (fd, e) ↦
      let open_lookup = λ (j : ℕ). lookup-insert j fd (fresh family protocol) net in
      elim (Parsed-cases (parse family a.pton port ip)) [
        | inr (x, p) ↦
            rw (e, p)
              (
                λ j n. ground (arith, open_lookup j),
                inr (refl, inr (x, refl), λ h. ground (arith, open_lookup fd)),
              )
        | inl (addr, p) ↦ elim (Bool-cases a.binds) [
          | inr b ↦
              rw (e, p, b)
                (
                  λ j n. ground (arith, open_lookup j),
                  inr (refl, inl refl, λ h. ground (arith, open_lookup fd)),
                )
          | inl b ↦ elim (Bool-cases a.listens) [
            | inr l ↦
                rw (e, p, b, l)
                  (
                    λ j n. ground (arith, bound-lookup family protocol fd net addr j),
                    inr (
                      refl,
                      inl refl,
                      λ h. ground (arith, bound-lookup family protocol fd net addr fd),
                    ),
                  )
            | inl l ↦
                rw (e, p, b, l)
                  (
                    λ j n. ground (arith, listening-lookup family protocol fd net addr j),
                    inl (
                      addr,
                      refl,
                      refl,
                      refl,
                      ground (arith, listening-lookup family protocol fd net addr fd),
                    ),
                  )
          ]
        ]
      ]
]

-- How `build_client` ends, by what socket(2) returned.
abbrev pub ClientOutcome :
    Family
    → Protocol
    → Answers
    → ℕ
    → Option (List ℕ)
    → Net
    → Option ℕ
    → Result (ℕ × SockAddr)
    → Net
    → Type 0
ClientOutcome family protocol a port ip net none r net' = (r ≡ thrown) × (net' ≡ net)
ClientOutcome family protocol a port ip net (some fd) r net' =
    (net' ≡ insert fd (fresh family protocol) net)
    × (((addr : SockAddr) × (parse family a.pton port ip ≡ Parsed.parsed addr)
          × (r ≡ ok (fd, addr)))
        ⊎ ((r ≡ thrown) × ((e : Exception) × (parse family a.pton port ip ≡ Parsed.refused e))))

-- On every branch of `BuilderClient`: a failed socket(2) leaves all as it was. Else there is one more
-- socket, nonblocking, neither bound nor connected; with an address that parses the result is its
-- descriptor and that address, and otherwise an exception leaves and the socket stays open.
pub build_client-Built :
    (family : Family) (protocol : Protocol) (a : Answers) (port : ℕ) (ip : Option (List ℕ))
    (net : Net)
    → let (r, net') = build_client family protocol a port ip net in
      ClientOutcome family protocol a port ip net a.socket_fd r net'
unfolding build_client
build_client-Built family protocol a port ip net = elim (Option-cases a.socket_fd) [
  | inl e ↦ rw e (refl, refl)
  | inr (fd, e) ↦ elim (Parsed-cases (parse family a.pton port ip)) [
    | inr (x, p) ↦ rw (e, p) (refl, inr (refl, (x, refl)))
    | inl (addr, p) ↦ rw (e, p) (refl, inl (addr, refl, refl))
  ]
]

-- The number that the two bytes of `sin_port` stand for.
abbrev pub port_number : List ℕ → ℕ
port_number [] = 0
port_number (high ∷ []) = high
port_number (high ∷ low ∷ rest) = high * 256 + low

with_ip-parsed :
    (family : Family) (port : ℕ) (p : Parsed (List ℕ)) (addr : SockAddr)
    → with_ip family port p ≡ Parsed.parsed addr
    → (addr.family ≡ family) × (addr.port ≡ htons port)
with_ip-parsed family port (Parsed.parsed bytes) addr h = (cc, cc)
with_ip-parsed family port (Parsed.refused e) addr h = (cc, cc)

parse-parsed :
    (family : Family) (pton : Option (List ℕ) → Pton) (port : ℕ) (ip : Option (List ℕ))
    (addr : SockAddr)
    → parse family pton port ip ≡ Parsed.parsed addr
    → (addr.family ≡ family) × (addr.port ≡ htons port)
unfolding parse_ipv4 parse_ipv6
parse-parsed Family.ipv4 pton port ip addr h = elim (Bool-cases (is_blank ip)) [
  | inl b ↦ let h' = rw b at h in (cc, cc)
  | inr b ↦ with_ip-parsed Family.ipv4 port (ip_to_in_addr_t (pton ip)) addr (rw b at h)
]
parse-parsed Family.ipv6 pton port ip addr h = elim (Bool-cases (is_blank ip)) [
  | inl b ↦ let h' = rw b at h in (cc, cc)
  | inr b ↦ with_ip-parsed Family.ipv6 port (ip_to_in_addr_t (pton ip)) addr (rw b at h)
]

-- The port of a parsed address is the given one modulo 2 ^ 16, in two bytes with the high one first:
-- it fits in 16 bits, and is the given port exactly when that fits.
pub parse-port :
    (family : Family) (pton : Option (List ℕ) → Pton) (port : ℕ) (ip : Option (List ℕ))
    (addr : SockAddr)
    → parse family pton port ip ≡ Parsed.parsed addr
    → (addr.family ≡ family)
      × (port_number addr.port ≡ port % 65536)
      × (port_number addr.port < 65536)
      × ((port_number addr.port ≡ port) ↔ (port < 65536))
parse-port family pton port ip addr h =
    let (f, p) = parse-parsed family pton port ip addr h in
    (f, rw p (omega arith), rw p (omega arith), rw p ((λ e. omega arith), (λ l. omega arith)))
