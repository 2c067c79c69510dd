-- ===== src/Sockets/Intermediate.antt =====
-- include/async_frame/intermiate.h: `InterMediate`, whose constructor writes an address into a member
-- of type `sockaddr_in`. The branch for IPv6 is modelled as it would run: in the source its test lacks
-- constexpr, so that the instantiation ends at the static_assert. Memory is the list of the bytes
-- from the start of the object on: 16 bytes of the object, and what lies behind it.
use async_io_framework.Prelude.{
  ℕ, zero, suc, ◌+◌, ◌-◌, ◌≤◌, ◌≡◌, ◌∙◌, refl, ap, List, [], ◌∷◌, ◌++◌, length, take, drop, Action,
  ok, thrown, ⊤, length-append, length-take, length-drop, arith,
}
use async_io_framework.Sockets.{Family, Pton, htons}

-- Bytes are written from an offset on.
unfoldable pub write_at : ℕ → List ℕ → List ℕ → List ℕ
write_at at_byte bytes memory =
    take at_byte memory ++ (bytes ++ drop (at_byte + length bytes) memory)

-- AF_INET and AF_INET6, in two bytes with the low one first.
abbrev pub family_bytes : Family → List ℕ
family_bytes Family.ipv4 = 2 ∷ 0 ∷ []
family_bytes Family.ipv6 = 10 ∷ 0 ∷ []

-- `sizeof(sockaddr_in)`, and the offset of `sin_addr` in it.
abbrev pub object_size : ℕ
object_size = 16

abbrev pub sin_addr : ℕ
sin_addr = 4

-- inet_pton(3) writes only where it returns 1.
abbrev pub written : Pton → List ℕ → List ℕ
written (Pton.converted bytes) memory = write_at sin_addr bytes memory
written Pton.malformed memory = memory
written (Pton.unsupported errno) memory = memory

-- The tests of `ret` at the end.
abbrev pub check_pton : Pton → Action (List ℕ) ⊤
check_pton (Pton.converted bytes) memory = (ok tt, memory)
check_pton Pton.malformed memory = (thrown, memory)
check_pton (Pton.unsupported errno) memory = (thrown, memory)

-- `InterMediate(const std::string &add, int port)`
unfoldable pub make_intermediate : Family → Pton → ℕ → Action (List ℕ) ⊤
unfolding write_at
make_intermediate family pton port memory =
    check_pton pton (written pton (write_at 0 (family_bytes family ++ htons port) memory))

-- How many bytes inet_pton(3) writes.
abbrev pub address_size : Family → ℕ
address_size Family.ipv4 = 4
address_size Family.ipv6 = 16

drop-append : (n : ℕ) (xs ys : List ℕ) → length xs ≤ n → drop n (xs ++ ys) ≡ drop (n - length xs) ys
drop-append n [] ys h = let e : n ≡ n - 0 = omega arith in ap (λ m. drop m ys) e
drop-append zero (x ∷ xs) ys h = absurd (omega arith)
drop-append (suc n) (x ∷ xs) ys h =
    let e : n - length xs ≡ suc n - suc (length xs) = omega arith in
    drop-append n xs ys (omega arith) ∙ ap (λ m. drop m ys) e

drop-append_within : (n : ℕ) (xs ys : List ℕ) → n ≤ length xs → drop n (xs ++ ys) ≡ drop n xs ++ ys
drop-append_within zero xs ys h = refl
drop-append_within (suc n) [] ys h = absurd (omega arith)
drop-append_within (suc n) (x ∷ xs) ys h = drop-append_within n xs ys (omega arith)

drop-drop : (m n : ℕ) (xs : List ℕ) → drop m (drop n xs) ≡ drop (n + m) xs
drop-drop m zero xs = let e : m ≡ 0 + m = omega arith in ap (λ k. drop k xs) e
drop-drop zero (suc n) [] = let e : suc n ≡ suc n + 0 = omega arith in ap (λ k. drop {A = ℕ} k []) e
drop-drop (suc m) (suc n) [] =
    let e : suc (n + suc m) ≡ suc n + suc m = omega arith in ap (λ k. drop k []) e
drop-drop m (suc n) (x ∷ xs) =
    let e : suc (n + m) ≡ suc n + m = omega arith in drop-drop m n xs ∙ ap (λ k. drop k (x ∷ xs)) e

module _ (at_byte n : ℕ) (bytes memory : List ℕ) (before : at_byte ≤ n)
    (fits : n ≤ length memory) where
  -- What stands from byte `n` on, past the first byte that is written.
  drop-write_at :
      drop n (write_at at_byte bytes memory)
      ≡ drop (n - at_byte) (bytes ++ drop (at_byte + length bytes) memory)
  unfolding write_at
  drop-write_at =
      let l : length (take at_byte memory) ≡ at_byte = omega (arith, length-take at_byte memory) in
      drop-append n (take at_byte memory) (bytes ++ drop (at_byte + length bytes) memory)
        (omega (arith, l))
      ∙ ap (λ k. drop (n - k) (bytes ++ drop (at_byte + length bytes) memory)) l

  write_at-behind :
      at_byte + length bytes ≤ n → drop n (write_at at_byte bytes memory) ≡ drop n memory
  write_at-behind h =
      let e : at_byte + length bytes + (n - at_byte - length bytes) ≡ n = omega arith in
      drop-write_at
      ∙ drop-append (n - at_byte) bytes (drop (at_byte + length bytes) memory) (omega arith)
      ∙ drop-drop (n - at_byte - length bytes) (at_byte + length bytes) memory
      ∙ ap (λ k. drop k memory) e

  write_at-across :
      n ≤ at_byte + length bytes
      → drop n (write_at at_byte bytes memory)
        ≡ drop (n - at_byte) bytes ++ drop (at_byte + length bytes) memory
  write_at-across h =
      drop-write_at
      ∙ drop-append_within (n - at_byte) bytes (drop (at_byte + length bytes) memory) (omega arith)

length-write_at :
    (at_byte : ℕ) (bytes memory : List ℕ)
    → at_byte + length bytes ≤ length memory
    → length (write_at at_byte bytes memory) ≡ length memory
unfolding write_at
length-write_at at_byte bytes memory h = omega (
  arith,
  length-append (take at_byte memory) (bytes ++ drop (at_byte + length bytes) memory),
  length-append bytes (drop (at_byte + length bytes) memory),
  length-take at_byte memory,
  length-drop (at_byte + length bytes) memory,
)

-- What stands behind the object afterwards.
abbrev pub behind : Family → Pton → List ℕ → List ℕ
behind family Pton.malformed memory = drop 16 memory
behind family (Pton.unsupported errno) memory = drop 16 memory
behind Family.ipv4 (Pton.converted bytes) memory = drop 16 memory
behind Family.ipv6 (Pton.converted bytes) memory = drop 12 bytes ++ drop 20 memory

abbrev pub HasSize : Family → Pton → Type 0
HasSize family (Pton.converted bytes) = length bytes ≡ address_size family
HasSize family Pton.malformed = Unit
HasSize family (Pton.unsupported errno) = Unit

-- After the family and the port are written.
module _ (header memory : List ℕ) (four : length header ≡ 4) (room : 20 ≤ length memory) where
  abbrev named : List ℕ
  named = write_at 0 header memory

  named-behind : (n : ℕ) → 4 ≤ n → n ≤ 20 → drop n named ≡ drop n memory
  named-behind n low high =
      write_at-behind 0 n header memory (omega arith) (omega arith) (omega arith)

  named_room : 20 ≤ length named
  named_room = omega (arith, length-write_at 0 header memory (omega arith))

  short_address :
      (bytes : List ℕ) → length bytes ≡ 4 → drop 16 (write_at sin_addr bytes named) ≡ drop 16 memory
  short_address bytes size =
      write_at-behind 4 16 bytes named (omega arith) (omega (arith, named_room)) (omega arith)
      ∙ named-behind 16 (omega arith) (omega arith)

  long_address :
      (bytes : List ℕ)
      → length bytes ≡ 16
      → drop 16 (write_at sin_addr bytes named) ≡ drop 12 bytes ++ drop 20 memory
  long_address bytes size =
      let e : 4 + length bytes ≡ 20 = omega arith in
      write_at-across 4 16 bytes named (omega arith) (omega (arith, named_room)) (omega arith)
      ∙ ap (λ k. drop 12 bytes ++ drop k named) e
      ∙ ap (λ m. drop 12 bytes ++ m) (named-behind 20 (omega arith) (omega arith))

-- `InterMediate` for IPv4 writes within its object, whatever inet_pton(3) answers. For IPv6, an
-- address that converts overwrites the four bytes behind the object with the last four bytes of the
-- address, and the constructor returns normally. There are four more bytes of memory.
pub make_intermediate-behind :
    (family : Family) (pton : Pton) (port : ℕ) (memory : List ℕ)
    → HasSize family pton
    → 20 ≤ length memory
    → drop 16 (make_intermediate family pton port memory).1 ≡ behind family pton memory
unfolding make_intermediate
make_intermediate-behind Family.ipv4 Pton.malformed port memory size room =
    named-behind (2 ∷ 0 ∷ htons port) memory refl room 16 (omega arith) (omega arith)
make_intermediate-behind Family.ipv6 Pton.malformed port memory size room =
    named-behind (10 ∷ 0 ∷ htons port) memory refl room 16 (omega arith) (omega arith)
make_intermediate-behind Family.ipv4 (Pton.unsupported errno) port memory size room =
    named-behind (2 ∷ 0 ∷ htons port) memory refl room 16 (omega arith) (omega arith)
make_intermediate-behind Family.ipv6 (Pton.unsupported errno) port memory size room =
    named-behind (10 ∷ 0 ∷ htons port) memory refl room 16 (omega arith) (omega arith)
make_intermediate-behind Family.ipv4 (Pton.converted bytes) port memory size room =
    short_address (2 ∷ 0 ∷ htons port) memory refl room bytes size
make_intermediate-behind Family.ipv6 (Pton.converted bytes) port memory size room =
    long_address (10 ∷ 0 ∷ htons port) memory refl room bytes size
