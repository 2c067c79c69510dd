-- ===== src/Events/Bits.antt =====
-- The masks of Events.antt against the `uint32_t` arithmetic of the source
-- (include/async_frame/scheduler_type_traits.h, include/async_frame/scheduler.h), by a table of all
-- masks.
use Prim.Native.Nat.{bit_and, bit_or}
use async_io_framework.Prelude.{
  ℕ, ◌+◌, ◌-◌, ◌^◌, ◌≡◌, ◌≢◌, ◌↔◌, refl, Bool, true, false, not, ◌&&◌, ◌==◌, if◌then◌else◌, arith,
}
use async_io_framework.Events.{Events, union, without, any, read_ready, write_ready}

-- The values of <sys/epoll.h>: EPOLLIN, EPOLLOUT, EPOLLERR, EPOLLHUP, EPOLLET.
pub encode : Events → ℕ
encode e =
    (if e.readable then 1 else 0)
    + (if e.writable then 4 else 0)
    + (if e.error then 8 else 0)
    + (if e.hangup then 16 else 0)
    + (if e.edge then 2 ^ 31 else 0)

-- `~e`
pub complement : ℕ → ℕ
complement w = 2 ^ 32 - 1 - w

both : (Bool → Bool) → Bool
both p = p true && p false

both_sound : (p : Bool → Bool) → both p ≡ true → (b : Bool) → p b ≡ true
unfolding both
both_sound p h true = ground arith
both_sound p h false = ground arith

abbrev mask : Bool → Bool → Bool → Bool → Bool → Events
mask r w e h t = record { readable = r; writable = w; error = e; hangup = h; edge = t }

all_masks : (Events → Bool) → Bool
unfolding both
all_masks p = both λ r. both λ w. both λ e. both λ h. both λ t. p (mask r w e h t)

all_masks_sound : (p : Events → Bool) → all_masks p ≡ true → (m : Events) → p m ≡ true
unfolding all_masks
all_masks_sound p h m =
    both_sound (λ t. p (mask m.readable m.writable m.error m.hangup t))
      (both_sound (λ x. both (λ t. p (mask m.readable m.writable m.error x t)))
        (both_sound (λ x. both (λ y. both (λ t. p (mask m.readable m.writable x y t))))
          (both_sound (λ x. both (λ e. both (λ y. both (λ t. p (mask m.readable x e y t)))))
            (both_sound (λ x. both (λ w. both (λ e. both (λ y. both (λ t. p (mask x w e y t)))))) h
              m.readable)
            m.writable)
          m.error)
        m.hangup)
      m.edge

abbrev operations_agree : Events → Events → Bool
operations_agree a b =
    encode (union a b) == bit_or (encode a) (encode b)
    && encode (without a b) == bit_and (encode a) (complement (encode b))

-- EPOLLIN | EPOLLERR | EPOLLHUP, EPOLLOUT | EPOLLERR | EPOLLHUP, and the tests against 0.
abbrev same : Bool → Bool → Bool
same a b = if a then b else not b

abbrev tests_agree : Events → Bool
tests_agree a =
    same (any a) (not (encode a == 0))
    && same (read_ready a) (not (bit_and (encode a) 25 == 0))
    && same (write_ready a) (not (bit_and (encode a) 28 == 0))

tests_table : all_masks tests_agree ≡ true
unfolding all_masks encode
tests_table = refl

-- For every mask, the three tests are those of the encoded word against 0: the word itself, its
-- `&` with EPOLLIN | EPOLLERR | EPOLLHUP (25), and with EPOLLOUT | EPOLLERR | EPOLLHUP (28).
pub encode-tests :
    (a : Events)
    → ((any a ≡ true) ↔ (encode a ≢ 0))
      × ((read_ready a ≡ true) ↔ (bit_and (encode a) 25 ≢ 0))
      × ((write_ready a ≡ true) ↔ (bit_and (encode a) 28 ≢ 0))
encode-tests a = ground (arith, all_masks_sound tests_agree tests_table a)
