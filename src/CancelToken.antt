-- ===== src/CancelToken.antt =====
-- include/async_frame/cancellation_token.h: `cancel_token`, whose shared state is a flag and an
-- eventfd, and `noop_cancel_token`. The eventfd is a parameter.
pub mod History
use async_io_framework.Prelude.{
  ℕ, suc, ◌+◌, ◌≡◌, refl, Bool, true, false, Option, none, some, List, [], ◌∷◌, ◌==◌, if◌then◌else◌,
}
use async_io_framework.Transfer.{ErrorCode, eintr}

-- An eventfd as eventfd(2) describes it, made with EFD_NONBLOCK. It is readable while the counter is
-- positive, and a read takes the whole counter.
pub record EventFd (E : Type 0) : Type 0 where
  pub counter : E → ℕ
  pub write_one : E → E
  pub read_all : E → E
  pub counter-write_one : (e : E) → counter (write_one e) ≡ counter e + 1
  pub counter-read_all : (e : E) → counter (read_all e) ≡ 0

-- `cancel_token::shared_state`
pub record SharedState (E : Type 0) : Type 0 where
  pub cancelled : Bool
  pub fd : E

-- The token of an operation: with a `cancel_token`, its eventfd's descriptor.
pub data CancelToken : Type 0 where
  noop : CancelToken
  event : ℕ → CancelToken

-- The `while` loop of `consume`, also that of `TimerEvent::consume`: the results of the successive
-- reads, none being success. The result counts the reads, if the loop ends.
unfoldable pub reads_made : List (Option ErrorCode) → Option ℕ
reads_made [] = none
reads_made (none ∷ rs) = some 1
reads_made (some errno ∷ rs) =
    let again : Option ℕ = elim (reads_made rs) [ none ↦ none | some n ↦ some (suc n) ] in
    if errno == eintr then again else some 1

module _ {E : Type 0} (os : EventFd E) where
  -- `cancel_token()`, over a new eventfd.
  abbrev pub new_state : E → SharedState E
  new_state fd = record { cancelled = false; fd = fd }

  unfoldable pub request_cancel : SharedState E → SharedState E
  request_cancel s = if s.cancelled then s else record { cancelled = true; fd = os.write_one s.fd }

  -- `cancel()`
  abbrev pub is_requested : CancelToken → SharedState E → Bool
  is_requested CancelToken.noop s = false
  is_requested (CancelToken.event fd) s = s.cancelled

  -- `consume()`, once no signal interrupts it.
  unfoldable pub consume : CancelToken → SharedState E → SharedState E
  consume CancelToken.noop s = s
  consume (CancelToken.event fd) s = record s { fd = os.read_all s.fd }
