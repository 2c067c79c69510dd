-- ===== src/CancelToken/History.antt =====
-- include/async_frame/cancellation_token.h: a `cancel_token` over whole histories of its calls.
use async_io_framework.Prelude.{
  ℕ, zero, suc, ◌≤◌, ◌≡◌, ◌≢◌, refl, true, false, Option, none, some, List, ◌∷◌, arith, Bool-cases,
  inl, inr,
}
use async_io_framework.Transfer.{ErrorCode, eintr}
use async_io_framework.CancelToken.{
  EventFd, SharedState, CancelToken, reads_made, new_state, request_cancel, consume,
}

-- Reads that a signal interrupts.
abbrev pub interrupted : ℕ → List (Option ErrorCode) → List (Option ErrorCode)
interrupted zero rs = rs
interrupted (suc n) rs = some eintr ∷ interrupted n rs

-- The loop of `consume` reads again after each EINTR, and ends at the first read that succeeds or
-- fails otherwise: `n` interruptions cost `n` reads more.
pub reads_made-interrupted :
    (n : ℕ) (r : Option ErrorCode) (rs : List (Option ErrorCode))
    → r ≢ some eintr
    → reads_made (interrupted n (r ∷ rs)) ≡ some (suc n)
unfolding reads_made
reads_made-interrupted zero none rs h = refl
reads_made-interrupted zero (some errno) rs h = grind arith
reads_made-interrupted (suc n) r rs h = rw (reads_made-interrupted n r rs h)

module _ {E : Type 0} (os : EventFd E) where
  -- A call on the token that the descriptor `fd` names.
  pub data Step (s : SharedState E) : SharedState E → Type 0 where
    requests : Step s (request_cancel os s)
    consumes : (token : CancelToken) → Step s (consume os token s)

  pub data Reach (s : SharedState E) : SharedState E → Type 0 where
    here : Reach s s
    next : {t u : SharedState E} → Reach s t → Step t u → Reach s u

  -- Before a request the eventfd is not readable, and it never counts above 1.
  pub record IsToken (s : SharedState E) : Type 0 where
    pub quiet : s.cancelled ≡ false → os.counter s.fd ≡ 0
    pub single : os.counter s.fd ≤ 1

  Step-IsToken : {s t : SharedState E} → Step s t → IsToken s → IsToken t
  unfolding request_cancel consume
  Step-IsToken {s} requests v = elim (Bool-cases s.cancelled) [
    | inl e ↦ rw e (record { quiet = λ h. ground arith; single = v.single })
    | inr e ↦ rw e (record {
      quiet = λ h. ground arith;
      single = ground (arith, v.quiet, os.counter-write_one s.fd);
    })
  ]
  Step-IsToken (consumes CancelToken.noop) v = v
  Step-IsToken {s} (consumes (CancelToken.event fd)) v = record {
    quiet = λ h. os.counter-read_all s.fd;
    single = omega (arith, os.counter-read_all s.fd);
  }

  -- In every history of a new token, over an eventfd that counts 0, the eventfd counts at most 1,
  -- and 0 as long as nobody requested cancellation: epoll reports a cancellation only after one.
  pub Reach-IsToken :
      (fd : E) {s : SharedState E} → os.counter fd ≡ 0 → Reach (new_state os fd) s → IsToken s
  Reach-IsToken fd p Reach.here = record { quiet = λ h. p; single = omega arith }
  Reach-IsToken fd p (Reach.next r s) = Step-IsToken s (Reach-IsToken fd p r)

  -- The state of a token whose request has been consumed.
  abbrev pub Spent : SharedState E → Type 0
  Spent s = (s.cancelled ≡ true) × (os.counter s.fd ≡ 0)

  Step-Spent : {s t : SharedState E} → Step s t → Spent s → Spent t
  unfolding request_cancel consume
  Step-Spent {s} requests (c, z) = rw c (refl, z)
  Step-Spent (consumes CancelToken.noop) h = h
  Step-Spent {s} (consumes (CancelToken.event fd)) (c, z) = (c, os.counter-read_all s.fd)

  -- A token signals once: when one waiter has consumed the request, the token stays requested and
  -- its eventfd stays unreadable in every further history, however often cancellation is requested.
  pub Reach-Spent :
      (fd : ℕ) (s : SharedState E) {t : SharedState E}
      → s.cancelled ≡ true
      → Reach (consume os (CancelToken.event fd) s) t
      → Spent t
  unfolding consume
  Reach-Spent fd s c Reach.here = (c, os.counter-read_all s.fd)
  Reach-Spent fd s c (Reach.next r x) = Step-Spent x (Reach-Spent fd s c r)
