-- ===== src/Transfer/Laws.antt =====
-- include/async_frame/do_read.h and include/async_frame/do_write.h: the buffer after one receive or one
-- send, and the results that tell of it.
use async_io_framework.Prelude.{
  ℕ, ◌+◌, ◌≤◌, ◌≡◌, ◌≢◌, ◌↔◌, ◌⊎◌, inl, inr, refl, true, false, List, [], ◌∷◌, ◌++◌, length, ◌==◌,
  if◌then◌else◌, arith, Bool-cases, ◌∙◌, sym, ap,
}
use mathlib.Core.List.{append-nil}
use async_io_framework.Prelude.Words.{add64_exact}
use async_io_framework.Buffer.Cursor.{Cursor}
use async_io_framework.Buffer.Filled.{filled, IsWithin, fill-advance}
use async_io_framework.Transfer.{
  ErrorCode, no_error, eagain, OpStatus, RecvOutcome, SendOutcome, ReadRet, WriteRet, try_read,
  try_write,
}

-- What arrived, and what went wrong other than that nothing was there.
abbrev pub bytes_of : RecvOutcome → List ℕ
bytes_of (RecvOutcome.received bytes) = bytes
bytes_of (RecvOutcome.recv_failed errno) = []

abbrev pub error_of : RecvOutcome → ErrorCode
error_of (RecvOutcome.received bytes) = no_error
error_of (RecvOutcome.recv_failed errno) = if errno == eagain then no_error else errno

abbrev pub taken_by : SendOutcome → ℕ
taken_by (SendOutcome.sent n) = n
taken_by (SendOutcome.send_failed errno) = 0

abbrev pub send_error_of : SendOutcome → ErrorCode
send_error_of (SendOutcome.sent n) = no_error
send_error_of (SendOutcome.send_failed errno) = if errno == eagain then no_error else errno

-- How a call that took bytes, or none, is to be classified, from what remains of the buffer.
abbrev pub status_of : SendOutcome → ℕ → OpStatus
status_of (SendOutcome.send_failed errno) left =
    if errno == eagain then OpStatus.in_progress else OpStatus.erroneous
status_of (SendOutcome.sent n) left =
    if n == 0
    then OpStatus.shutdown
    else if left == 0
    then OpStatus.completed
    else OpStatus.in_progress

-- What a call of `try_read` leaves.
pub record Received {B : Type 0} (c : Cursor B) (outcome : RecvOutcome) (b : B) (r : ReadRet)
    (b' : B) : Type 0 where
  pub within : IsWithin c b'
  pub appended : filled c b' ≡ filled c b ++ bytes_of outcome
  pub counted : r.len ≡ length (bytes_of outcome)
  pub reported : r.ec ≡ error_of outcome
  pub less : c.remain b' + r.len ≡ c.remain b

pub record Sent {B : Type 0} (c : Cursor B) (outcome : SendOutcome) (b : B) (r : WriteRet) (b' : B)
    : Type 0 where
  pub within : IsWithin c b'
  pub kept : c.storage b' ≡ c.storage b
  pub moved : c.offset b' ≡ c.offset b + r.len
  pub counted : r.len ≡ taken_by outcome
  pub reported : r.ec ≡ send_error_of outcome
  pub classified : r.status ≡ status_of outcome (c.remain b')
  pub less : c.remain b' + r.len ≡ c.remain b

length-zero : (bytes : List ℕ) → (length bytes == 0) ≡ true → bytes ≡ []
length-zero [] h = refl
length-zero (x ∷ xs) h = absurd (ground arith)

module _ {B : Type 0} (c : Cursor B) where
  same_filled : (b : B) → filled c b ≡ filled c b ++ []
  same_filled b = sym (append-nil (filled c b))

  try_read-failed :
      (errno : ErrorCode) (b : B)
      → try_read c (RecvOutcome.recv_failed errno) b
        ≡ (record { ec = error_of (RecvOutcome.recv_failed errno); len = 0 }, b)
  unfolding try_read
  try_read-failed errno b = elim (Bool-cases (errno == eagain)) [ inl h ↦ rw h | inr h ↦ rw h ]

  try_read-some :
      (bytes : List ℕ) (b : B)
      → (length bytes == 0) ≡ false
      → try_read c (RecvOutcome.received bytes) b
        ≡ (record { ec = no_error; len = length bytes }, c.advance (length bytes) (c.fill bytes b))
  unfolding try_read
  try_read-some bytes b h = rw h

  -- For every outcome of recv(2), which writes at most `remain()` bytes, `try_read` appends exactly
  -- the received bytes to what the buffer holds, reports their number, reports the errno unless it
  -- is EAGAIN, and keeps the offset within the storage; what remains shrinks by the number.
  pub try_read-Received :
      (outcome : RecvOutcome) (b : B)
      → IsWithin c b
      → length (bytes_of outcome) ≤ c.remain b
      → let (r, b') = try_read c outcome b in Received c outcome b r b'
  unfolding try_read
  try_read-Received (RecvOutcome.recv_failed errno) b w h = rw (try_read-failed errno b) (record {
    within = w;
    appended = same_filled b;
    counted = refl;
    reported = refl;
    less = omega arith;
  })
  try_read-Received (RecvOutcome.received []) b w h = record {
    within = w;
    appended = same_filled b;
    counted = refl;
    reported = refl;
    less = omega arith;
  }
  try_read-Received (RecvOutcome.received (x ∷ xs)) b w h =
      let bytes : List ℕ = x ∷ xs in
      let left = c.remain_lem b w.small w.fits in
      let (within, appended, off, len) = fill-advance c bytes b w (omega (arith, left, w.fits)) in
      rw (try_read-some bytes b (ground arith)) (record {
        within = within;
        appended = appended;
        counted = refl;
        reported = refl;
        less = omega (arith, left, off, len, c.remain_lem _ within.small within.fits, within.fits);
      })

  advance-Sent :
      (n : ℕ) (b : B)
      → IsWithin c b
      → n ≤ c.remain b
      → let b' = c.advance n b in
        IsWithin c b' × (c.offset b' ≡ c.offset b + n) × (c.remain b' + n ≡ c.remain b)
  advance-Sent n b w h =
      let left = c.remain_lem b w.small w.fits in
      let off =
        c.offset-advance n b ∙ add64_exact (c.offset b) n (omega (arith, left, w.fits, w.small)) in
      let len = ap length (c.storage-advance n b) in
      let within : IsWithin c (c.advance n b) = record {
        fits = omega (arith, left, off, len, w.fits);
        small = omega (arith, len, w.small);
      } in
      (
        within,
        off,
        omega (arith, left, off, len, c.remain_lem _ within.small within.fits, within.fits, w.fits),
      )

  -- For every outcome of send(2), which takes at most `remain()` bytes, `try_write` moves the offset
  -- by the bytes taken and nothing else, reports their number and the errno unless it is EAGAIN,
  -- and classifies the call: erroneous, shut down at 0 bytes, completed exactly when bytes were taken
  -- and none remains, in progress otherwise.
  pub try_write-Sent :
      (outcome : SendOutcome) (b : B)
      → IsWithin c b
      → taken_by outcome ≤ c.remain b
      → let (r, b') = try_write c outcome b in Sent c outcome b r b'
  unfolding try_write
  try_write-Sent (SendOutcome.send_failed errno) b w h = elim (Bool-cases (errno == eagain)) [
    | inl e ↦ rw e (record {
      within = w;
      kept = refl;
      moved = omega arith;
      counted = refl;
      reported = rw e;
      classified = rw e;
      less = omega arith;
    })
    | inr e ↦ rw e (record {
      within = w;
      kept = refl;
      moved = omega arith;
      counted = refl;
      reported = rw e;
      classified = rw e;
      less = omega arith;
    })
  ]
  try_write-Sent (SendOutcome.sent n) b w h = elim (Bool-cases (n == 0)) [
    | inl e ↦ rw e (record {
      within = w;
      kept = refl;
      moved = omega arith;
      counted = ground arith;
      reported = refl;
      classified = rw e;
      less = omega arith;
    })
    | inr e ↦
        let (within, off, less) = advance-Sent n b w h in
        let same = c.done_lem (c.advance n b) in
        elim (Bool-cases (c.remain (c.advance n b) == 0)) [
          | inl z ↦
              rw (e, same, z)
                (record {
                  within = within;
                  kept = c.storage-advance n b;
                  moved = off;
                  counted = refl;
                  reported = refl;
                  classified = rw (e, z);
                  less = less;
                })
          | inr z ↦
              rw (e, same, z)
                (record {
                  within = within;
                  kept = c.storage-advance n b;
                  moved = off;
                  counted = refl;
                  reported = refl;
                  classified = rw (e, z);
                  less = less;
                })
        ]
  ]

  -- `try_read` reports no error and 0 bytes exactly when nothing arrived, whether the peer closed
  -- the connection or nothing was there yet (EAGAIN); an errno is not 0.
  pub try_read_silent :
      (outcome : RecvOutcome) (b : B)
      → outcome ≢ RecvOutcome.recv_failed 0
      → ((try_read c outcome b).0 ≡ record { ec = no_error; len = 0 })
        ↔ ((outcome ≡ RecvOutcome.received []) ⊎ (outcome ≡ RecvOutcome.recv_failed eagain))
  unfolding try_read
  try_read_silent (RecvOutcome.recv_failed errno) b h = grind arith
  try_read_silent (RecvOutcome.received []) b h = grind arith
  try_read_silent (RecvOutcome.received (x ∷ xs)) b h = grind arith
