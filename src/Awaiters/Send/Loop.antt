-- ===== src/Awaiters/Send/Loop.antt =====
-- include/async_frame/async_write.h: the loops of `async_write_impl` and `async_write_timeout_impl`.
-- A round is one `co_await` of the inner awaiter.
use async_io_framework.Prelude.{
  ℕ, ◌+◌, ◌≤◌, ◌≡◌, ◌⊎◌, Bool, true, false, Option, none, some, List, [], ◌∷◌, length, Action,
  ◌>>=◌, ◌>>◌, branch, modify, pure, if◌then◌else◌,
}
use async_io_framework.Prelude.Words.{add64}
use async_io_framework.Buffer.Cursor.{Cursor}
use async_io_framework.Buffer.Filled.{IsWithin}
use async_io_framework.Timer.{Timespec}
use async_io_framework.Transfer.{eagain, is_error, OpStatus, ReadRet, WriteRet, SendOutcome}
use async_io_framework.Awaiters.{System, World, Frame}
use async_io_framework.Awaiters.Send.{
  send_suspend, send_resume, send_timeout_suspend, send_timeout_resume,
}

-- What happens around one `co_await`: as for a read, with what send(2) does when it is given a
-- number of bytes.
pub record SendRound (W : Type 0) : Type 0 where
  pub race : Bool
  pub meanwhile : W → W
  pub send : ℕ → SendOutcome
  pub now : ℕ
  pub left : Timespec

-- `stat_ == op_status::INPROGRESS`
abbrev pub is_in_progress : OpStatus → Bool
is_in_progress OpStatus.in_progress = true
is_in_progress OpStatus.erroneous = false
is_in_progress OpStatus.cancelled = false
is_in_progress OpStatus.shutdown = false
is_in_progress OpStatus.completed = false
is_in_progress OpStatus.timeout = false

module _ {K T E B : Type 0} (sys : System K T E B) where
  -- `co_await inner_send_awaiter{...}`: with `false` from `await_suspend` it resumes at once.
  unfoldable pub send_await : Frame → SendRound (World K T E B) → Action (World K T E B) WriteRet
  send_await f round = do
    suspended ← send_suspend sys round.race f
    modify (λ w. if suspended then round.meanwhile w else w)
    λ w. send_resume sys (round.send (sys.cursor.remain w.buf)) f w

  unfoldable pub send_timeout_await :
      ℕ → Frame → SendRound (World K T E B) → Action (World K T E B) WriteRet
  send_timeout_await delay f round = do
    suspended ← send_timeout_suspend sys round.race round.now delay f
    modify (λ w. if suspended then round.meanwhile w else w)
    λ w. send_timeout_resume sys round.left (round.send (sys.cursor.remain w.buf)) f w

  -- The `while` loop with its `total_len`, over the rounds that take place. `none` is a coroutine
  -- that has not finished.
  unfoldable pub write_loop :
      (SendRound (World K T E B) → Action (World K T E B) WriteRet)
      → ℕ
      → List (SendRound (World K T E B))
      → Action (World K T E B) (Option ReadRet)
  write_loop await total_len [] = pure none
  write_loop await total_len (round ∷ rounds) = await round >>= λ r.
      branch (λ w. is_in_progress r.status) (write_loop await (add64 total_len r.len) rounds)
        (pure (some (record { ec = r.ec; len = add64 total_len r.len })))

  unfoldable pub async_write_impl :
      Frame → List (SendRound (World K T E B)) → Action (World K T E B) (Option ReadRet)
  async_write_impl f = write_loop (send_await f) 0

  unfoldable pub async_write_timeout_impl :
      ℕ → Frame → List (SendRound (World K T E B)) → Action (World K T E B) (Option ReadRet)
  async_write_timeout_impl delay f = write_loop (send_timeout_await delay f) 0

-- Some number of the rounds met a full socket (EAGAIN).
pub data Blocked {W : Type 0} : List (SendRound W) → ℕ → Type 0 where
  stop : Blocked [] 0
  again :
      {rounds : List (SendRound W)} {k : ℕ} (round : SendRound W) (n : ℕ)
      → round.send n ≡ SendOutcome.send_failed eagain
      → Blocked rounds k
      → Blocked (round ∷ rounds) (k + 1)
  goes :
      {rounds : List (SendRound W)} {k : ℕ} (round : SendRound W)
      → Blocked rounds k
      → Blocked (round ∷ rounds) k

-- In some round send(2) took no bytes.
pub data Shut {W : Type 0} : List (SendRound W) → Type 0 where
  here :
      {rounds : List (SendRound W)} (round : SendRound W) (n : ℕ)
      → round.send n ≡ SendOutcome.sent 0
      → Shut (round ∷ rounds)
  there : {rounds : List (SendRound W)} (round : SendRound W) → Shut rounds → Shut (round ∷ rounds)

module _ {B W : Type 0} (c : Cursor B) where
  -- Where the loop stands after all the rounds, of which each was blocked or sent something; or what
  -- it returned, and why, if `total` bytes were sent before.
  abbrev pub SendVerdict : ℕ → List (SendRound W) → B → B → Option ReadRet → Type 0
  SendVerdict total rounds b b' none =
      (k : ℕ) × Blocked rounds k × (length rounds + c.remain b' ≤ c.remain b + k)
  SendVerdict total rounds b b' (some r) =
      (r.len + c.offset b ≡ total + c.offset b')
      × (is_error r.ec ≡ false → (c.remain b' ≡ 0) ⊎ Shut rounds)

  pub record Sending (total : ℕ) (rounds : List (SendRound W)) (b b' : B) (x : Option ReadRet)
      : Type 0 where
    pub within : IsWithin c b'
    pub kept : c.storage b' ≡ c.storage b
    pub moved : c.offset b ≤ c.offset b'
    pub verdict : SendVerdict total rounds b b' x
