-- ===== src/Awaiters/Recv/Loop.antt =====
-- include/async_frame/async_read.h: the loops of `async_read_impl` and `async_read_timeout_impl`. A
-- round is one `co_await` of the inner awaiter.
use async_io_framework.Prelude.{
  ℕ, ◌+◌, ◌≤◌, ◌≡◌, Bool, true, false, Option, none, some, List, [], ◌∷◌, ◌++◌, length, Action, ok,
  ◌>>=◌, ◌>>◌, ◌⊎◌, branch, modify, pure, ◌==◌, if◌then◌else◌,
}
use async_io_framework.Buffer.Cursor.{Cursor}
use async_io_framework.Buffer.Filled.{filled, IsWithin}
use async_io_framework.Timer.{Timespec}
use async_io_framework.Transfer.{is_error, ReadRet, RecvOutcome}
use async_io_framework.Transfer.Laws.{bytes_of}
use async_io_framework.Awaiters.{System, World, Frame}
use async_io_framework.Awaiters.Recv.{
  recv_suspend, recv_resume, recv_timeout_suspend, recv_timeout_resume,
}

-- What happens around one `co_await`: whether another thread requests cancellation while the awaiter
-- suspends, what the rest of the program does until it resumes, what recv(2) does when it is given a
-- number of bytes, the clock's reading, and what timerfd_gettime(2) writes.
pub record Round (W : Type 0) : Type 0 where
  pub race : Bool
  pub meanwhile : W → W
  pub recv : ℕ → RecvOutcome
  pub now : ℕ
  pub left : Timespec

module _ {K T E B : Type 0} (sys : System K T E B) where
  abbrev pub W : Type 0
  W = World K T E B

  -- `co_await inner_recv_awaiter{...}`: with `false` from `await_suspend` it resumes at once.
  unfoldable pub recv_await : Frame → Round W → Action W ReadRet
  recv_await f round = do
    suspended ← recv_suspend sys round.race f
    modify (λ w. if suspended then round.meanwhile w else w)
    λ w. recv_resume sys (round.recv (sys.cursor.remain w.buf)) f w

  unfoldable pub recv_timeout_await : ℕ → Frame → Round W → Action W ReadRet
  recv_timeout_await delay f round = do
    suspended ← recv_timeout_suspend sys round.race round.now delay f
    modify (λ w. if suspended then round.meanwhile w else w)
    λ w. recv_timeout_resume sys round.left (round.recv (sys.cursor.remain w.buf)) f w

  -- The three tests of the loop's body, which all return the same.
  abbrev pub reading_ends : ReadRet → W → Bool
  reading_ends r w =
      if is_error r.ec then true else if r.len == 0 then true else sys.cursor.done w.buf

  -- The `while` loop, over the rounds that take place. `none` is a coroutine that has not finished.
  unfoldable pub read_loop :
      (Round W → Action W ReadRet) → List (Round W) → Action W (Option ReadRet)
  read_loop await [] = pure none
  read_loop await (round ∷ rounds) = await round >>= λ r.
      branch (reading_ends r)
        (λ w. (ok (some (record { ec = r.ec; len = sys.cursor.read_count w.buf })), w))
        (read_loop await rounds)

  unfoldable pub async_read_impl : Frame → List (Round W) → Action W (Option ReadRet)
  async_read_impl f = read_loop (recv_await f)

  unfoldable pub async_read_timeout_impl : ℕ → Frame → List (Round W) → Action W (Option ReadRet)
  async_read_timeout_impl delay f = read_loop (recv_timeout_await delay f)

-- Bytes that some of the first rounds received, one after another.
pub data Arrives {W : Type 0} : List (Round W) → List ℕ → Type 0 where
  stop : {rounds : List (Round W)} → Arrives rounds []
  more :
      {rounds : List (Round W)} {bytes : List ℕ} (round : Round W) (n : ℕ)
      → Arrives rounds bytes
      → Arrives (round ∷ rounds) (bytes_of (round.recv n) ++ bytes)

-- In some round nothing arrived and no error was reported: the end of the stream, or EAGAIN.
pub data Silent {W : Type 0} : List (Round W) → Type 0 where
  here :
      {rounds : List (Round W)} (round : Round W) (n : ℕ)
      → length (bytes_of (round.recv n)) ≡ 0
      → Silent (round ∷ rounds)
  there : {rounds : List (Round W)} (round : Round W) → Silent rounds → Silent (round ∷ rounds)

module _ {B W : Type 0} (c : Cursor B) where
  -- Where the loop stands after all the rounds: each of them received something that still fitted;
  -- or where it ended, and why.
  abbrev pub Verdict : List (Round W) → B → B → Option ReadRet → Type 0
  Verdict rounds b b' none = length rounds + c.remain b' ≤ c.remain b
  Verdict rounds b b' (some r) =
      (r.len ≡ c.offset b') × (is_error r.ec ≡ false → (c.done b' ≡ true) ⊎ Silent rounds)

  pub record Streamed (rounds : List (Round W)) (b b' : B) (x : Option ReadRet) : Type 0 where
    pub bytes : List ℕ
    pub arrived : Arrives rounds bytes
    pub within : IsWithin c b'
    pub appended : filled c b' ≡ filled c b ++ bytes
    pub verdict : Verdict rounds b b' x
