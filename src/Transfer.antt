-- ===== src/Transfer.antt =====
-- include/async_frame/do_read.h and include/async_frame/do_write.h: one recv(2) or send(2), whose
-- outcome is an argument, and the `op_status` of include/async_frame/scheduler_type_traits.h.
pub mod Laws
use async_io_framework.Prelude.{
  ℕ, Bool, true, false, not, ◌||◌, Option, none, some, List, [], ◌∷◌, length, ◌==◌, if◌then◌else◌,
}
use async_io_framework.Buffer.Cursor.{Cursor}

-- `std::error_code` in the generic category: an errno value, 0 for no error.
abbrev pub ErrorCode : Type 0
ErrorCode = ℕ

abbrev pub no_error : ErrorCode
no_error = 0

abbrev pub eintr : ErrorCode
eintr = 4

abbrev pub eagain : ErrorCode
eagain = 11

abbrev pub etimedout : ErrorCode
etimedout = 110

abbrev pub einprogress : ErrorCode
einprogress = 115

abbrev pub ecanceled : ErrorCode
ecanceled = 125

-- `operation_cancelled_error()` and `timeout_error()`
abbrev pub operation_cancelled_error : ErrorCode
operation_cancelled_error = ecanceled

abbrev pub timeout_error : ErrorCode
timeout_error = etimedout

-- `if (ec)`
abbrev pub is_error : ErrorCode → Bool
is_error ec = not (ec == 0)

pub data OpStatus : Type 0 where
  erroneous in_progress cancelled shutdown completed timeout : OpStatus

-- What recv(2) did: it wrote bytes at `seek()` and returned their number, or it returned -1 with an
-- errno.
pub data RecvOutcome : Type 0 where
  received : List ℕ → RecvOutcome
  recv_failed : ErrorCode → RecvOutcome

-- What send(2) did: it took a number of bytes, or returned -1 with an errno.
pub data SendOutcome : Type 0 where
  sent : ℕ → SendOutcome
  send_failed : ErrorCode → SendOutcome

-- `read_ret_t`, and `result_t`
pub record ReadRet : Type 0 where
  pub ec : ErrorCode
  pub len : ℕ

-- `write_ret_t`
pub record WriteRet : Type 0 where
  pub ec : ErrorCode
  pub len : ℕ
  pub status : OpStatus

-- `len` is `none` for -1.
pub stop_reading_again : ErrorCode → Option ℕ → Bool
stop_reading_again ec none = if is_error ec then true else false
stop_reading_again ec (some len) = if len == 0 then true else is_error ec

pub stop_writing_again : ErrorCode → Option ℕ → Bool
stop_writing_again ec none = if is_error ec then true else false
stop_writing_again ec (some len) = if len == 0 then true else is_error ec

module _ {B : Type 0} (c : Cursor B) where
  unfoldable pub try_read : RecvOutcome → B → ReadRet × B
  try_read (recv_failed errno) b =
      if errno == eagain
      then (record { ec = no_error; len = 0 }, b)
      else (record { ec = errno; len = 0 }, b)
  try_read (received bytes) b =
      if length bytes == 0
      then (record { ec = no_error; len = 0 }, b)
      else (record { ec = no_error; len = length bytes }, c.advance (length bytes) (c.fill bytes b))

  unfoldable pub try_write : SendOutcome → B → WriteRet × B
  try_write (send_failed errno) b =
      if errno == eagain
      then (record { ec = no_error; len = 0; status = OpStatus.in_progress }, b)
      else (record { ec = errno; len = 0; status = OpStatus.erroneous }, b)
  try_write (sent n) b =
      if n == 0
      then (record { ec = no_error; len = 0; status = OpStatus.shutdown }, b)
      else let b' = c.advance n b in
        if c.done b'
        then (record { ec = no_error; len = n; status = OpStatus.completed }, b')
        else (record { ec = no_error; len = n; status = OpStatus.in_progress }, b')
