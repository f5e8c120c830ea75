-- ===== src/Client/Errors.antt =====
-- tools/src/client.rs: what an attempt and a command can end in.
use open_boot.Base.{ℕ, Option, Bytes}
use open_boot.Proto.Status.{DeviceError}
use open_boot.Proto.DeviceInfo.{InfoError}
use open_boot.Transport.{IoError}

-- The names that the messages carry.
pub data Command : Type 0 where
  hello erase write commit crc boot : Command

pub data RetryPolicy : Type 0 where
  retry : ℕ → RetryPolicy
  once : RetryPolicy

pub data BootMode : Type 0 where
  app stay : BootMode

-- A frame error is described by its status and detail bytes.
pub data RetryReason : Type 0 where
  timed_out : RetryReason
  frame_error : ℕ → Option ℕ → RetryReason

-- What is wrong with a malformed answer.
pub data BadResponse : Type 0 where
  no_status : BadResponse
  malformed_info : InfoError → BadResponse
  short_crc : ℕ → BadResponse

pub data ClientError : Type 0 where
  exhausted : Command → ℕ → RetryReason → ClientError
  no_response : Command → RetryReason → ClientError
  device : Command → DeviceError → ClientError
  bad_response : Command → BadResponse → ClientError
  io_failure : Command → IoError → ClientError
  proto_version : ℕ → ℕ → ℕ → ClientError

pub data Attempt : Type 0 where
  done : Bytes → Attempt
  retry : RetryReason → Attempt
