-- ===== src/Flows/Errors.antt =====
-- tools/src/flows.rs: what a flow can fail with. The messages' words are left out.
use open_boot.Base.{ℕ, Bool, false, Option, none, some, ◌==◌}
use open_boot.Proto.Consts.{det_verify_mismatch}
use open_boot.Client.Errors.{ClientError}
use open_boot.Bundle.Errors.{BundleError}

pub data FlowError : Type 0 where
  client_error : ClientError → FlowError
  bundle_error : BundleError → FlowError
  outside_region : ℕ → ℕ → FlowError
  no_writable_slot : ℕ → ℕ → FlowError
  outside_window : ℕ → ℕ → FlowError
  wrong_base : ℕ → ℕ → FlowError
  erase_needs_range : FlowError
  zero_length : FlowError
  unaligned_range : ℕ → ℕ → ℕ → FlowError
  -- `VerifyMismatch { local_crc, device_crc }`
  verify_mismatch : ℕ → Option ℕ → FlowError

-- `detail == Some(OB_DET_VERIFY_MISMATCH)`
abbrev pub is_mismatch : Option ℕ → Bool
is_mismatch none = false
is_mismatch (some detail) = detail == det_verify_mismatch
