-- ===== src/Bundle/Errors.antt =====
-- tools/src/bundle.rs: every reason for which a bundle or a choice from it is refused.
use open_boot.Base.{ℕ}

pub data BundleError : Type 0 where
  no_images bad_magic reserved_not_zero : BundleError
  too_many too_short bad_count truncated_table : ℕ → BundleError
  misaligned_base bad_length : ℕ → ℕ → BundleError
  shared_base : ℕ → BundleError
  overlap : ℕ → ℕ → BundleError
  unsupported_major bundle_crc : ℕ → ℕ → BundleError
  payload_outside variant_crc : ℕ → ℕ → ℕ → BundleError
  wrong_family : ℕ → ℕ → BundleError
  no_variant only_write_target ambiguous_running : ℕ → BundleError
