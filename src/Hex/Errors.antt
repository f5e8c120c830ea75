-- ===== src/Hex/Errors.antt =====
-- tools/src/hex.rs: every reason for which a file is refused.
use open_boot.Base.{ℕ}
pub use open_boot.Text.{Text}

pub data HexError : Type 0 where
  junk_line non_ascii record_too_short truncated_record missing_checksum trailing_bytes : HexError
  invalid_hex invalid_hex_byte odd_length : HexError
  bad_checksum : ℕ → HexError
  bad_eof : HexError
  bad_extended : ℕ → ℕ → HexError
  exceeds_address_space : ℕ → HexError
  content_after_eof missing_eof : HexError
  span_too_large : ℕ → HexError
  overlapping : ℕ → HexError
