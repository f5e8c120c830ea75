-- ===== src/Image.antt =====
-- tools/src/image.rs: a firmware image, its padding to whole words, and loading. The file's bytes,
-- whether its name ends in `.hex`, and `String::from_utf8_lossy` are arguments.
pub mod Padding
use open_boot.Base.{
  ℕ, ◌+◌, ◌-◌, ◌%◌, Bool, true, false, not, List, [], ◌∷◌, ◌++◌, Option, none, some, Result, ok,
  err, fault, ◌>>=◌, ◌>>◌, bail_if, map_err, Bytes, length, replicate, ◌==◌, if◌then◌else◌,
}
use open_boot.Proto.Consts.{app_base}
use open_boot.Proto.Crc32.{Crc32}
use open_boot.Hex.{parse_intel_hex}
use open_boot.Hex.Errors.{HexError, Text}

pub record Image : Type 0 where
  pub base : ℕ
  pub bytes : Bytes

pub data ImageError : Type 0 where
  base_with_hex no_data_records empty_file : ImageError
  bad_hex : HexError → ImageError

unfoldable pub crc32 : Crc32 → Image → ℕ
crc32 crc image = crc.hash image.bytes

unfoldable pub pad4 : Bytes → Bytes
pad4 bytes =
    let rem = length bytes % 4 in
    if not (rem == 0) then bytes ++ replicate (4 - rem) 0xff else bytes

abbrev pub is_none : Option ℕ → Bool
is_none none = true
is_none (some n) = false

-- `is_empty()`
abbrev pub is_empty : Bytes → Bool
is_empty [] = true
is_empty (b ∷ bs) = false

-- `unwrap_or`
abbrev pub unwrap_or : Option ℕ → ℕ → ℕ
unwrap_or none d = d
unwrap_or (some n) d = n

-- The branch for an Intel HEX file.
unfoldable pub load_hex : Text → Option ℕ → Result ImageError Image
unfolding pad4
load_hex text base_override = do
  bail_if (not (is_none base_override)) base_with_hex
  (base, img) ← map_err bad_hex (parse_intel_hex text)
  bail_if (is_empty img) no_data_records
  ok (record { base = base; bytes = pad4 img })

-- The branch for a flat binary.
unfoldable pub load_bin : Bytes → Option ℕ → Result ImageError Image
unfolding pad4
load_bin raw base_override = do
  bail_if (is_empty raw) empty_file
  ok (record { base = unwrap_or base_override app_base; bytes = pad4 raw })

unfoldable pub load_image : (Bytes → Text) → Bytes → Bool → Option ℕ → Result ImageError Image
unfolding load_hex load_bin
load_image from_utf8_lossy raw is_hex base_override =
    if is_hex then load_hex (from_utf8_lossy raw) base_override else load_bin raw base_override
