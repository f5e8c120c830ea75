-- ===== src/Hex/Record.antt =====
-- tools/src/hex.rs: `HexRecord` and the decoding of one line.
pub mod PlusSign
use open_boot.Base.{
  ℕ, zero, suc, ◌+◌, ◌*◌, ◌-◌, ◌%◌, ◌^◌, Bool, true, false, ◌&&◌, ◌||◌, not, List, [], ◌∷◌, Option,
  none, some, Result, ok, err, fault, ◌>>=◌, ◌>>◌, bail_if, Bytes, length, slice, ltb, leb, ◌==◌,
  if◌then◌else◌, within,
}
use open_boot.Text.{from_str_radix}
use open_boot.Hex.Errors.{
  HexError, Text, junk_line, non_ascii, record_too_short, truncated_record, missing_checksum,
  trailing_bytes, invalid_hex, invalid_hex_byte, odd_length, bad_checksum, bad_eof, bad_extended,
}

pub data HexRecord : Type 0 where
  record_data : ℕ → Bytes → HexRecord
  eof : HexRecord
  extended_segment : ℕ → HexRecord
  extended_linear : ℕ → HexRecord
  ignored : HexRecord

-- `.map_err`: the number, or the error.
abbrev pub or_error : Option ℕ → HexError → Result HexError ℕ
or_error none e = err e
or_error (some n) e = ok n

unfoldable pub u32_from_hex : Text → Result HexError ℕ
unfolding from_str_radix
u32_from_hex s = or_error (from_str_radix (2 ^ 32) 16 s) invalid_hex

-- The pairs of characters, from the left, up to the first that is no number.
unfoldable pub hex_pairs : Text → Result HexError Bytes
unfolding from_str_radix
hex_pairs [] = ok []
hex_pairs (c ∷ []) = err odd_length
hex_pairs (c ∷ d ∷ cs) = do
  b ← or_error (from_str_radix (2 ^ 8) 16 (c ∷ d ∷ [])) invalid_hex_byte
  bs ← hex_pairs cs
  ok (b ∷ bs)

unfoldable pub hex_to_bytes : Text → Result HexError Bytes
unfolding hex_pairs
hex_to_bytes s = if not (length s % 2 == 0) then err odd_length else hex_pairs s

-- `fold(0u8, wrapping_add)`
unfoldable pub byte_sum : ℕ → Bytes → ℕ
byte_sum acc [] = acc
byte_sum acc (b ∷ bs) = byte_sum ((acc + b) % 256) bs

unfoldable pub is_ascii : Text → Bool
is_ascii [] = true
is_ascii (c ∷ cs) = ltb c 128 && is_ascii cs

abbrev pub starts_with_colon : Text → Bool
starts_with_colon [] = false
starts_with_colon (c ∷ cs) = c == b':'

unfoldable pub extended_value : ℕ → ℕ → Text → Result HexError ℕ
extended_value t n data_hex = do
  bail_if (not (n == 2)) (bad_extended t n)
  v ← u32_from_hex data_hex
  ok (v % 2 ^ 16)

-- The `match` on the record type.
unfoldable pub typed_record : ℕ → ℕ → ℕ → Text → Result HexError HexRecord
unfolding extended_value
typed_record t n addr data_hex =
    if t == 0
    then (hex_to_bytes data_hex >>= λ bytes. ok (record_data (addr % 2 ^ 16) bytes))
    else if t == 1
    then (bail_if (not (n == 0) || not (addr == 0)) bad_eof >>= λ _. ok eof)
    else if t == 2
    then (extended_value t n data_hex >>= λ v. ok (extended_segment v))
    else if t == 4
    then (extended_value t n data_hex >>= λ v. ok (extended_linear v))
    else ok ignored

-- `&line[a..b]`, on text that is known to be ASCII.
abbrev pub slice_of : Text → ℕ → ℕ → Result HexError Text
slice_of line a b = within b line (ok (slice line a b))

unfoldable pub parse_line : Text → Result HexError HexRecord
parse_line line = do
  bail_if (not (starts_with_colon line)) junk_line
  bail_if (not (is_ascii line)) non_ascii
  bail_if (ltb (length line) 11) record_too_short
  n_hex ← slice_of line 1 3
  n ← u32_from_hex n_hex
  addr_hex ← slice_of line 3 7
  addr ← u32_from_hex addr_hex
  t_hex ← slice_of line 7 9
  t ← u32_from_hex t_hex
  let data_end = 9 + n * 2
  bail_if (ltb (length line) data_end) truncated_record
  bail_if (ltb (length line) (data_end + 2)) missing_checksum
  bail_if (ltb (data_end + 2) (length line)) trailing_bytes
  checked_hex ← slice_of line 1 (data_end + 2)
  checked ← hex_to_bytes checked_hex
  let sum = byte_sum 0 checked
  bail_if (not (sum == 0)) (bad_checksum sum)
  data_hex ← slice_of line 9 data_end
  typed_record t n addr data_hex
