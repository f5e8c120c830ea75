-- ===== src/Tests/Hex.antt =====
-- The theorems of the Intel HEX decoder and of the padding on concrete files.
use open_boot.Base.{ℕ, ◌≡◌, refl, true, false, [], ◌∷◌, some, ok, Bytes, arith}
use open_boot.Hex.Errors.{Text}
use open_boot.Text.{to_digit, from_str_radix}
use open_boot.Hex.Record.{
  record_data, parse_line, u32_from_hex, hex_pairs, hex_to_bytes, byte_sum, is_ascii, typed_record,
}
use open_boot.Hex.Record.PlusSign.{hex_pairs_plus}
use open_boot.Hex.Assemble.{Accumulator, empty, feed, finish}
use open_boot.Hex.Assemble.Bounds.{IsValid, feed-IsValid, empty-IsValid}
use open_boot.Hex.Image.{IsImage}
use open_boot.Hex.{parse_intel_hex, feed_lines, feed_line, split_lines, normalize, trim}
use open_boot.Hex.Outcome.{parse_intel_hex-IsImage}

-- ":020010000102EB" and ":00000001FF".
abbrev file : Text
file =
    b':' ∷ b'0' ∷ b'2' ∷ b'0' ∷ b'0' ∷ b'1' ∷ b'0' ∷ b'0' ∷ b'0' ∷ b'0' ∷ b'1' ∷ b'0' ∷ b'2' ∷ b'E'
    ∷ b'B' ∷ 13 ∷ 10 ∷ b':' ∷ b'0' ∷ b'0' ∷ b'0' ∷ b'0' ∷ b'0' ∷ b'0' ∷ b'0' ∷ b'1' ∷ b'F' ∷ b'F'
    ∷ 10 ∷ []

decoded : parse_intel_hex file ≡ ok (0x10, 1 ∷ 2 ∷ [])
unfolding parse_intel_hex feed_lines feed_line split_lines normalize trim parse_line u32_from_hex
    from_str_radix hex_to_bytes byte_sum is_ascii typed_record feed finish
decoded = refl

parse_intel_hex-IsImage_example :
    (acc : Accumulator) × (feed_lines empty (split_lines (normalize file)) ≡ ok acc)
    × (acc.saw_eof ≡ true)
    × IsImage acc.records 0x10 (1 ∷ 2 ∷ []) 1
parse_intel_hex-IsImage_example = parse_intel_hex-IsImage file 0x10 (1 ∷ 2 ∷ []) 1 decoded

abbrev one_record : Accumulator
one_record = record {
  records = (0x10, 1 ∷ 2 ∷ []) ∷ [];
  base = 0;
  lowest = some 0x10;
  highest = 0x12;
  saw_eof = false;
}

fed : feed empty (record_data 0x10 (1 ∷ 2 ∷ [])) ≡ ok one_record
unfolding feed
fed = refl

one_record-IsValid : IsValid one_record
one_record-IsValid =
    feed-IsValid empty one_record (record_data 0x10 (1 ∷ 2 ∷ [])) empty-IsValid (omega arith) fed

abbrev ended : Accumulator
ended = record one_record { saw_eof = true }

finished : finish ended ≡ ok (0x10, 1 ∷ 2 ∷ [])
unfolding finish
finished = refl

abbrev content : Bytes
content = 1 ∷ 2 ∷ []

abbrev first_address : ℕ
first_address = 0x10

two : to_digit 16 b'2' ≡ some 2
unfolding to_digit
two = refl

rest_read : hex_pairs (b'0' ∷ b'7' ∷ []) ≡ ok (7 ∷ [])
unfolding hex_pairs
rest_read = refl

hex_pairs_plus_example :
    (hex_pairs (b'+' ∷ b'2' ∷ b'0' ∷ b'7' ∷ []) ≡ ok (2 ∷ 7 ∷ []))
    × (hex_pairs (b'+' ∷ b'2' ∷ b'0' ∷ b'7' ∷ []) ≡ hex_pairs (b'0' ∷ b'2' ∷ b'0' ∷ b'7' ∷ []))
hex_pairs_plus_example = hex_pairs_plus b'2' 2 (b'0' ∷ b'7' ∷ []) (7 ∷ []) two rest_read
