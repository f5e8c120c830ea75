-- ===== src/Hex/Record/PlusSign.antt =====
-- Pairs of characters that are no hexadecimal byte, and are read as one all the same.
use open_boot.Base.{ℕ, ◌≡◌, ◌∷◌, some, ok, Bytes, arith}
use open_boot.Hex.Errors.{Text}
use open_boot.Text.{to_digit, digits, from_str_radix}
use open_boot.Hex.Record.{hex_pairs}

-- Where the rest of a field is read, a plus sign and a hexadecimal digit in front of it are read as
-- the byte of that digit, like a zero and that digit.
pub hex_pairs_plus :
    (c v : ℕ) (rest : Text) (bytes : Bytes)
    → to_digit 16 c ≡ some v
    → hex_pairs rest ≡ ok bytes
    → (hex_pairs (b'+' ∷ c ∷ rest) ≡ ok (v ∷ bytes))
      × (hex_pairs (b'+' ∷ c ∷ rest) ≡ hex_pairs (b'0' ∷ c ∷ rest))
unfolding hex_pairs from_str_radix digits to_digit
hex_pairs_plus c v rest bytes e r = ground arith
