-- ===== src/Tests/Cli.antt =====
-- The theorems of the command line on concrete arguments.
use open_boot.Base.{◌≡◌, ◌↔◌, refl, [], ◌∷◌, none, some, ok, err}
use open_boot.Text.{Text}
use open_boot.Flows.Errors.{verify_mismatch}
use open_boot.Cli.{
  Cli, opens_uart, open_transport, usb, port_with_usb, parse_image_spec, parse_int_auto,
  exit_code_for,
}
use open_boot.Cli.Opening.{AsksFor, open_transport_iff}
use open_boot.Cli.Numbers.{Says, parse_image_spec_iff}

abbrev with_port : Cli
with_port = record {
  transport = none;
  port = some (b'p' ∷ []);
  serial = none;
  vid = none;
  pid = none;
  usage_page = none;
  usage = none;
}

open_transport_iff_example :
    (open_transport with_port ≡ ok (opens_uart (b'p' ∷ [])))
    ↔ AsksFor with_port (opens_uart (b'p' ∷ []))
open_transport_iff_example = open_transport_iff with_port (opens_uart (b'p' ∷ []))

opened : open_transport with_port ≡ ok (opens_uart (b'p' ∷ []))
unfolding open_transport
opened = refl

conflict : open_transport (record with_port { transport = some usb }) ≡ err port_with_usb
unfolding open_transport
conflict = refl

abbrev spec : Text
spec = b'f' ∷ b'@' ∷ b'x' ∷ b'@' ∷ b'0' ∷ b'x' ∷ b'1' ∷ b'0' ∷ []

parse_image_spec_iff_example :
    (parse_image_spec spec ≡ ok (b'f' ∷ b'@' ∷ b'x' ∷ [], some 16))
    ↔ Says spec (b'f' ∷ b'@' ∷ b'x' ∷ []) (some 16)
parse_image_spec_iff_example = parse_image_spec_iff spec (b'f' ∷ b'@' ∷ b'x' ∷ []) (some 16)

split : parse_image_spec spec ≡ ok (b'f' ∷ b'@' ∷ b'x' ∷ [], some 16)
unfolding parse_image_spec
split = refl

-- A plus sign behind the prefix is accepted, and a leading zero leaves a number decimal.
plus_sign : parse_int_auto (b'0' ∷ b'x' ∷ b'+' ∷ b'1' ∷ b'0' ∷ []) ≡ some 16
unfolding parse_int_auto
plus_sign = refl

leading_zero : parse_int_auto (b'0' ∷ b'1' ∷ b'0' ∷ []) ≡ some 10
unfolding parse_int_auto
leading_zero = refl

mismatch : exit_code_for (verify_mismatch 1 (some 2)) ≡ 2
unfolding exit_code_for
mismatch = refl
