-- ===== src/Cli.antt =====
-- tools/src/main.rs: the numbers and image specifications of the command line, which transport it
-- opens, and the exit code. What clap parses is a record.
pub mod Opening
pub mod Numbers
use open_boot.Base.{
  ℕ, zero, suc, ◌+◌, ◌^◌, ◌≡◌, Bool, true, false, ◌&&◌, ◌||◌, List, [], ◌∷◌, ◌++◌, Option, none,
  some, Result, ok, err, fault, ltb, leb, ◌==◌, if◌then◌else◌,
}
use open_boot.Text.{Text, trim, from_str_radix}
use open_boot.Transport.Hid.{UsageFilter}
use open_boot.Flows.Errors.{FlowError, verify_mismatch}

-- `strip_prefix` of a zero and one of two letters.
abbrev pub strip_prefix : ℕ → ℕ → Text → Option Text
strip_prefix lower upper [] = none
strip_prefix lower upper (c ∷ []) = none
strip_prefix lower upper (c ∷ d ∷ rest) =
    if c == b'0' && (d == lower || d == upper) then some rest else none

-- `from_str_radix` of what is behind the prefix, or else what follows.
abbrev pub radix_or : ℕ → ℕ → Option Text → Option ℕ → Option ℕ
radix_or bound radix none other = other
radix_or bound radix (some digits) other = from_str_radix bound radix digits

unfoldable pub parse_int_auto : Text → Option ℕ
unfolding trim from_str_radix
parse_int_auto s =
    let t = trim s in
    radix_or (2 ^ 64) 16 (strip_prefix b'x' b'X' t) (
      radix_or (2 ^ 64) 8 (strip_prefix b'o' b'O' t)
        (radix_or (2 ^ 64) 2 (strip_prefix b'b' b'B' t) (from_str_radix (2 ^ 64) 10 t)))

pub data IntError : Type 0 where
  invalid out_of_range : IntError

abbrev pub fit : ℕ → Option ℕ → Result IntError ℕ
fit bound none = err invalid
fit bound (some v) = if ltb v bound then ok v else err out_of_range

unfoldable pub parse_u16_auto : Text → Result IntError ℕ
unfolding parse_int_auto
parse_u16_auto s = fit (2 ^ 16) (parse_int_auto s)

unfoldable pub parse_u32_auto : Text → Result IntError ℕ
unfolding parse_int_auto
parse_u32_auto s = fit (2 ^ 32) (parse_int_auto s)

unfoldable pub parse_u32 : Text → Option ℕ
unfolding trim from_str_radix
parse_u32 s =
    let t = trim s in radix_or (2 ^ 32) 16 (strip_prefix b'x' b'X' t) (from_str_radix (2 ^ 32) 10 t)

pub data SpecError : Type 0 where
  no_path no_base not_an_address : SpecError

-- `rsplit_once('@')`: around the last one.
abbrev pub after_split : ℕ → Text → Option (Text × Text) → Option (Text × Text)
after_split c cs (some (path, base)) = some (c ∷ path, base)
after_split c cs none = if c == b'@' then some ([], cs) else none

unfoldable pub rsplit_at : Text → Option (Text × Text)
rsplit_at [] = none
rsplit_at (c ∷ cs) = after_split c cs (rsplit_at cs)

abbrev pub with_base : Text → Option ℕ → Result SpecError (Text × Option ℕ)
with_base path none = err not_an_address
with_base path (some addr) = ok (path, some addr)

abbrev pub is_empty : Text → Bool
is_empty [] = true
is_empty (c ∷ cs) = false

unfoldable pub spec_of : Text → Option (Text × Text) → Result SpecError (Text × Option ℕ)
unfolding parse_u32
spec_of spec none = ok (spec, none)
spec_of spec (some (path, base)) =
    if is_empty path
    then err no_path
    else if is_empty base
    then err no_base
    else with_base path (parse_u32 base)

unfoldable pub parse_image_spec : Text → Result SpecError (Text × Option ℕ)
unfolding rsplit_at spec_of
parse_image_spec spec = spec_of spec (rsplit_at spec)

pub data TransportArg : Type 0 where
  usb uart qmk : TransportArg

pub record Cli : Type 0 where
  pub transport : Option TransportArg
  pub port : Option Text
  pub serial : Option Text
  pub vid : Option ℕ
  pub pid : Option ℕ
  pub usage_page : Option ℕ
  pub usage : Option ℕ

pub data CliError : Type 0 where
  port_with_usb serial_with_uart port_with_qmk port_with_serial : CliError
  usage_without_qmk port_is_uart uart_needs_port id_with_uart qmk_needs_id : CliError

unfoldable pub resolve_transport_kind :
    Option TransportArg → Bool → Bool → Result CliError TransportArg
resolve_transport_kind (some usb) true has_serial = err port_with_usb
resolve_transport_kind (some usb) false has_serial = ok usb
resolve_transport_kind (some uart) has_port true = err serial_with_uart
resolve_transport_kind (some uart) has_port false = ok uart
resolve_transport_kind (some qmk) true has_serial = err port_with_qmk
resolve_transport_kind (some qmk) false has_serial = ok qmk
resolve_transport_kind none true true = err port_with_serial
resolve_transport_kind none true false = ok uart
resolve_transport_kind none false has_serial = ok usb

abbrev pub is_some : {A : Type 0} → Option A → Bool
is_some none = false
is_some (some a) = true

abbrev pub unwrap_or : {A : Type 0} → Option A → A → A
unwrap_or none a = a
unwrap_or (some b) a = b

abbrev pub default_vid : ℕ
default_vid = 0x1209

abbrev pub default_pid : ℕ
default_pid = 1

abbrev pub tunnel_usage_page : ℕ
tunnel_usage_page = 0xff61

abbrev pub tunnel_usage : ℕ
tunnel_usage = 0x62

-- The call that `open_transport` makes: `HidTransport::open`, `UartTransport::open` or
-- `QmkTransport::open`, with its arguments.
pub data Opens : Type 0 where
  opens_hid : ℕ → ℕ → Option Text → Opens
  opens_uart : Text → Opens
  opens_qmk : ℕ → ℕ → Option Text → UsageFilter → Opens

abbrev pub open_uart : Option Text → Bool → Result CliError Opens
open_uart none has_id = err uart_needs_port
open_uart (some port) true = err id_with_uart
open_uart (some port) false = ok (opens_uart port)

abbrev pub open_qmk : Cli → Option ℕ → Option ℕ → Result CliError Opens
open_qmk cli (some vid) (some pid) = ok (
    opens_qmk vid pid cli.serial (record {
      page = unwrap_or cli.usage_page tunnel_usage_page;
      usage = unwrap_or cli.usage tunnel_usage;
    }))
open_qmk cli none pid = err qmk_needs_id
open_qmk cli (some vid) none = err qmk_needs_id

abbrev pub is_qmk : TransportArg → Bool
is_qmk usb = false
is_qmk uart = false
is_qmk qmk = true

abbrev pub open_kind : Cli → TransportArg → Result CliError Opens
open_kind cli usb =
    if is_some cli.port
    then err port_is_uart
    else ok (opens_hid (unwrap_or cli.vid default_vid) (unwrap_or cli.pid default_pid) cli.serial)
open_kind cli uart = open_uart cli.port (is_some cli.vid || is_some cli.pid)
open_kind cli qmk = open_qmk cli cli.vid cli.pid

abbrev pub guarded : Cli → Result CliError TransportArg → Result CliError Opens
guarded cli (ok kind) =
    if (if is_qmk kind then false else is_some cli.usage_page || is_some cli.usage)
    then err usage_without_qmk
    else open_kind cli kind
guarded cli (err e) = err e
guarded cli fault = fault

unfoldable pub open_transport : Cli → Result CliError Opens
unfolding resolve_transport_kind
open_transport cli =
    guarded cli (resolve_transport_kind cli.transport (is_some cli.port) (is_some cli.serial))

-- The errors of `run`, as far as the exit code tells them apart.
unfoldable pub exit_code_for : FlowError → ℕ
exit_code_for (verify_mismatch local device) = 2
exit_code_for e = 1
