-- ===== src/Cli/Opening.antt =====
-- What the command line opens.
use open_boot.Base.{◌≡◌, ◌↔◌, ◌⊎◌, none, some, ok, arith}
use open_boot.Cli.{
  Cli, usb, uart, qmk, Opens, opens_hid, opens_uart, opens_qmk, resolve_transport_kind,
  open_transport, unwrap_or, default_vid, default_pid, tunnel_usage_page, tunnel_usage,
}

-- What the options ask for, read off the call.
abbrev pub AsksFor : Cli → Opens → Type 0
AsksFor cli (opens_hid vid pid serial) =
    ((cli.transport ≡ none) ⊎ (cli.transport ≡ some usb))
    × (cli.port ≡ none)
    × (cli.usage_page ≡ none)
    × (cli.usage ≡ none)
    × (vid ≡ unwrap_or cli.vid default_vid)
    × (pid ≡ unwrap_or cli.pid default_pid)
    × (serial ≡ cli.serial)
AsksFor cli (opens_uart port) =
    ((cli.transport ≡ none) ⊎ (cli.transport ≡ some uart))
    × (cli.port ≡ some port)
    × (cli.serial ≡ none)
    × (cli.usage_page ≡ none)
    × (cli.usage ≡ none)
    × (cli.vid ≡ none)
    × (cli.pid ≡ none)
AsksFor cli (opens_qmk vid pid serial wanted) =
    (cli.transport ≡ some qmk)
    × (cli.port ≡ none)
    × (cli.vid ≡ some vid)
    × (cli.pid ≡ some pid)
    × (serial ≡ cli.serial)
    × (wanted.page ≡ unwrap_or cli.usage_page tunnel_usage_page)
    × (wanted.usage ≡ unwrap_or cli.usage tunnel_usage)

opens_only : (cli : Cli) (o : Opens) → open_transport cli ≡ ok o → AsksFor cli o
unfolding open_transport resolve_transport_kind
opens_only cli (opens_hid vid pid serial) e = ground arith
opens_only cli (opens_uart port) e = ground arith
opens_only cli (opens_qmk vid pid serial wanted) e = ground arith

opens_all : (cli : Cli) (o : Opens) → AsksFor cli o → open_transport cli ≡ ok o
unfolding open_transport resolve_transport_kind
opens_all cli (opens_hid vid pid serial) (t, p, up, us, v, d, s) = ground arith
opens_all cli (opens_uart port) (t, p, s, up, us, v, d) = ground arith
opens_all cli (opens_qmk vid pid serial wanted) (t, p, v, d, s, up, us) = ground arith

-- The command line opens a transport exactly where the options ask for it, and for no other: the USB
-- transport without a port or a tunnel's usage, the UART transport with a port, without a serial
-- number or USB IDs, and the tunnel only by name, with the IDs of the keyboard, and without a port.
pub open_transport_iff : (cli : Cli) (o : Opens) → (open_transport cli ≡ ok o) ↔ AsksFor cli o
open_transport_iff cli o = (opens_only cli o, opens_all cli o)
