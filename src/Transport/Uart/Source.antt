-- ===== src/Transport/Uart/Source.antt =====
-- The port as a byte source, and `UartTransport` as a transport.
use open_boot.Base.{ℕ, ◌≤◌, ◌<◌, ◌≡◌, ◌≢◌, max, true, Option, some, Result, ok, fault, arith}
use open_boot.Text.{Text}
use open_boot.Transport.{Transport}
use open_boot.Transport.Framing.{ByteSource}
use open_boot.Transport.Framing.Bridge.{framed}
use open_boot.Transport.Uart.{SerialPort, ReadError, received, read_byte, send_frame}
use open_boot.Transport.Uart.Send.{send_frame-written}

module _ (port : SerialPort) where
  received-ne-fault : (r : Result ReadError (Option ℕ)) → r ≢ fault → received r ≢ fault
  received-ne-fault r h e = ground arith

  module _ (wait : ℕ) (s : port.State) where
    abbrev asked : port.State
    asked = (port.set_timeout (max wait 1) s).1

    pub read_byte-ne-fault : (read_byte port wait s).0 ≢ fault
    unfolding read_byte
    read_byte-ne-fault e =
        ground (arith, port.set_timeout-ne-fault (max wait 1) s, port.read_one-ne-fault asked)

    pub read_byte-budget :
        (d b : ℕ)
        → port.now s < d
        → (read_byte port wait s).0 ≡ ok (some b)
        → port.budget d (read_byte port wait s).1 < port.budget d s
    unfolding read_byte
    read_byte-budget d b h e = ground (
      arith,
      port.now-set_timeout (max wait 1) s,
      port.budget-set_timeout d (max wait 1) s,
      port.read_one-budget d asked b,
    )

    pub read_byte-budget_le :
        (d : ℕ) → port.now s < d → port.budget d (read_byte port wait s).1 ≤ port.budget d s
    unfolding read_byte
    read_byte-budget_le d h = ground (
      arith,
      port.now-set_timeout (max wait 1) s,
      port.budget-set_timeout d (max wait 1) s,
      port.read_one-budget_le d asked,
    )

  -- The port as a byte source, and `UartTransport` as a transport.
  abbrev pub bytes : ByteSource
  bytes = record {
    State = port.State;
    now = port.now;
    next_byte = read_byte port;
    budget = port.budget;
    next-ne-fault = λ wait s. read_byte-ne-fault wait s;
    next-budget = λ d wait s b before early e. read_byte-budget wait s d b before e;
    next-budget_le = λ d wait s before early. read_byte-budget_le wait s d before;
  }

  abbrev pub uart : Option Text → Transport
  uart chunk =
      framed bytes (send_frame port chunk) (λ frame s. (send_frame-written port chunk frame s).0)
        true
