-- ===== src/Transport/Qmk/Tunnel.antt =====
-- The tunnel as a byte source and as a transport.
use open_boot.Base.{◌+◌, false, arith}
use open_boot.Transport.{Transport}
use open_boot.Transport.Framing.{ByteSource}
use open_boot.Transport.Framing.Bridge.{framed}
use open_boot.Transport.Qmk.{ReportLink, Qmk}
use open_boot.Transport.Qmk.Pipe.{pump_byte, send_frame}
use open_boot.Transport.Qmk.Reads.{measure}
use open_boot.Transport.Qmk.ByteReads.{pump_byte-Loops, pump_byte-spends}
use open_boot.Transport.Qmk.Sends.{send_frame-Writes}

module _ (link : ReportLink) where
  abbrev pub bytes : ByteSource
  bytes = record {
    State = Qmk link.State;
    now = λ s. link.now s.link;
    next_byte = pump_byte link;
    budget = measure link;
    next-ne-fault =
        λ wait s. (pump_byte-Loops link wait (link.now s.link + wait) s (omega arith)).runs;
    next-budget = λ d wait s b before early e. pump_byte-spends link wait d s early b e;
    next-budget_le = λ d wait s before early. (pump_byte-Loops link wait d s early).bytes;
  }

  -- `recv_frame` and `holds_in_bootloader` of `QmkTransport`, with its `send_frame`.
  abbrev pub tunnel : Transport
  tunnel = framed bytes (send_frame link) (λ frame s. (send_frame-Writes link frame s).runs) false
