-- ===== src/Tests/Tunnel.antt =====
-- A keyboard that plays reports, and the runs of the theorems of the tunnel on it.
use open_boot.Base.{
  ℕ, ◌+◌, ◌-◌, ◌≤◌, ◌<◌, ◌≡◌, ◌≢◌, ◌↔◌, refl, true, false, List, [], ◌∷◌, ◌++◌, some, Result, ok,
  err, fault, Bytes, arith,
}
use open_boot.Proto.Consts.{cmd_boot, boot_stay, cmd_hello, cmd_resp_bit}
use open_boot.Proto.Frame.{Frame, encode, decode, is_frame_error, is_response_to}
use open_boot.Proto.Requests.{hello_req_payload}
use open_boot.Proto.Frame.RoundTrip.{wire}
use open_boot.Transport.{IoError, io, xfer, accept}
use open_boot.Transport.Framing.{encode_sof, hunt, read_bytes}
use open_boot.Transport.Qmk.{
  ReportLink, Qmk, default_opts, report_of, parse_report, stream_max, tag_control, tag_stream,
  op_status,
}
use open_boot.Transport.Qmk.Pipe.{pump_byte, send_frame}
use open_boot.Transport.Qmk.Chunks.{bridged}
use open_boot.Transport.Qmk.Reports.{parse_report_iff}
use open_boot.Transport.Qmk.Handshake.{drop, probe_until_alive, with_link}
use open_boot.Transport.Qmk.Teardown.{Leaves, send, idle, drop-Leaves}
use open_boot.Transport.Qmk.Exchange.{xfer-bridged}
use open_boot.Transport.Qmk.Tunnel.{tunnel}
use open_boot.Transport.Qmk.Probing.{Logs, probe_until_alive-Logs}
use open_boot.Tests.Instances.{sum_crc}
use open_boot.Tests.Proto.{request}

-- The clock, the reports that will arrive, and those that were written.
record Keys : Type 0 where
  clock : ℕ
  incoming : List Bytes
  log : List Bytes

abbrev keys_next : ℕ → ℕ → List Bytes → List Bytes → Result IoError Bytes × Keys
keys_next wait clock [] log = (ok [], record { clock = clock + wait + 1; incoming = []; log = log })
keys_next wait clock (r ∷ rs) log = (ok r, record { clock = clock + 1; incoming = rs; log = log })

keys_next-ne-fault : (w c : ℕ) (q l : List Bytes) → (keys_next w c q l).0 ≢ fault
keys_next-ne-fault w c [] l e = cc
keys_next-ne-fault w c (b ∷ q) l e = cc

keys_next-log : (w c : ℕ) (q l : List Bytes) → (keys_next w c q l).1.log ≡ l
keys_next-log w c [] l = refl
keys_next-log w c (b ∷ q) l = refl

keys_next-clock : (w c : ℕ) (q l : List Bytes) → c < (keys_next w c q l).1.clock
keys_next-clock w c [] l = omega arith
keys_next-clock w c (b ∷ q) l = omega arith

abbrev keyboard : ReportLink
keyboard = record {
  State = Keys;
  now = λ s. s.clock;
  write_report = λ report s. (ok tt, record s { log = s.log ++ (report ∷ []) });
  read_report = λ wait s. keys_next wait s.clock s.incoming s.log;
  sleep = λ ms s. record s { clock = s.clock + ms };
  written = λ s. s.log;
  budget = λ d s. d - s.clock;
  write-ne-fault = λ report s e. cc;
  read-ne-fault = λ wait s. keys_next-ne-fault wait s.clock s.incoming s.log;
  written-write = λ report s. refl;
  written-read = λ wait s. keys_next-log wait s.clock s.incoming s.log;
  written-sleep = λ ms s. refl;
  now-write = λ report s. omega arith;
  now-read = λ wait s. omega (arith, keys_next-clock wait s.clock s.incoming s.log);
  now-sleep = λ ms s. omega arith;
  budget-write = λ d report s. omega arith;
  budget-read = λ d wait s h. omega (arith, keys_next-clock wait s.clock s.incoming s.log);
}

-- The keyboard is bridging, and the bootloader answers the first HELLO.
abbrev in_passthrough : Bytes
in_passthrough = report_of tag_control (op_status ∷ 0 ∷ 4 ∷ 10 ∷ 0 ∷ 0 ∷ 0 ∷ 0 ∷ 0 ∷ [])

abbrev hello_answer : Frame
hello_answer = record { cmd = cmd_hello + cmd_resp_bit; seq = 255; payload = 0 ∷ [] }

abbrev answering : Keys
answering = record {
  clock = 20;
  incoming = in_passthrough ∷ report_of tag_stream (encode_sof (wire sum_crc hello_answer)) ∷ [];
  log = [];
}

opens : (with_link keyboard sum_crc default_opts answering).0 ≡ ok tt
unfolding with_link encode hello_req_payload hunt pump_byte read_bytes accept decode is_frame_error
    is_response_to
opens = refl

abbrev tunnel_open : Qmk Keys
tunnel_open = record {
  link = answering;
  rx = [];
  settled = 0;
  passthrough = true;
  entered = true;
  booted = false;
}

abbrev stay_frame : Bytes
stay_frame = wire sum_crc (record { cmd = cmd_boot; seq = 4; payload = boot_stay ∷ [] })

abbrev behind_boot : Qmk Keys
behind_boot =
    (send_frame keyboard stay_frame (with_link keyboard sum_crc default_opts answering).1).1

drop-Leaves_example :
    ((drop keyboard sum_crc behind_boot).0 ≡ ok tt)
    × Leaves keyboard sum_crc behind_boot (stay_frame ∷ [])
drop-Leaves_example =
    drop-Leaves keyboard sum_crc default_opts answering (omega arith) (omega arith) opens
      (send stay_frame idle)

parse_report_iff_example : (parse_report (1 ∷ 2 ∷ 7 ∷ 8 ∷ 0 ∷ []) ≡ some (1, 7 ∷ 8 ∷ [])) ↔ (
    (rest : Bytes) × ((let b : Bytes = 1 ∷ 2 ∷ 7 ∷ 8 ∷ 0 ∷ [] in b)
      ≡ 1 ∷ 2 ∷ ((7 ∷ 8 ∷ []) ++ rest))
    × (2 ≤ stream_max))
parse_report_iff_example = parse_report_iff (1 ∷ 2 ∷ 7 ∷ 8 ∷ 0 ∷ []) 1 (7 ∷ 8 ∷ [])

xfer-bridged_example :
    (reports : List Bytes) × (rest : Bytes) × ((xfer sum_crc
        (tunnel keyboard)
        request
        40
        (tunnel_open, [])).1.0.link.log
      ≡ [] ++ reports)
    × (bridged reports ++ rest ≡ encode_sof (wire sum_crc request))
    × (((e : IoError)
          → (xfer sum_crc (tunnel keyboard) request 40 (tunnel_open, [])).0 ≢ err (io e))
        → rest ≡ [])
xfer-bridged_example = xfer-bridged keyboard sum_crc request 40 tunnel_open [] (omega arith)

probe_until_alive-Logs_example :
    Logs keyboard sum_crc
      (255 - 70)
      (probe_until_alive keyboard sum_crc 10 default_opts tunnel_open)
      tunnel_open
probe_until_alive-Logs_example =
    probe_until_alive-Logs keyboard sum_crc 10 70 default_opts tunnel_open (omega arith)
      (omega arith) (omega arith)
