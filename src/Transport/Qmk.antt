-- ===== src/Transport/Qmk.antt =====
-- tools/src/transport/qmk.rs: the tunnel through a keyboard. Here are the reports, the options, the
-- answers of the keyboard and the state; the children have what reads and writes.
pub mod Pipe
pub mod Reads
pub mod ByteReads
pub mod Chunks
pub mod Sends
pub mod Reports
pub mod Tunnel
pub mod Handshake
pub mod Entering
pub mod Acknowledged
pub mod Leaving
pub mod Opening
pub mod OffAir
pub mod WithLink
pub mod Teardown
pub mod Probing
pub mod Exchange
use open_boot.Base.{
  ℕ, zero, suc, ◌+◌, ◌-◌, ◌^◌, ◌≤◌, ◌<◌, ◌≡◌, ◌≢◌, Bool, true, false, ◌&&◌, ◌||◌, not, List, [],
  ◌∷◌, ◌++◌, Option, none, some, Result, ok, err, fault, Bytes, length, take, drop, get_or, ltb,
  leb, ◌==◌, if◌then◌else◌, replicate, u16_le, u32_le, u32_of,
}
use open_boot.Base.Actions.{Action}
use open_boot.Transport.{IoError}

abbrev pub report_len : ℕ
report_len = 64

abbrev pub stream_max : ℕ
stream_max = 62

abbrev pub tag_control : ℕ
tag_control = 0

abbrev pub tag_stream : ℕ
tag_stream = 1

abbrev pub op_enter : ℕ
op_enter = 1

abbrev pub op_status : ℕ
op_status = 2

abbrev pub op_exit : ℕ
op_exit = 3

abbrev pub enter_magic : ℕ
enter_magic = 0x4F424231

abbrev pub enter_flag_force : ℕ
enter_flag_force = 1

abbrev pub st_settling : ℕ
st_settling = 3

abbrev pub st_passthru : ℕ
st_passthru = 4

abbrev pub st_error : ℕ
st_error = 5

-- The texts of `describe_bridge_status`, one constructor each.
pub data BridgeText : Type 0 where
  fine bad_magic wrong_state bad_argument busy never_acknowledged unknown_error : BridgeText

abbrev pub obb_no_ack : ℕ
obb_no_ack = 5

unfoldable pub describe_bridge_status : ℕ → BridgeText
describe_bridge_status status =
    if status == 0
    then fine
    else if status == 1
    then bad_magic
    else if status == 2
    then wrong_state
    else if status == 3
    then bad_argument
    else if status == 4
    then busy
    else if status == obb_no_ack
    then never_acknowledged
    else unknown_error

-- Durations are in milliseconds.
pub record QmkOpts : Type 0 where
  pub settle_hint_ms : ℕ
  pub settle_min : ℕ
  pub probe_timeout : ℕ
  pub probe_gap : ℕ
  pub enter_deadline : ℕ
  pub enter_ack_timeout : ℕ
  pub status_poll : ℕ

abbrev pub default_opts : QmkOpts
default_opts = record {
  settle_hint_ms = 1500;
  settle_min = 1500;
  probe_timeout = 300;
  probe_gap = 100;
  enter_deadline = 7000;
  enter_ack_timeout = 1500;
  status_poll = 50;
}

-- The trait `ReportLink`, with the clock. `read_report` gives the bytes it read, none at a timeout.
-- `written` and `budget` are no part of the trait: every report handed over, also where the write
-- fails, and a bound on the reads that can still begin before a deadline.
pub record ReportLink : Type 1 where
  pub State : Type 0
  pub now : State → ℕ
  pub write_report : Bytes → Action State IoError (Unit {0})
  pub read_report : ℕ → Action State IoError Bytes
  pub sleep : ℕ → State → State
  pub written : State → List Bytes
  pub budget : ℕ → State → ℕ
  pub write-ne-fault : (report : Bytes) (s : State) → (write_report report s).0 ≢ fault
  pub read-ne-fault : (wait : ℕ) (s : State) → (read_report wait s).0 ≢ fault
  pub written-write :
      (report : Bytes) (s : State) → written (write_report report s).1 ≡ written s ++ (report ∷ [])
  pub written-read : (wait : ℕ) (s : State) → written (read_report wait s).1 ≡ written s
  pub written-sleep : (ms : ℕ) (s : State) → written (sleep ms s) ≡ written s
  pub now-write : (report : Bytes) (s : State) → now s ≤ now (write_report report s).1
  pub now-read : (wait : ℕ) (s : State) → now s ≤ now (read_report wait s).1
  pub now-sleep : (ms : ℕ) (s : State) → now s + ms ≤ now (sleep ms s)
  pub budget-write :
      (deadline : ℕ) (report : Bytes) (s : State)
      → budget deadline (write_report report s).1 ≤ budget deadline s
  pub budget-read :
      (deadline wait : ℕ) (s : State)
      → now s < deadline
      → budget deadline (read_report wait s).1 < budget deadline s

-- A report with its tag, the length of its payload, the payload and zeros. Every caller has a payload
-- of at most 62 bytes.
unfoldable pub report_of : ℕ → Bytes → Bytes
report_of tag payload =
    tag ∷ length payload ∷ (payload ++ replicate (stream_max - length payload) 0)

-- What `pump` reads out of a report: its tag and payload, or nothing where it is malformed.
unfoldable pub parse_report : Bytes → Option (ℕ × Bytes)
parse_report buf =
    let len = get_or buf 1 0 in
    if ltb (length buf) 2
    then none
    else if ltb stream_max len || ltb (length buf - 2) len
    then none
    else some (get_or buf 0 0, take len (drop 2 buf))

pub record BridgeStatus : Type 0 where
  pub state : ℕ
  pub elapsed_ms : ℕ
  pub last_error : ℕ

unfoldable pub parse_status : Bytes → Option BridgeStatus
parse_status payload =
    if ltb (length payload) 9 || not (get_or payload 0 0 == op_status)
    then none
    else some (record {
      state = get_or payload 2 0;
      elapsed_ms =
          u32_of (get_or payload 3 0) (get_or payload 4 0) (get_or payload 5 0)
            (get_or payload 6 0);
      last_error = get_or payload 8 0;
    })

-- `checked_sub`: the clock starts at 0.
unfoldable pub anchor_from_elapsed : ℕ → ℕ → ℕ
anchor_from_elapsed now elapsed_ms = if leb elapsed_ms now then now - elapsed_ms else now

pub data Rx : Type 0 where
  stream : ℕ → Rx
  control : Bytes → Rx
  ignored : Rx

-- The errors, told apart by their texts.
pub data QmkError : Type 0 where
  io : IoError → QmkError
  no_answer never_acked bootloader_silent : QmkError
  refused error_state : BridgeText → QmkError

pub data EnterError : Type 0 where
  no_ack : EnterError
  other : QmkError → EnterError

-- What `enter` makes of one control payload: an answer, with the time since the acknowledgement, or
-- to go on.
abbrev pub enter_answer : ℕ → Result EnterError ℕ
enter_answer code =
    if code == obb_no_ack then err no_ack else err (other (refused (describe_bridge_status code)))

abbrev pub status_answer : Option BridgeStatus → Option (Result EnterError ℕ)
status_answer none = none
status_answer (some status) =
    if (status.state == st_settling) || (status.state == st_passthru)
    then some (ok status.elapsed_ms)
    else if status.state == st_error
    then some (
        if status.last_error == obb_no_ack
        then err no_ack
        else err (other (error_state (describe_bridge_status status.last_error))))
    else none

unfoldable pub verdict : Bytes → Option (Result EnterError ℕ)
unfolding parse_status describe_bridge_status
verdict payload =
    let op = get_or payload 0 0 in
    if op == op_enter && leb 2 (length payload) && not (get_or payload 1 0 == 0)
    then some (enter_answer (get_or payload 1 0))
    else if op == op_status
    then status_answer (parse_status payload)
    else none

-- `QmkTransport`, less the path that is only shown.
pub record Qmk (Link : Type 0) : Type 0 where
  pub link : Link
  pub rx : Bytes
  pub settled : ℕ
  pub passthrough : Bool
  pub entered : Bool
  pub booted : Bool
