-- ===== src/Client.antt =====
-- tools/src/client.rs: `BootClient`, one method for each command over any transport, and the retry
-- rule. Times are in milliseconds; a sequence number is a byte that wraps.
pub mod Errors
pub mod Retry
pub mod Endings
pub mod Attempts
pub mod Outcome
pub use Errors.*
use open_boot.Base.{
  ℕ, suc, zero, ◌+◌, ◌*◌, ◌%◌, Bool, not, List, [], ◌∷◌, Option, none, some, Result, ok, err, fault,
  Bytes, get_elem?, ◌==◌, if◌then◌else◌, map_err,
}
use open_boot.Base.Actions.{Action, pure, raise, lift, and_then, ◌>>=◌, ◌>>◌}
use open_boot.Proto.Consts.{
  proto_major, proto_minor, cmd_hello, cmd_erase, cmd_write, cmd_commit, cmd_crc, cmd_boot,
  boot_app, boot_stay,
}
use open_boot.Proto.Crc32.{Crc32}
use open_boot.Proto.Frame
use open_boot.Proto.Frame.{Frame}
use open_boot.Proto.Status.{DeviceError, first, from_payload}
use open_boot.Proto.Requests.{
  hello_req_payload, erase_req_payload, write_req_payload, crc_req_payload, commit_req_payload,
  boot_req_payload, crc_resp_value,
}
use open_boot.Proto.DeviceInfo
use open_boot.Proto.DeviceInfo.{DeviceInfo}
use open_boot.Transport.{Transport, TransportError, IoError, timeout, io, xfer}

abbrev pub max_attempts : ℕ
max_attempts = 3

abbrev pub hello_timeout : ℕ
hello_timeout = 500

abbrev pub write_timeout : ℕ
write_timeout = 1000

abbrev pub crc_timeout : ℕ
crc_timeout = 3000

abbrev pub commit_timeout : ℕ
commit_timeout = 3000

abbrev pub boot_timeout : ℕ
boot_timeout = 1000

unfoldable pub erase_timeout : ℕ → ℕ
erase_timeout blocks = 200 + 30 * blocks

unfoldable pub attempts : RetryPolicy → ℕ
attempts (RetryPolicy.retry n) = n
attempts RetryPolicy.once = 1

unfoldable pub boot_wire : BootMode → ℕ
boot_wire BootMode.app = boot_app
boot_wire BootMode.stay = boot_stay

-- An answer with a status byte: the device's refusal, or the payload.
unfoldable pub settle : Command → Bytes → Result ClientError Attempt
settle name [] = err (bad_response name no_status)
settle name (status ∷ rest) = elim (from_payload (status ∷ rest)) [
  | some e ↦ err (device name e)
  | none ↦ ok (Attempt.done (status ∷ rest))
]

-- `slice.first().copied().unwrap_or(0)`
abbrev pub status_of : Bytes → ℕ
status_of [] = 0
status_of (b ∷ bs) = b

-- The `match` of `attempt` on what the transport gave.
unfoldable pub classify : Command → Result TransportError Frame → Result ClientError Attempt
unfolding settle
classify name (ok resp) =
    if Frame.is_frame_error resp
    then ok (Attempt.retry (frame_error (status_of resp.payload) (get_elem? resp.payload 1)))
    else settle name resp.payload
classify name (err timeout) = ok (Attempt.retry timed_out)
classify name (err (io e)) = err (io_failure name e)
classify name fault = fault

-- What `run` reports when every attempt asked to be repeated; with no attempt `expect` panics.
unfoldable pub give_up : Command → RetryPolicy → Option RetryReason → Result ClientError Bytes
give_up name policy none = fault
give_up name RetryPolicy.once (some last) = err (no_response name last)
give_up name (RetryPolicy.retry n) (some last) = err (exhausted name n last)

module _ (t : Transport) where
  pub record Client : Type 0 where
    pub transport : t.State
    pub seq : ℕ

  unfoldable pub new : t.State → Client
  new transport = record { transport = transport; seq = 0 }

  unfoldable pub holds_in_bootloader : Client → Bool
  holds_in_bootloader c = t.holds_in_bootloader c.transport

  -- The number to use, and the client with the next one.
  unfoldable pub next_seq : Client → ℕ × Client
  next_seq c = (c.seq, record c { seq = (c.seq + 1) % 256 })

module _ (crc : Crc32) (t : Transport) where
  unfoldable pub exchange :
      Command → ℕ → Result ClientError Frame → Action (Client t) ClientError Attempt
  exchange name ms (ok req) c =
      let (resp, transport) = xfer crc t req ms c.transport in
      (classify name resp, record c { transport = transport })
  exchange name ms (err e) c = (err e, c)
  exchange name ms fault c = (fault, c)

  unfoldable pub attempt : Command → ℕ → Bytes → ℕ → Action (Client t) ClientError Attempt
  unfolding exchange next_seq
  attempt name cmd payload ms c =
      let (seq, c') = next_seq t c in exchange name ms (Frame.new cmd seq payload) c'

  -- The `for` loop of `run`, by the attempts left; `last` is the reason of the one before.
  unfoldable pub run_loop :
      ℕ
      → Command
      → ℕ
      → Bytes
      → ℕ
      → RetryPolicy
      → Option RetryReason
      → Action (Client t) ClientError Bytes
  run_loop zero name cmd payload ms policy last c = (give_up name policy last, c)
  run_loop (suc n) name cmd payload ms policy last c =
      let c' = (attempt name cmd payload ms c).1 in
      elim (attempt name cmd payload ms c).0 [
        | ok (Attempt.done resp) ↦ (ok resp, c')
        | ok (Attempt.retry reason) ↦ run_loop n name cmd payload ms policy (some reason) c'
        | err e ↦ (err e, c')
        | fault ↦ (fault, c')
      ]

  unfoldable pub run : Command → ℕ → Bytes → ℕ → RetryPolicy → Action (Client t) ClientError Bytes
  run name cmd payload ms policy = run_loop (attempts policy) name cmd payload ms policy none

  -- What `hello` makes of the answer.
  unfoldable pub finish_hello : Bytes → Action (Client t) ClientError DeviceInfo
  finish_hello resp = do
    info ←
        lift (map_err (λ e. bad_response Command.hello (malformed_info e)) (DeviceInfo.parse resp))
    if not (info.proto_major == proto_major)
        then raise (proto_version info.proto_major info.proto_minor proto_major)
        else pure info

  unfoldable pub hello : Action (Client t) ClientError DeviceInfo
  unfolding finish_hello
  hello = do
    resp ←
        run Command.hello cmd_hello (hello_req_payload proto_major proto_minor) hello_timeout
          (RetryPolicy.retry max_attempts)
    finish_hello resp

  -- `.map(|_| ())`
  abbrev pub discard :
      Action (Client t) ClientError Bytes → Action (Client t) ClientError (Unit {0})
  discard m = do resp ← m; pure tt

  unfoldable pub erase : ℕ → ℕ → ℕ → Action (Client t) ClientError (Unit {0})
  erase addr len blocks = discard (
      run Command.erase cmd_erase (erase_req_payload addr len) (erase_timeout blocks)
        (RetryPolicy.retry max_attempts))

  unfoldable pub write : ℕ → Bytes → Action (Client t) ClientError (Unit {0})
  write addr bytes = discard (
      run Command.write cmd_write (write_req_payload addr bytes) write_timeout
        (RetryPolicy.retry max_attempts))

  unfoldable pub commit : ℕ → ℕ → Action (Client t) ClientError (Unit {0})
  commit img_len img_crc32 = discard (
      run Command.commit cmd_commit (commit_req_payload img_len img_crc32) commit_timeout
        (RetryPolicy.retry max_attempts))

  unfoldable pub crc_of : ℕ → ℕ → Action (Client t) ClientError ℕ
  crc_of addr len = do
    resp ←
        run Command.crc cmd_crc (crc_req_payload addr len) crc_timeout
          (RetryPolicy.retry max_attempts)
    lift (map_err (λ n. bad_response Command.crc (short_crc n)) (crc_resp_value resp))

  unfoldable pub boot : BootMode → Action (Client t) ClientError (Unit {0})
  boot mode =
      discard (
        run Command.boot cmd_boot (boot_req_payload (boot_wire mode)) boot_timeout RetryPolicy.once)
