-- ===== src/Client/Outcome.antt =====
-- What a command that succeeds has seen: an answer with status OK, and after HELLO a usable device.
use open_boot.Base.{
  ℕ, zero, suc, length, ◌≤◌, ◌≡◌, ◌≢◌, refl, [], ◌∷◌, Option, none, some, Result, ok, err, fault,
  Bytes, arith,
}
use open_boot.Base.Actions.{and_then}
use open_boot.Proto.Consts.{ok as status_ok, hello_resp_len, proto_major, proto_minor, cmd_hello}
use open_boot.Proto.Crc32.{Crc32}
use open_boot.Proto.Frame
use open_boot.Proto.Status.{first, from_payload}
use open_boot.Proto.Requests.{hello_req_payload}
use open_boot.Proto.DeviceInfo
use open_boot.Proto.DeviceInfo.{DeviceInfo, IsUsable}
use open_boot.Proto.DeviceInfo.Parse.{parse-IsUsable}
use open_boot.Transport.{Transport, TransportError, timeout, io}
use open_boot.Client.{
  Client, Command, ClientError, timed_out, attempts, finish_hello, RetryPolicy, RetryReason,
  Attempt, settle, classify, exchange, attempt, give_up, run_loop, run, hello, hello_timeout,
  max_attempts,
}

settle-done :
    (name : Command) (payload resp : Bytes)
    → settle name payload ≡ ok (Attempt.done resp)
    → first resp ≡ some status_ok
unfolding settle from_payload
settle-done name [] resp h = cc
settle-done name (b ∷ bs) resp h = ground arith

classify-done :
    (name : Command) (r : Result TransportError Frame.Frame) (resp : Bytes)
    → classify name r ≡ ok (Attempt.done resp)
    → first resp ≡ some status_ok
classify-done name (ok f) resp h =
    unfold classify in ground (arith, settle-done name f.payload resp)
classify-done name (err timeout) resp h = unfold classify in cc
classify-done name (err (io e)) resp h = unfold classify in cc
classify-done name fault resp h = unfold classify in cc

abbrev reason_of : Result ClientError Attempt → RetryReason
reason_of (ok (Attempt.retry reason)) = reason
reason_of _ = timed_out

module _ (crc : Crc32) (t : Transport) where
  exchange-done :
      (name : Command) (ms : ℕ) (r : Result ClientError Frame.Frame) (c : Client t) (resp : Bytes)
      → (exchange crc t name ms r c).0 ≡ ok (Attempt.done resp)
      → first resp ≡ some status_ok
  unfolding exchange
  exchange-done name ms (ok req) c resp h = classify-done name _ resp h
  exchange-done name ms (err e) c resp h = cc
  exchange-done name ms fault c resp h = cc

  attempt-done :
      (name : Command) (cmd : ℕ) (payload : Bytes) (ms : ℕ) (c : Client t) (resp : Bytes)
      → (attempt crc t name cmd payload ms c).0 ≡ ok (Attempt.done resp)
      → first resp ≡ some status_ok
  unfolding attempt
  attempt-done name cmd payload ms c resp h = exchange-done name ms _ _ resp h

  give_up-ne-ok :
      (name : Command) (policy : RetryPolicy) (last : Option RetryReason) (resp : Bytes)
      → give_up name policy last ≢ ok resp
  unfolding give_up
  give_up-ne-ok name policy none resp h = cc
  give_up-ne-ok name RetryPolicy.once (some r) resp h = cc
  give_up-ne-ok name (RetryPolicy.retry n) (some r) resp h = cc

  run_loop-ok :
      (n : ℕ) (name : Command) (cmd : ℕ) (payload : Bytes) (ms : ℕ) (policy : RetryPolicy)
      (last : Option RetryReason) (c : Client t) (resp : Bytes)
      → (run_loop crc t n name cmd payload ms policy last c).0 ≡ ok resp
      → first resp ≡ some status_ok
  unfolding run_loop
  run_loop-ok zero name cmd payload ms policy last c resp h =
      absurd (give_up-ne-ok name policy last resp h)
  run_loop-ok (suc n) name cmd payload ms policy last c resp h = ground (
    arith,
    attempt-done name cmd payload ms c resp,
    run_loop-ok n name cmd payload ms policy
        (some (reason_of (attempt crc t name cmd payload ms c).0))
        (attempt crc t name cmd payload ms c).1 resp,
  )

  -- A command succeeds only on an answer whose status byte is OK.
  pub run-ok :
      (name : Command) (cmd : ℕ) (payload : Bytes) (ms : ℕ) (policy : RetryPolicy) (c : Client t)
      (resp : Bytes)
      → (run crc t name cmd payload ms policy c).0 ≡ ok resp
      → first resp ≡ some status_ok
  unfolding run
  run-ok name cmd payload ms policy c resp h =
      run_loop-ok (attempts policy) name cmd payload ms policy none c resp h

  abbrev pub greet : Client t → Result ClientError Bytes × Client t
  greet =
      run crc t Command.hello cmd_hello (hello_req_payload proto_major proto_minor) hello_timeout
        (RetryPolicy.retry max_attempts)

  -- A successful HELLO gives a device that speaks the supported major version and reports a usable
  -- geometry; its answer had the full length at least and status OK, and is what the description is read from.
  pub hello-IsUsable :
      (c : Client t) (info : DeviceInfo)
      → (hello crc t c).0 ≡ ok info
      → (info.proto_major ≡ proto_major)
        × IsUsable info
        × ((resp : Bytes) × ((greet c).0 ≡ ok resp)
            × (first resp ≡ some status_ok)
            × (hello_resp_len ≤ length resp)
            × (info ≡ DeviceInfo.read_fields resp))
  unfolding hello
  hello-IsUsable c info h = read (greet c).0 (greet c).1 refl h
    where
      read :
          (r : Result ClientError Bytes) (s : Client t)
          → (greet c).0 ≡ r
          → (and_then (finish_hello crc t) r s).0 ≡ ok info
          → (info.proto_major ≡ proto_major)
            × IsUsable info
            × ((resp : Bytes) × ((greet c).0 ≡ ok resp)
                × (first resp ≡ some status_ok)
                × (hello_resp_len ≤ length resp)
                × (info ≡ DeviceInfo.read_fields resp))
      read (err e) s g k = cc
      read fault s g k = cc
      read (ok resp) s g k =
          let parsed : (DeviceInfo.parse resp ≡ ok info) × (info.proto_major ≡ proto_major) =
            ground arith in
          let (long, same, usable) = parse-IsUsable resp info parsed.0 in
          (parsed.1, usable, (resp, g, run-ok _ _ _ _ _ c resp g, long, same))
