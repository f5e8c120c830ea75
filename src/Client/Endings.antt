-- ===== src/Client/Endings.antt =====
-- The errors that `run` ends in, from what the link and the device gave.
use open_boot.Base.{
  ℕ, zero, suc, ◌+◌, ◌%◌, ◌≤◌, ◌<◌, ◌≡◌, ◌≢◌, refl, ap, ◌∙◌, false, [], ◌∷◌, Option, none, some,
  Result, ok, err, Bytes, length, arith,
}
use open_boot.Proto.Consts.{max_payload, ok as status_ok}
use open_boot.Proto.Crc32.{Crc32}
use open_boot.Proto.Frame
use open_boot.Proto.Frame.{Frame}
use open_boot.Proto.Status.{first, from_payload}
use open_boot.Transport.{Transport, TransportError, IoError, io, xfer}
use open_boot.Client.{
  Client, Command, ClientError, exhausted, no_response, device, bad_response, no_status, io_failure,
  RetryPolicy, RetryReason, settle, classify, attempts, run, give_up,
}
use open_boot.Client.Attempts.{request, attempt_lem}
use open_boot.Client.Retry.{Retries, no_more, once_more, run_err, run-Retries}

-- What an exchange can end in that no repetition helps against, and the error that it means: the link
-- failed, the answer is empty, or its first byte is a status other than OK.
pub data Refuses (name : Command) : Result TransportError Frame → ClientError → Type 0 where
  link_failed : (e : IoError) → Refuses name (err (io e)) (io_failure name e)
  empty_answer :
      (f : Frame)
      → Frame.is_frame_error f ≡ false
      → f.payload ≡ []
      → Refuses name (ok f) (bad_response name no_status)
  device_refused :
      (f : Frame) (status : ℕ) (rest : Bytes)
      → Frame.is_frame_error f ≡ false
      → f.payload ≡ status ∷ rest
      → status ≢ status_ok
      → Refuses name (ok f) (device name (record { status = status; detail = first rest }))

-- What giving up means under a policy: the reason of the last attempt, and how many there were.
abbrev pub exhaustion : Command → RetryPolicy → RetryReason → ClientError
exhaustion name (RetryPolicy.retry n) reason = exhausted name n reason
exhaustion name RetryPolicy.once reason = no_response name reason

classify-Refuses :
    (name : Command) (r : Result TransportError Frame) (x : ClientError)
    → Refuses name r x
    → classify name r ≡ err x
unfolding classify settle from_payload
classify-Refuses name _ _ (link_failed e) = refl
classify-Refuses name _ _ (empty_answer f plain empty) = rw (plain, empty) refl
classify-Refuses name _ _ (device_refused f status rest plain filled bad) =
    rw (plain, filled) (ground arith)

module _ (crc : Crc32) (t : Transport) (name : Command) (cmd : ℕ) (payload : Bytes) (ms : ℕ)
    (policy : RetryPolicy) where
  -- For a payload within the limit: after k attempts that ask to be repeated, with k below the
  -- policy's number, an exchange that ends in a failure of the link, or in an answer that is no
  -- frame-error report and is empty or has a status other than OK, is the last: `run` ends with the
  -- error that names it, in the state behind that exchange.
  pub run_refused :
      (k : ℕ) {last : Option RetryReason} {c c' : Client t} (x : ClientError)
      → length payload ≤ max_payload
      → k < attempts policy
      → Retries crc t name cmd payload ms policy k none c last c'
      → Refuses name (xfer crc t (request cmd c'.seq payload) ms c'.transport).0 x
      → run crc t name cmd payload ms policy c ≡ (
        err x,
        record {
          transport = (xfer crc t (request cmd c'.seq payload) ms c'.transport).1;
          seq = (c'.seq + 1) % 256;
        },
      )
  run_refused k {c' = c'} x fits h rs refuses =
      let one = attempt_lem crc t name cmd payload ms fits c' in
      let error = ap (λ r. r.0) one ∙ classify-Refuses name _ x refuses in
      run_err crc t name cmd payload ms policy k x h rs error ∙ ap (λ r. (err x, r.1)) one

  Retries-some :
      (k : ℕ) {last last' : Option RetryReason} {c c' : Client t}
      → Retries crc t name cmd payload ms policy (suc k) last c last' c'
      → (reason : RetryReason) × (last' ≡ some reason)
  Retries-some zero (once_more reason e no_more) = (reason, refl)
  Retries-some (suc k) (once_more reason e rs) = Retries-some k rs

  give_up-exhaustion :
      (last : Option RetryReason) (reason : RetryReason)
      → last ≡ some reason
      → give_up name policy last ≡ err (exhaustion name policy reason)
  unfolding give_up
  give_up-exhaustion last reason e = rw e (by_policy policy)
    where
      by_policy : (p : RetryPolicy) → give_up name p (some reason) ≡ err (exhaustion name p reason)
      by_policy (RetryPolicy.retry n) = refl
      by_policy RetryPolicy.once = refl

  -- When all attempts of the policy, of which there is one at least, ask to be repeated, `run` fails
  -- with the reason of the last one: under a policy of n attempts the error says that n attempts were
  -- made, under the policy of a single one that there is no response.
  pub run_gives_up :
      {last : Option RetryReason} {c c' : Client t}
      → 1 ≤ attempts policy
      → Retries crc t name cmd payload ms policy (attempts policy) none c last c'
      → (reason : RetryReason) × (last ≡ some reason)
        × (run crc t name cmd payload ms policy c ≡ (err (exhaustion name policy reason), c'))
  run_gives_up {last} {c} {c'} h rs =
      let (reason, e) = ends (attempts policy) h rs in
      (
        reason,
        e,
        run-Retries crc t name cmd payload ms policy rs
            ∙ ap (λ r. (r, c')) (give_up-exhaustion last reason e),
      )
    where
      ends :
          (n : ℕ)
          → 1 ≤ n
          → Retries crc t name cmd payload ms policy n none c last c'
          → (reason : RetryReason) × (last ≡ some reason)
      ends zero h rs = absurd (omega arith)
      ends (suc n) h rs = Retries-some n rs
