-- ===== src/Client/Retry.antt =====
-- The retry rule of `run`: how many frames it sends, which ones, and when it stops.
use open_boot.Base.{
  ℕ, zero, suc, ◌+◌, ◌-◌, ◌%◌, ◌≤◌, ◌<◌, ◌≡◌, ◌≢◌, ◌⊎◌, inl, inr, min, refl, ap, sym, ◌∙◌, List, [],
  ◌∷◌, ◌++◌, append_assoc, append-nil, Option, none, some, Result, ok, err, fault, Bytes, length,
  arith,
}
use open_boot.Base.Actions.{pure, and_then}
use open_boot.Proto.Consts.{max_payload, cmd_boot}
use open_boot.Proto.Requests.{boot_req_payload}
use open_boot.Proto.Crc32.{Crc32}
use open_boot.Proto.Frame.RoundTrip.{wire}
use open_boot.Transport.{Transport}
use open_boot.Client.{
  Client, Command, ClientError, BootMode, RetryPolicy, RetryReason, Attempt, attempt, attempts,
  run_loop, run, give_up, boot, boot_wire, discard, boot_timeout,
}
use open_boot.Client.Attempts.{request, attempt-seq, attempt-sent, attempt-ne-fault}

module _ (crc : Crc32) (cmd : ℕ) (payload : Bytes) where
  -- The encodings of k requests in a row: one payload, consecutive sequence numbers.
  unfoldable pub burst : ℕ → ℕ → List Bytes
  burst zero seq = []
  burst (suc k) seq = wire crc (request cmd seq payload) ∷ burst k ((seq + 1) % 256)

module _ (crc : Crc32) (t : Transport) (name : Command) (cmd : ℕ) (payload : Bytes) (ms : ℕ)
    (policy : RetryPolicy) where
  -- From the client c, k attempts in a row ask to be repeated, and leave the client c'; `last` and
  -- `last'` are the reasons of the attempt before these and of the last one.
  pub data Retries
      : ℕ → Option RetryReason → Client t → Option RetryReason → Client t → Type 0 where
    no_more : {last : Option RetryReason} {c : Client t} → Retries zero last c last c
    once_more :
        {k : ℕ} {last last' : Option RetryReason} {c c' : Client t} (reason : RetryReason)
        → (attempt crc t name cmd payload ms c).0 ≡ ok (Attempt.retry reason)
        → Retries k (some reason) (attempt crc t name cmd payload ms c).1 last' c'
        → Retries (suc k) last c last' c'

  abbrev loop : ℕ → Option RetryReason → Client t → Result ClientError Bytes × Client t
  loop n last c = run_loop crc t n name cmd payload ms policy last c

  loop_retry :
      (n : ℕ) (last : Option RetryReason) (c : Client t) (reason : RetryReason)
      → (attempt crc t name cmd payload ms c).0 ≡ ok (Attempt.retry reason)
      → loop (suc n) last c ≡ loop n (some reason) (attempt crc t name cmd payload ms c).1
  unfolding run_loop
  loop_retry n last c reason e = ground arith

  loop-accepted :
      (n : ℕ) (last : Option RetryReason) (c : Client t) (resp : Bytes)
      → (attempt crc t name cmd payload ms c).0 ≡ ok (Attempt.done resp)
      → loop (suc n) last c ≡ (ok resp, (attempt crc t name cmd payload ms c).1)
  unfolding run_loop
  loop-accepted n last c resp e = ground arith

  loop_err :
      (n : ℕ) (last : Option RetryReason) (c : Client t) (x : ClientError)
      → (attempt crc t name cmd payload ms c).0 ≡ err x
      → loop (suc n) last c ≡ (err x, (attempt crc t name cmd payload ms c).1)
  unfolding run_loop
  loop_err n last c x e = ground arith

  loop-Retries :
      (k n : ℕ) {last last' : Option RetryReason} {c c' : Client t}
      → Retries k last c last' c'
      → loop (k + n) last c ≡ loop n last' c'
  loop-Retries zero n {last} {c = c} no_more = let e : 0 + n ≡ n = omega arith in rw e refl
  loop-Retries (suc k) n {last} {c = c} (once_more reason e rs) =
      let shift : suc k + n ≡ suc (k + n) = omega arith in
      rw shift (loop_retry (k + n) last c reason e ∙ loop-Retries k n rs)

  pub Retries-sent :
      (k : ℕ) {last last' : Option RetryReason} {c c' : Client t}
      → length payload ≤ max_payload
      → Retries k last c last' c'
      → t.sent c'.transport ≡ t.sent c.transport ++ burst crc cmd payload k c.seq
  unfolding burst
  Retries-sent zero {c = c} fits no_more = sym (append-nil (t.sent c.transport))
  Retries-sent (suc k) {c = c} fits (once_more reason e rs) =
      Retries-sent k fits rs
      ∙ rw (
        attempt-sent crc t name cmd payload ms fits c,
        attempt-seq crc t name cmd payload ms fits c,
        append_assoc,
      )

  -- After k attempts that ask to be repeated, with k below the policy's number, an attempt that
  -- ends with an answer ends `run` with that answer.
  pub run_accepted :
      (k : ℕ) {last : Option RetryReason} {c c' : Client t} (resp : Bytes)
      → k < attempts policy
      → Retries k none c last c'
      → (attempt crc t name cmd payload ms c').0 ≡ ok (Attempt.done resp)
      → run crc t name cmd payload ms policy c ≡ (ok resp, (attempt crc t name cmd payload ms c').1)
  unfolding run
  run_accepted k {last} {c} {c'} resp h rs e =
      let left = attempts policy - suc k in
      let split : attempts policy ≡ k + suc left = omega arith in
      rw split (loop-Retries k (suc left) rs ∙ loop-accepted left last c' resp e)

  -- An attempt that ends in an error ends the loop.
  pub run_err :
      (k : ℕ) {last : Option RetryReason} {c c' : Client t} (x : ClientError)
      → k < attempts policy
      → Retries k none c last c'
      → (attempt crc t name cmd payload ms c').0 ≡ err x
      → run crc t name cmd payload ms policy c ≡ (err x, (attempt crc t name cmd payload ms c').1)
  unfolding run
  run_err k {last} {c} {c'} x h rs e =
      let left = attempts policy - suc k in
      let split : attempts policy ≡ k + suc left = omega arith in
      rw split (loop-Retries k (suc left) rs ∙ loop_err left last c' x e)

  pub run-Retries :
      {last : Option RetryReason} {c c' : Client t}
      → Retries (attempts policy) none c last c'
      → run crc t name cmd payload ms policy c ≡ (give_up name policy last, c')
  unfolding run run_loop
  run-Retries rs =
      let whole : attempts policy ≡ attempts policy + 0 = omega arith in
      rw whole (loop-Retries (attempts policy) 0 rs)

  -- The outcomes of one attempt, with the equation.
  Attempt-cases :
      (r : Result ClientError Attempt)
      → r ≢ fault
      → ((resp : Bytes) × (r ≡ ok (Attempt.done resp)))
        ⊎ ((reason : RetryReason) × (r ≡ ok (Attempt.retry reason)))
        ⊎ ((x : ClientError) × (r ≡ err x))
  Attempt-cases (ok (Attempt.done resp)) h = inl (resp, refl)
  Attempt-cases (ok (Attempt.retry reason)) h = inr (inl (reason, refl))
  Attempt-cases (err x) h = inr (inr (x, refl))
  Attempt-cases fault h = absurd (h refl)

  abbrev Sends : ℕ → Client t → Client t → Type 0
  Sends n c c' =
      (k : ℕ) × (k ≤ n)
      × (min 1 n ≤ k)
      × (t.sent c'.transport ≡ t.sent c.transport ++ burst crc cmd payload k c.seq)

  module _ (fits : length payload ≤ max_payload) where
    one-Sends : (n : ℕ) (c : Client t) → Sends (suc n) c (attempt crc t name cmd payload ms c).1
    unfolding burst
    one-Sends n c = (1, omega arith, omega arith, attempt-sent crc t name cmd payload ms fits c)

    loop-sent : (n : ℕ) (last : Option RetryReason) (c : Client t) → Sends n c (loop n last c).1
    unfolding burst
    loop-sent zero last c =
        unfold run_loop in (0, omega arith, omega arith, sym (append-nil (t.sent c.transport)))
    loop-sent (suc n) last c =
        elim (Attempt-cases (attempt crc t name cmd payload ms c).0
          (attempt-ne-fault crc t name cmd payload ms fits c)) [
            | inl (resp, e) ↦ rw (loop-accepted n last c resp e) (one-Sends n c)
            | inr (inr (x, e)) ↦ rw (loop_err n last c x e) (one-Sends n c)
            | inr (inl (reason, e)) ↦
                let c' = (attempt crc t name cmd payload ms c).1 in
                let (k, most, least, sent) = loop-sent n (some reason) c' in
                rw (loop_retry n last c reason e) (
                  suc k,
                  omega arith,
                  omega arith,
                  sent
                      ∙ rw (
                        attempt-sent crc t name cmd payload ms fits c,
                        attempt-seq crc t name cmd payload ms fits c,
                        append_assoc,
                      ),
                )
          ]

    give_up-ne-fault : (last : Option RetryReason) → last ≢ none → give_up name policy last ≢ fault
    unfolding give_up
    give_up-ne-fault none h e = h refl
    give_up-ne-fault (some r) h e = ground arith

    loop-ne-fault :
        (n : ℕ) (last : Option RetryReason) (c : Client t)
        → (n ≡ 0 → last ≢ none)
        → (loop n last c).0 ≢ fault
    loop-ne-fault zero last c h = unfold run_loop in give_up-ne-fault last (h refl)
    loop-ne-fault (suc n) last c h =
        elim (Attempt-cases (attempt crc t name cmd payload ms c).0
          (attempt-ne-fault crc t name cmd payload ms fits c)) [
            | inl (resp, e) ↦ rw (loop-accepted n last c resp e) (λ x. cc)
            | inr (inr (x, e)) ↦ rw (loop_err n last c x e) (λ y. cc)
            | inr (inl (reason, e)) ↦
                rw (loop_retry n last c reason e) (
                  loop-ne-fault n (some reason) (attempt crc t name cmd payload ms c).1 (λ _ x. cc))
          ]

    -- With at least one attempt allowed and a payload within the limit, `run` ends with a result: it
    -- neither panics nor waits for ever.
    pub run-ne-fault :
        (c : Client t) → 1 ≤ attempts policy → (run crc t name cmd payload ms policy c).0 ≢ fault
    unfolding run
    run-ne-fault c h = loop-ne-fault (attempts policy) none c (λ z. absurd (omega arith))

    -- For a payload within the limit and a policy of at least one attempt, `run` sends at least
    -- one frame and at most as many as the policy has attempts. They are the same request with
    -- consecutive sequence numbers, and nothing else is sent.
    pub run-sent :
        (c : Client t)
        → 1 ≤ attempts policy
        → (k : ℕ) × (1 ≤ k)
          × (k ≤ attempts policy)
          × (t.sent (run crc t name cmd payload ms policy c).1.transport
              ≡ t.sent c.transport ++ burst crc cmd payload k c.seq)
    unfolding run
    run-sent c h =
        let (k, most, least, sent) = loop-sent (attempts policy) none c in
        (k, omega arith, most, sent)

module _ (crc : Crc32) (t : Transport) where
  pub discard-state :
      (m : Client t → Result ClientError Bytes × Client t) (c : Client t)
      → (discard crc t m c).1 ≡ (m c).1
  discard-state m c = keep (m c).0 (m c).1
    where
      keep :
          (r : Result ClientError Bytes) (s : Client t)
          → (and_then (λ (resp : Bytes). pure {E = ClientError} tt) r s).1 ≡ s
      keep (ok resp) s = refl
      keep (err e) s = refl
      keep fault s = refl

  -- BOOT is sent exactly once, whatever comes back.
  pub boot-sent :
      (mode : BootMode) (c : Client t)
      → t.sent (boot crc t mode c).1.transport
        ≡ t.sent c.transport
          ++ (wire crc (request cmd_boot c.seq (boot_req_payload (boot_wire mode))) ∷ [])
  unfolding boot burst attempts
  boot-sent mode c =
      let payload = boot_req_payload (boot_wire mode) in
      let fits : length payload ≤ max_payload = unfold boot_req_payload in omega arith in
      let (k, least, most, sent) =
        run-sent crc t Command.boot cmd_boot payload boot_timeout RetryPolicy.once fits c
          (omega arith) in
      let one : k ≡ 1 = omega arith in
      ap (λ (d : Client t). t.sent d.transport)
        (discard-state (run crc t Command.boot cmd_boot payload boot_timeout RetryPolicy.once) c)
      ∙ sent
      ∙ rw one
