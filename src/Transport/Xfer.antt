-- ===== src/Transport/Xfer.antt =====
-- `xfer`: it always ends, it sends one frame, and it returns the first frame that answers.
use open_boot.Base.{
  ℕ, suc, zero, ◌+◌, ◌<◌, ◌≤◌, ◌≡◌, ◌≢◌, refl, ◌∙◌, true, ◌⊎◌, [], ◌∷◌, ◌++◌, Option, none, some,
  Result, ok, err, fault, Bytes, arith, length,
}
use open_boot.Proto.Consts.{max_payload}
use open_boot.Proto.Crc32.{Crc32}
use open_boot.Proto.Frame
use open_boot.Proto.Frame.{Frame}
use open_boot.Proto.Frame.RoundTrip.{wire, encode_fits, length-wire}
use open_boot.Proto.Frame.Sound.{decode-ne-fault}
use open_boot.Transport.{Transport, IoError, io, await, timeout, accept, recv_loop, xfer}

module _ (crc : Crc32) where
  -- An accepted candidate decodes to a frame-error report or to a response to the request.
  pub accept-some :
      (req : Frame) (raw : Bytes) (f : Frame)
      → accept crc req raw ≡ some f
      → (Frame.decode crc raw ≡ ok f)
        × ((Frame.is_frame_error f ≡ true) ⊎ (Frame.is_response_to f req ≡ true))
  unfolding accept
  accept-some req raw f h = ground arith

  candidate : Result IoError (Option Bytes) → Bytes
  candidate r = elim r [ ok (some raw) ↦ raw | ok none ↦ [] | err e ↦ [] | fault ↦ [] ]

  module _ (t : Transport) where
    recv_loop-ne-fault :
        (n : ℕ) (req : Frame) (d : ℕ) (s : t.State)
        → t.budget d s < n
        → (recv_loop crc t n req d s).0 ≢ fault
    unfolding recv_loop candidate
    recv_loop-ne-fault zero req d s h e = absurd (omega arith)
    recv_loop-ne-fault (suc n) req d s h e = grind (
      arith,
      t.recv-ne-fault d s,
      t.recv-budget d s,
      decode-ne-fault crc (candidate (t.recv_frame d s).0),
      recv_loop-ne-fault n req d (t.recv_frame d s).1,
    )

    recv_loop-sent :
        (n : ℕ) (req : Frame) (d : ℕ) (s : t.State)
        → t.sent (recv_loop crc t n req d s).1 ≡ t.sent s
    unfolding recv_loop
    recv_loop-sent zero req d s = refl
    recv_loop-sent (suc n) req d s =
        ground (arith, t.sent-recv d s, recv_loop-sent n req d (t.recv_frame d s).1)

    recv_loop-answers :
        (n : ℕ) (req : Frame) (d : ℕ) (s : t.State) (f : Frame)
        → (recv_loop crc t n req d s).0 ≡ ok f
        → (Frame.is_frame_error f ≡ true) ⊎ (Frame.is_response_to f req ≡ true)
    unfolding recv_loop accept
    recv_loop-answers zero req d s f e = cc
    recv_loop-answers (suc n) req d s f e =
        ground (arith, recv_loop-answers n req d (t.recv_frame d s).1 f)

    -- For a request with a payload within the limit, `xfer` ends with a frame or an error: it
    -- neither panics nor listens for ever.
    pub xfer-ne-fault :
        (req : Frame) (ms : ℕ) (s : t.State)
        → length req.payload ≤ max_payload
        → (xfer crc t req ms s).0 ≢ fault
    unfolding xfer
    xfer-ne-fault req ms s h =
        let s1 = (t.send_frame (wire crc req) s).1 in
        rw (encode_fits crc req h) λ e. ground (
          arith,
          t.send-ne-fault (wire crc req) s (omega (arith, length-wire crc req)),
          recv_loop-ne-fault (suc (t.budget (t.now s + ms) s1)) req (t.now s + ms) s1,
        )

    -- For a request with a payload within the limit, `xfer` hands exactly one frame to the
    -- transport, the encoding of the request, whatever comes of it.
    pub xfer-sent :
        (req : Frame) (ms : ℕ) (s : t.State)
        → length req.payload ≤ max_payload
        → t.sent (xfer crc t req ms s).1 ≡ t.sent s ++ (wire crc req ∷ [])
    unfolding xfer
    xfer-sent req ms s h =
        let s1 = (t.send_frame (wire crc req) s).1 in
        rw (encode_fits crc req h) (
          ground (
            arith,
            t.sent-send (wire crc req) s,
            recv_loop-sent (suc (t.budget (t.now s + ms) s1)) req (t.now s + ms) s1,
          ))

    -- An exchange that ends without an error of the stack has handed the whole request over.
    pub xfer-sends :
        (req : Frame) (ms : ℕ) (s : t.State)
        → length req.payload ≤ max_payload
        → ((e : IoError) → (xfer crc t req ms s).0 ≢ err (io e))
        → (t.send_frame (wire crc req) s).0 ≡ ok tt
    unfolding xfer
    xfer-sends req ms s fits clean =
        let h = rw (encode_fits crc req fits) at clean in
        let runs = t.send-ne-fault (wire crc req) s (omega (arith, length-wire crc req)) in
        split (t.send_frame (wire crc req) s).0 refl h runs
      where
        split :
            (r : Result IoError (Unit {0}))
            → (t.send_frame (wire crc req) s).0 ≡ r
            → ((e : IoError)
                → (await crc t req (t.now s + ms) r (t.send_frame (wire crc req) s).1).0
                  ≢ err (io e))
            → r ≢ fault
            → r ≡ ok tt
        split (ok u) e h runs = refl
        split (err x) e h runs = absurd (h x refl)
        split fault e h runs = absurd (runs refl)

    recv_loop-keeps :
        (P : t.State → Type 0) (n : ℕ) (req : Frame) (d : ℕ) (s : t.State)
        → ((s' : t.State) → P s' → P (t.recv_frame d s').1)
        → P s
        → P (recv_loop crc t n req d s).1
    unfolding recv_loop
    recv_loop-keeps P zero req d s step h = h
    recv_loop-keeps P (suc n) req d s step h =
        grind (arith, step s h, recv_loop-keeps P n req d (t.recv_frame d s).1 step)

    -- What holds behind the send, and is kept by every receive, holds in the end.
    pub xfer-keeps :
        (P : t.State → Type 0) (req : Frame) (ms : ℕ) (s : t.State)
        → length req.payload ≤ max_payload
        → ((d : ℕ) (s' : t.State) → P s' → P (t.recv_frame d s').1)
        → P (t.send_frame (wire crc req) s).1
        → P (xfer crc t req ms s).1
    unfolding xfer
    xfer-keeps P req ms s fits step h =
        let d = t.now s + ms in
        let s1 = (t.send_frame (wire crc req) s).1 in
        rw (encode_fits crc req fits)
          (grind (arith, h, recv_loop-keeps P (suc (t.budget d s1)) req d s1 (step d)))

    -- For a request with a payload within the limit, a frame that `xfer` returns is a
    -- frame-error report or a response to the request.
    pub xfer-answers :
        (req : Frame) (ms : ℕ) (s : t.State) (f : Frame)
        → length req.payload ≤ max_payload
        → (xfer crc t req ms s).0 ≡ ok f
        → (Frame.is_frame_error f ≡ true) ⊎ (Frame.is_response_to f req ≡ true)
    unfolding xfer
    xfer-answers req ms s f h e =
        let s1 = (t.send_frame (wire crc req) s).1 in
        let e' = rw (encode_fits crc req h) at e in
        ground (arith, recv_loop-answers (suc (t.budget (t.now s + ms) s1)) req (t.now s + ms) s1 f)

  module _ (t : Transport) (req : Frame) (d : ℕ) where
    -- From s, the candidates up to s' are all discarded: stale, for another command, or corrupt.
    pub data Discards : t.State → t.State → Type 0 where
      none_yet : {s : t.State} → Discards s s
      discard :
          {s s' : t.State} (raw : Bytes)
          → (t.recv_frame d s).0 ≡ ok (some raw)
          → accept crc req raw ≡ none
          → Discards (t.recv_frame d s).1 s'
          → Discards s s'

    recv_loop_skip :
        (n : ℕ) (s : t.State) (raw : Bytes)
        → (t.recv_frame d s).0 ≡ ok (some raw)
        → accept crc req raw ≡ none
        → recv_loop crc t (suc n) req d s ≡ recv_loop crc t n req d (t.recv_frame d s).1
    unfolding recv_loop
    recv_loop_skip n s raw r no_match = ground (arith, decode-ne-fault crc raw)

    recv_loop-Discards :
        (n : ℕ) {s s' : t.State}
        → Discards s s'
        → t.budget d s < n
        → (m : ℕ) × (t.budget d s' < m) × (recv_loop crc t n req d s ≡ recv_loop crc t m req d s')
    recv_loop-Discards n none_yet h = (n, h, refl)
    recv_loop-Discards zero (discard raw r no_match ds) h = absurd (omega arith)
    recv_loop-Discards (suc n) (discard {s = s} raw r no_match ds) h =
        let (m, room, eq) = recv_loop-Discards n ds (omega (arith, t.recv-budget d s raw r)) in
        (m, room, recv_loop_skip n s raw r no_match ∙ eq)

    recv_loop_first :
        (m : ℕ) (s : t.State) (raw : Bytes) (f : Frame)
        → t.budget d s < m
        → (t.recv_frame d s).0 ≡ ok (some raw)
        → accept crc req raw ≡ some f
        → recv_loop crc t m req d s ≡ (ok f, (t.recv_frame d s).1)
    unfolding recv_loop
    recv_loop_first zero s raw f h r a = absurd (omega arith)
    recv_loop_first (suc m) s raw f h r a = ground (arith, accept-some req raw f a)

    recv_loop_quiet :
        (m : ℕ) (s : t.State)
        → t.budget d s < m
        → (t.recv_frame d s).0 ≡ ok none
        → recv_loop crc t m req d s ≡ (err timeout, (t.recv_frame d s).1)
    unfolding recv_loop
    recv_loop_quiet zero s h r = absurd (omega arith)
    recv_loop_quiet (suc m) s h r = ground arith

  module _ (t : Transport) (req : Frame) (ms : ℕ) (s : t.State) where
    -- For a request with a payload within the limit: where the send succeeds and every
    -- candidate up to s' is discarded, the next candidate, if it is accepted, is the result of
    -- `xfer`.
    pub xfer_first :
        {s' : t.State} (raw : Bytes) (f : Frame)
        → length req.payload ≤ max_payload
        → (t.send_frame (wire crc req) s).0 ≡ ok tt
        → Discards t req (t.now s + ms) (t.send_frame (wire crc req) s).1 s'
        → (t.recv_frame (t.now s + ms) s').0 ≡ ok (some raw)
        → accept crc req raw ≡ some f
        → xfer crc t req ms s ≡ (ok f, (t.recv_frame (t.now s + ms) s').1)
    unfolding xfer
    xfer_first {s'} raw f h sent ds r a =
        let d = t.now s + ms in
        let n = suc (t.budget d (t.send_frame (wire crc req) s).1) in
        let (m, room, eq) = recv_loop-Discards t req d n ds (omega arith) in
        rw (encode_fits crc req h, sent) (eq ∙ recv_loop_first t req d m s' raw f room r a)

    -- For a request with a payload within the limit: where the send succeeds and every
    -- candidate is discarded until nothing comes before the deadline, `xfer` fails with
    -- `Timeout`.
    pub xfer_timeout :
        {s' : t.State}
        → length req.payload ≤ max_payload
        → (t.send_frame (wire crc req) s).0 ≡ ok tt
        → Discards t req (t.now s + ms) (t.send_frame (wire crc req) s).1 s'
        → (t.recv_frame (t.now s + ms) s').0 ≡ ok none
        → xfer crc t req ms s ≡ (err timeout, (t.recv_frame (t.now s + ms) s').1)
    unfolding xfer
    xfer_timeout {s'} h sent ds r =
        let d = t.now s + ms in
        let n = suc (t.budget d (t.send_frame (wire crc req) s).1) in
        let (m, room, eq) = recv_loop-Discards t req d n ds (omega arith) in
        rw (encode_fits crc req h, sent) (eq ∙ recv_loop_quiet t req d m s' room r)
