-- ===== src/Client/Attempts.antt =====
-- One attempt: it sends one frame, with the client's sequence number, and steps that number on.
use open_boot.Base.{
  ℕ, ◌+◌, ◌%◌, ◌≤◌, ◌≡◌, ◌≢◌, refl, [], ◌∷◌, ◌++◌, Result, ok, err, fault, Bytes, length, le→leb,
  arith,
}
use open_boot.Proto.Consts.{max_payload}
use open_boot.Proto.Crc32.{Crc32}
use open_boot.Proto.Frame
use open_boot.Proto.Frame.{Frame}
use open_boot.Proto.Frame.RoundTrip.{wire}
use open_boot.Transport.{Transport, TransportError, timeout, io, xfer}
use open_boot.Transport.Xfer.{xfer-sent, xfer-ne-fault}
use open_boot.Client.{Client, Command, classify, attempt}

-- The request that the client sends next.
abbrev pub request : ℕ → ℕ → Bytes → Frame
request cmd seq payload = record { cmd = cmd; seq = seq; payload = payload }

module _ (crc : Crc32) (t : Transport) (name : Command) (cmd : ℕ) (payload : Bytes) (ms : ℕ)
    (fits : length payload ≤ max_payload) where
  -- An attempt is one `xfer` of the next request, classified.
  pub attempt_lem :
      (c : Client t)
      → let (resp, s) = xfer crc t (request cmd c.seq payload) ms c.transport in
        attempt crc t name cmd payload ms c
        ≡ (classify name resp, record { transport = s; seq = (c.seq + 1) % 256 })
  unfolding attempt Frame.new
  attempt_lem c = rw (le→leb _ _ fits)

  pub attempt-seq : (c : Client t) → (attempt crc t name cmd payload ms c).1.seq ≡ (c.seq + 1) % 256
  attempt-seq c = rw (attempt_lem c)

  pub attempt-sent :
      (c : Client t)
      → t.sent (attempt crc t name cmd payload ms c).1.transport
        ≡ t.sent c.transport ++ (wire crc (request cmd c.seq payload) ∷ [])
  attempt-sent c =
      rw (attempt_lem c) (xfer-sent crc t (request cmd c.seq payload) ms c.transport fits)

  classify-ne-fault : (r : Result TransportError Frame) → r ≢ fault → classify name r ≢ fault
  unfolding classify
  classify-ne-fault (ok f) h e = ground arith
  classify-ne-fault (err timeout) h e = cc
  classify-ne-fault (err (io x)) h e = cc
  classify-ne-fault fault h e = h refl

  pub attempt-ne-fault : (c : Client t) → (attempt crc t name cmd payload ms c).0 ≢ fault
  attempt-ne-fault c =
      rw (attempt_lem c)
        (classify-ne-fault _ (xfer-ne-fault crc t (request cmd c.seq payload) ms c.transport fits))
