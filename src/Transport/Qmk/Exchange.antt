-- ===== src/Transport/Qmk/Exchange.antt =====
-- An exchange over the tunnel, down to the reports.
use open_boot.Base.{ℕ, ◌≤◌, ◌≡◌, ◌≢◌, ◌∙◌, List, [], ◌++◌, err, Bytes, length}
use open_boot.Proto.Consts.{max_payload}
use open_boot.Proto.Crc32.{Crc32}
use open_boot.Proto.Frame.{Frame}
use open_boot.Proto.Frame.RoundTrip.{wire}
use open_boot.Transport.{IoError, io, xfer}
use open_boot.Transport.Xfer.{xfer-keeps, xfer-sends}
use open_boot.Transport.Framing.{encode_sof}
use open_boot.Transport.Qmk.{ReportLink, Qmk}
use open_boot.Transport.Qmk.Sends.{send_frame-bridged}
use open_boot.Transport.Qmk.Chunks.{bridged}
use open_boot.Transport.Qmk.Tunnel.{tunnel}
use open_boot.Transport.Qmk.Leaving.{recv_sof_frame-Reads}

module _ (link : ReportLink) where
  -- For a request with a payload within the limit, what the keyboard passes on for the reports of an
  -- exchange is a front of the start bytes and the encoded request, whatever the exchange reads in
  -- between; and it is all of them unless the exchange ends with an error of the HID stack.
  pub xfer-bridged :
      (crc : Crc32) (req : Frame) (ms : ℕ) (s : Qmk link.State) (log : List Bytes)
      → length req.payload ≤ max_payload
      → (reports : List Bytes) × (rest : Bytes) × (link.written
            (xfer crc (tunnel link) req ms (s, log)).1.0.link
          ≡ link.written s.link ++ reports)
        × (bridged reports ++ rest ≡ encode_sof (wire crc req))
        × (((e : IoError) → (xfer crc (tunnel link) req ms (s, log)).0 ≢ err (io e)) → rest ≡ [])
  xfer-bridged crc req ms s log fits =
      let t = tunnel link in
      let (runs, booted, (reports, rest, sent, passed, all)) =
        send_frame-bridged link (wire crc req) s in
      let step : ((d : ℕ) (u : Qmk link.State × List Bytes)
          → link.written u.0.link ≡ link.written s.link ++ reports
          → link.written (t.recv_frame d u).1.0.link ≡ link.written s.link ++ reports) =
        λ d u h. (recv_sof_frame-Reads link d u.0).log ∙ h in
      (
        reports,
        rest,
        xfer-keeps crc t (λ u. link.written u.0.link ≡ link.written s.link ++ reports) req ms
            (s, log) fits step sent,
        passed,
        λ clean. all (xfer-sends crc t req ms (s, log) fits clean),
      )
