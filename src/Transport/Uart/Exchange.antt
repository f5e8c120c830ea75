-- ===== src/Transport/Uart/Exchange.antt =====
-- An exchange over the serial port, down to the bytes.
use open_boot.Base.{ℕ, ◌≤◌, ◌≡◌, ◌≢◌, ◌∙◌, max, List, [], ◌++◌, Option, err, Bytes, length, arith}
use open_boot.Proto.Consts.{max_payload}
use open_boot.Proto.Crc32.{Crc32}
use open_boot.Proto.Frame.{Frame}
use open_boot.Proto.Frame.RoundTrip.{wire}
use open_boot.Text.{Text}
use open_boot.Transport.{IoError, io, xfer}
use open_boot.Transport.Xfer.{xfer-keeps, xfer-sends}
use open_boot.Transport.Framing.{encode_sof}
use open_boot.Transport.Framing.Keeps.{recv_sof_frame-keeps}
use open_boot.Transport.Uart.{SerialPort, read_byte}
use open_boot.Transport.Uart.Send.{send_frame-written}
use open_boot.Transport.Uart.Source.{bytes, uart}

module _ (port : SerialPort) where
  read_byte-written :
      (wait : ℕ) (s : port.State) → port.written (read_byte port wait s).1 ≡ port.written s
  unfolding read_byte
  read_byte-written wait s =
      let set = port.set_timeout (max wait 1) in
      ground (arith, port.written-set_timeout (max wait 1) s, port.written-read_one (set s).1)

  -- For a request with a payload within the limit, an exchange over the serial port writes a front of
  -- the start bytes and the encoded request, whatever it reads in between; and it writes all of them
  -- unless it ends with an error of the port.
  pub xfer-written :
      (chunk : Option Text) (crc : Crc32) (req : Frame) (ms : ℕ) (s : port.State) (log : List Bytes)
      → length req.payload ≤ max_payload
      → (front : Bytes) × (back : Bytes) × (encode_sof (wire crc req) ≡ front ++ back)
        × (port.written (xfer crc (uart port chunk) req ms (s, log)).1.0 ≡ port.written s ++ front)
        × (((e : IoError) → (xfer crc (uart port chunk) req ms (s, log)).0 ≢ err (io e))
            → back ≡ [])
  xfer-written chunk crc req ms s log fits =
      let t = uart port chunk in
      let (runs, (front, back, cut, sent, all)) = send_frame-written port chunk (wire crc req) s in
      let step : ((d : ℕ) (u : port.State × List Bytes)
          → port.written u.0 ≡ port.written s ++ front
          → port.written (t.recv_frame d u).1.0 ≡ port.written s ++ front) =
        λ d u h.
          recv_sof_frame-keeps (bytes port) d (λ v. port.written v ≡ port.written s ++ front)
            (λ w v k. read_byte-written w v ∙ k) u.0 h in
      (
        front,
        back,
        cut,
        xfer-keeps crc t (λ u. port.written u.0 ≡ port.written s ++ front) req ms (s, log) fits step
            sent,
        λ clean. all (xfer-sends crc t req ms (s, log) fits clean),
      )
