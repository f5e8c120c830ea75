-- ===== src/Transport/Hid/Reports.antt =====
-- The HID transport fills the interface of a transport, and its report holds the frame.
use open_boot.Base.{
  ℕ, ◌-◌, ◌^◌, ◌≤◌, ◌<◌, ◌≡◌, ◌≢◌, min, max, refl, true, List, [], ◌∷◌, ◌++◌, some, Result, ok, err,
  fault, Bytes, length, replicate, length-append, length-replicate, arith,
}
use open_boot.Proto.Consts.{max_frame, max_payload}
use open_boot.Proto.Crc32.{Crc32}
use open_boot.Proto.Frame
use open_boot.Proto.Frame.{Frame}
use open_boot.Proto.Frame.RoundTrip.{wire, decode-wire, length-wire}
use open_boot.Transport.{Transport, IoError}
use open_boot.Transport.Hid.{HidDevice, received, send_frame, recv_frame}

received-some :
    (r : Result IoError Bytes) (raw : Bytes)
    → received r ≡ ok (some raw)
    → (b : ℕ) × (bs : Bytes) × (r ≡ ok (b ∷ bs))
received-some (ok []) raw e = cc
received-some (ok (b ∷ bs)) raw e = (b, bs, refl)
received-some (err x) raw e = cc
received-some fault raw e = cc

module _ (dev : HidDevice) where
  pub send_frame-ne-fault :
      (frame : Bytes) (s : dev.State)
      → length frame ≤ max_frame
      → (send_frame dev frame s).0 ≢ fault
  unfolding send_frame
  send_frame-ne-fault frame s h =
      let report = 0 ∷ (frame ++ replicate (max_frame - length frame) 0) in
      λ e. ground (arith, dev.write-ne-fault report s)

  pub recv_frame-ne-fault : (d : ℕ) (s : dev.State) → (recv_frame dev d s).0 ≢ fault
  unfolding recv_frame
  recv_frame-ne-fault d s e =
      ground (arith, dev.read-ne-fault (max (min (d - dev.now s) (2 ^ 31 - 1)) 1) s)

  pub recv_frame-budget :
      (d : ℕ) (s : dev.State) (raw : Bytes)
      → (recv_frame dev d s).0 ≡ ok (some raw)
      → dev.budget d (recv_frame dev d s).1 < dev.budget d s
  unfolding recv_frame
  recv_frame-budget d s raw e =
      let wait = max (min (d - dev.now s) (2 ^ 31 - 1)) 1 in
      let spent : (dev.now s < d
          → received (dev.read_timeout wait s).0 ≡ ok (some raw)
          → dev.budget d (dev.read_timeout wait s).1 < dev.budget d s) =
        λ early x.
          let (b, bs, got) = received-some (dev.read_timeout wait s).0 raw x in
          dev.budget-read d wait s b bs early got in
      grind (arith, spent)

  -- `HidTransport`; beside the state stand the frames handed over so far.
  abbrev pub hid : Transport
  hid = record {
    State = dev.State × List Bytes;
    now = λ s. dev.now s.0;
    send_frame = λ bytes s.
        ((send_frame dev bytes s.0).0, ((send_frame dev bytes s.0).1, s.1 ++ (bytes ∷ [])));
    recv_frame = λ d s. ((recv_frame dev d s.0).0, ((recv_frame dev d s.0).1, s.1));
    holds_in_bootloader = λ s. true;
    sent = λ s. s.1;
    budget = λ d s. dev.budget d s.0;
    sent-send = λ bytes s. refl;
    sent-recv = λ d s. refl;
    send-ne-fault = λ bytes s short. send_frame-ne-fault bytes s.0 short;
    recv-ne-fault = λ d s. recv_frame-ne-fault d s.0;
    recv-budget = λ d s raw. recv_frame-budget d s.0 raw;
  }

  -- For a frame with a payload within the limit, `send_frame` writes one report of 65 bytes: the
  -- report ID 0, and 64 bytes that decode to the frame.
  pub send_frame-decode :
      (crc : Crc32) (f : Frame) (s : dev.State)
      → length f.payload ≤ max_payload
      → (report : Bytes) × (length report ≡ max_frame)
        × (dev.written (send_frame dev (wire crc f) s).1 ≡ dev.written s ++ ((0 ∷ report) ∷ []))
        × (Frame.decode crc report ≡ ok f)
  unfolding send_frame
  send_frame-decode crc f s h =
      let frame = wire crc f in
      let size = length-wire crc f in
      let pad : Bytes = replicate (max_frame - length frame) 0 in
      (
        frame ++ pad,
        omega (
          arith,
          size,
          length-append frame pad,
          length-replicate {A = ℕ} (max_frame - length frame) 0,
        ),
        ground (arith, size, dev.written-write (0 ∷ (frame ++ pad)) s),
        decode-wire crc f pad h,
      )
