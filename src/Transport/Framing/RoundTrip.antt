-- ===== src/Transport/Framing/RoundTrip.antt =====
-- From `Frame::encode` on one side of the wire to `Frame::decode` on the other; the deadline.
use open_boot.Base.{
  ℕ, suc, u32_le, ◌+◌, ◌≤◌, ◌≡◌, false, ◌++◌, none, some, ok, Bytes, length, length-append,
  append-nil, arith, [], ◌*◌,
}
use open_boot.Proto.Consts.{max_payload}
use open_boot.Proto.Crc32.{Crc32}
use open_boot.Proto.Frame.{Frame, body, decode}
use open_boot.Proto.Frame.RoundTrip.{wire, decode-wire}
use open_boot.Transport.Framing.{ByteSource, encode_sof, recv_sof_frame, hunt, gave_up}
use open_boot.Transport.Framing.Shape.{HasShape}
use open_boot.Transport.Framing.Delivery.{has_sof, Delivers, recv_sof_frame-Delivers}

wire-HasShape : (crc : Crc32) (f : Frame) → length f.payload ≤ max_payload → HasShape (wire crc f)
wire-HasShape crc f h = omega (arith, length-append f.payload (u32_le (crc.hash (body f))))

module _ (crc : Crc32) (src : ByteSource) (d : ℕ) where
  -- The encoding of a frame with a payload within the limit, behind the start pair and behind any
  -- noise that holds no start pair, is received, and decodes to the frame, where its bytes arrive
  -- before the deadline and without a gap.
  pub recv-decode :
      (f : Frame) (noise : Bytes) {s s' : src.State}
      → length f.payload ≤ max_payload
      → has_sof false noise ≡ false
      → Delivers src d s (noise ++ encode_sof (wire crc f)) s'
      → (recv_sof_frame src d s ≡ (ok (some (wire crc f)), s')) × (decode crc (wire crc f) ≡ ok f)
  recv-decode f noise fits clean h = (
    recv_sof_frame-Delivers src d noise (wire crc f) clean (wire-HasShape crc f fits) h,
    rw append-nil at (decode-wire crc f [] fits),
  )

hunt_late :
    (src : ByteSource) (n d : ℕ) (s : src.State)
    → d ≤ src.now s
    → hunt src (suc n) false d s ≡ (ok gave_up, s)
unfolding hunt
hunt_late src n d s h = ground arith

-- From the deadline on, `recv_sof_frame` returns nothing and does not read the source.
pub recv_sof_frame_expired :
    (src : ByteSource) (d : ℕ) (s : src.State)
    → d ≤ src.now s
    → recv_sof_frame src d s ≡ (ok none, s)
unfolding recv_sof_frame
recv_sof_frame_expired src d s h =
    let fuel : 2 * src.budget d s + 2 ≡ suc (2 * src.budget d s + 1) = omega arith in
    rw (fuel, hunt_late src (2 * src.budget d s + 1) d s h)
