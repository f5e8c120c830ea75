-- ===== src/Transport/Framing/Shape.antt =====
-- What `recv_sof_frame` returns has the shape of a frame, so `decode` can only object to its
-- flags or its checksum.
use open_boot.Base.{
  ℕ, zero, suc, ◌+◌, ◌*◌, ◌≤◌, ◌<◌, ◌≡◌, refl, false, [], ◌∷◌, ◌++◌, Option, none, some, Result, ok,
  err, fault, Bytes, length, length-append, get_or, get_or-lt, arith,
}
use open_boot.Base.Actions.{Action}
use open_boot.Proto.Consts.{frame_hdr_len, frame_crc_len, frame_overhead, max_payload}
use open_boot.Proto.Crc32.{Crc32}
use open_boot.Proto.Frame.{
  Frame, FrameError, bad_flags, bad_crc, too_short, payload_too_long, truncated, decode,
}
use open_boot.Transport.{IoError}
use open_boot.Transport.Framing.{
  ByteSource, Hunt, locked, gave_up, hunt, next_frame_byte, read_bytes, after_header, after_hunt,
  resync, recv_sof_frame,
}
use open_boot.Transport.Framing.Ends.{byte_of}

-- The length that the third byte declares, within the limit, is the length there is.
pub record HasShape (frame : Bytes) : Type 0 where
  pub whole : length frame ≡ get_or frame 2 0 + frame_overhead
  pub fits : get_or frame 2 0 ≤ max_payload

-- The frame is in order, or only its flags or its checksum are wrong.
abbrev pub IsContentError : Result FrameError Frame → Type 0
IsContentError (ok f) = Unit
IsContentError (err (bad_flags flags)) = Unit
IsContentError (err (bad_crc computed received)) = Unit
IsContentError (err (too_short got)) = ⊥
IsContentError (err (payload_too_long declared)) = ⊥
IsContentError (err (truncated declared available)) = ⊥
IsContentError fault = ⊥

decode_shaped : (crc : Crc32) (frame : Bytes) → HasShape frame → IsContentError (decode crc frame)
unfolding decode
decode_shaped crc frame h = ground arith

module _ (src : ByteSource) (d : ℕ) where
  read_bytes_shape :
      (k : ℕ) (frame out : Bytes) (s : src.State)
      → (read_bytes src k d frame s).0 ≡ ok (some out)
      → (length out ≡ length frame + k) × (2 < length frame → get_or out 2 0 ≡ get_or frame 2 0)
  unfolding read_bytes
  read_bytes_shape zero frame out s e = ground arith
  read_bytes_shape (suc k) frame out s e =
      let b = byte_of (next_frame_byte src d s).0 in
      ground (
        arith,
        length-append frame (b ∷ []),
        get_or-lt frame (b ∷ []) 2 0,
        read_bytes_shape k (frame ++ (b ∷ [])) out (next_frame_byte src d s).1,
      )

  Shaped : Result IoError (Option Bytes) → Type 0
  Shaped r = (frame : Bytes) → r ≡ ok (some frame) → HasShape frame

  after_header_shape :
      (again : Action src.State IoError (Option Bytes))
      → ((s : src.State) → Shaped (again s).0)
      → (got : Result IoError (Option Bytes)) (s : src.State)
      → ((header : Bytes) → got ≡ ok (some header) → length header ≡ frame_hdr_len)
      → Shaped (after_header src again d got s).0
  unfolding after_header Shaped
  after_header_shape again sh (ok (some header)) s h frame e =
      let k = get_or header 2 0 + frame_crc_len in
      let s' = (read_bytes src k d header s).1 in
      ground (arith, h header refl, sh s frame, sh s' frame, read_bytes_shape k header frame s)
  after_header_shape again sh (ok none) s h frame e = sh s frame e
  after_header_shape again sh (err x) s h frame e = cc
  after_header_shape again sh fault s h frame e = cc

  after_hunt_shape :
      (again : Action src.State IoError (Option Bytes))
      → ((s : src.State) → Shaped (again s).0)
      → (end : Result IoError Hunt) (s : src.State) → Shaped (after_hunt src again d end s).0
  unfolding after_hunt Shaped
  after_hunt_shape again sh (ok locked) s frame e =
      after_header_shape again sh (read_bytes src frame_hdr_len d [] s).0
        (read_bytes src frame_hdr_len d [] s).1
        (λ header got. (read_bytes_shape frame_hdr_len [] header s got).0) frame e
  after_hunt_shape again sh (ok gave_up) s frame e = cc
  after_hunt_shape again sh (err x) s frame e = cc
  after_hunt_shape again sh fault s frame e = cc

  resync_shape : (n : ℕ) (s : src.State) → Shaped (resync src n d s).0
  unfolding resync Shaped
  resync_shape zero s frame e = cc
  resync_shape (suc n) s frame e =
      after_hunt_shape (resync src n d) (resync_shape n)
        (hunt src (2 * src.budget d s + 2) false d s).0
        (hunt src (2 * src.budget d s + 2) false d s).1 frame e

  -- A frame that is received has as many bytes as its third byte declares, and that is within the
  -- payload limit; so decoding it gives a frame, or complains of the flags or the checksum only.
  pub recv_sof_frame-HasShape :
      (crc : Crc32) (s : src.State) (frame : Bytes)
      → (recv_sof_frame src d s).0 ≡ ok (some frame)
      → HasShape frame × IsContentError (decode crc frame)
  unfolding recv_sof_frame Shaped
  recv_sof_frame-HasShape crc s frame e =
      let shape = resync_shape (suc (src.budget d s)) s frame e in
      (shape, decode_shaped crc frame shape)
