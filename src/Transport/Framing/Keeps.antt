-- ===== src/Transport/Framing/Keeps.antt =====
-- What every read of a source keeps, `recv_sof_frame` keeps.
use open_boot.Base.{
  ℕ, zero, suc, ◌+◌, ◌-◌, ◌*◌, min, Bool, true, false, [], Option, none, some, Result, ok, err,
  fault, Bytes, get_or, arith,
}
use open_boot.Base.Actions.{Action}
use open_boot.Proto.Consts.{frame_hdr_len, frame_crc_len, uart_interbyte_ms}
use open_boot.Transport.{IoError}
use open_boot.Transport.Framing.{
  ByteSource, Hunt, locked, gave_up, hunt, next_frame_byte, read_bytes, after_header, after_hunt,
  resync, recv_sof_frame,
}

module _ (src : ByteSource) (d : ℕ) (P : src.State → Type 0)
    (step : (w : ℕ) (s : src.State) → P s → P (src.next_byte w s).1) where
  hunt-keeps : (n : ℕ) (armed : Bool) (s : src.State) → P s → P (hunt src n armed d s).1
  unfolding hunt
  hunt-keeps zero armed s h = h
  hunt-keeps (suc n) true s h =
      let w = min uart_interbyte_ms (d - src.now s) in
      let s' = (src.next_byte w s).1 in
      grind (arith, step w s h, hunt-keeps n true s', hunt-keeps n false s')
  hunt-keeps (suc n) false s h =
      let w = d - src.now s in
      let s' = (src.next_byte w s).1 in
      grind (arith, step w s h, hunt-keeps n true s', hunt-keeps n false s')

  next_frame_byte-keeps : (s : src.State) → P s → P (next_frame_byte src d s).1
  unfolding next_frame_byte
  next_frame_byte-keeps s h = grind (arith, step (min uart_interbyte_ms (d - src.now s)) s h)

  read_bytes-keeps :
      (k : ℕ) (frame : Bytes) (s : src.State) → P s → P (read_bytes src k d frame s).1
  unfolding read_bytes
  read_bytes-keeps zero frame s h = h
  read_bytes-keeps (suc k) frame s h =
      let s' = (next_frame_byte src d s).1 in
      grind (arith, next_frame_byte-keeps s h, read_bytes-keeps k)

  after_header-keeps :
      (again : Action src.State IoError (Option Bytes))
      → ((s : src.State) → P s → P (again s).1)
      → (got : Result IoError (Option Bytes)) (s : src.State) → P s
      → P (after_header src again d got s).1
  unfolding after_header
  after_header-keeps again more (ok none) s h = more s h
  after_header-keeps again more (ok (some frame)) s h =
      let k = get_or frame 2 0 + frame_crc_len in grind (arith, read_bytes-keeps k frame s h, more)
  after_header-keeps again more (err x) s h = h
  after_header-keeps again more fault s h = h

  after_hunt-keeps :
      (again : Action src.State IoError (Option Bytes))
      → ((s : src.State) → P s → P (again s).1)
      → (end : Result IoError Hunt) (s : src.State) → P s
      → P (after_hunt src again d end s).1
  unfolding after_hunt
  after_hunt-keeps again more (ok locked) s h =
      after_header-keeps again more (read_bytes src frame_hdr_len d [] s).0
        (read_bytes src frame_hdr_len d [] s).1 (read_bytes-keeps frame_hdr_len [] s h)
  after_hunt-keeps again more (ok gave_up) s h = h
  after_hunt-keeps again more (err x) s h = h
  after_hunt-keeps again more fault s h = h

  resync-keeps : (n : ℕ) (s : src.State) → P s → P (resync src n d s).1
  unfolding resync
  resync-keeps zero s h = h
  resync-keeps (suc n) s h =
      let fuel = 2 * src.budget d s + 2 in
      after_hunt-keeps (resync src n d) (resync-keeps n) (hunt src fuel false d s).0
        (hunt src fuel false d s).1 (hunt-keeps fuel false s h)

  pub recv_sof_frame-keeps : (s : src.State) → P s → P (recv_sof_frame src d s).1
  unfolding recv_sof_frame
  recv_sof_frame-keeps s h = resync-keeps (suc (src.budget d s)) s h
