-- ===== src/Proto/Frame.antt =====
-- tools/src/proto/mod.rs: `Frame`, its encoder and decoder, `FrameError`, response matching.
-- A byte buffer is a list of numbers. The reads of `decode` stand under `within`, which panics where
-- one of them is out of range.
pub mod RoundTrip
pub mod Sound
pub mod Matching
use open_boot.Base.{
  ℕ, ◌+◌, ◌%◌, ◌≤◌, Bool, not, ◌&&◌, List, [], ◌∷◌, ◌++◌, Result, ok, err, fault, Bytes, IsByte,
  All, length, get_or, take, slice, ltb, leb, ◌==◌, if◌then◌else◌, u32_le, u32_of, bit_or, within,
}
use open_boot.Proto.Consts.{frame_hdr_len, frame_overhead, max_payload, cmd_frame_err, cmd_resp_bit}
use open_boot.Proto.Crc32.{Crc32}

pub record Frame : Type 0 where
  pub cmd : ℕ
  pub seq : ℕ
  pub payload : Bytes

pub data FrameError : Type 0 where
  too_short : ℕ → FrameError
  payload_too_long : ℕ → FrameError
  truncated : ℕ → ℕ → FrameError
  bad_flags : ℕ → FrameError
  bad_crc : ℕ → ℕ → FrameError

-- `Frame::new`: a payload above the limit fails an assertion.
unfoldable pub new : {E : Type 0} → ℕ → ℕ → Bytes → Result E Frame
new cmd seq payload =
    if leb (length payload) max_payload
    then ok (record { cmd = cmd; seq = seq; payload = payload })
    else fault

unfoldable pub wire_len : Frame → ℕ
wire_len f = frame_overhead + length f.payload

-- What the checksum is taken over: the header and the payload.
abbrev pub body : Frame → Bytes
body f = f.cmd ∷ f.seq ∷ length f.payload % 256 ∷ 0 ∷ f.payload

-- `self.cmd == OB_CMD_FRAME_ERR`
unfoldable pub is_frame_error : Frame → Bool
is_frame_error f = f.cmd == cmd_frame_err

unfoldable pub is_response_to : Frame → Frame → Bool
is_response_to f req = (f.cmd == bit_or req.cmd cmd_resp_bit) && (f.seq == req.seq)

module _ (crc : Crc32) where
  -- The same assertion as in `new`, then the body and its checksum.
  unfoldable pub encode : {E : Type 0} → Frame → Result E Bytes
  encode f =
      if leb (length f.payload) max_payload
      then ok (body f ++ u32_le (crc.hash (body f)))
      else fault

  unfoldable pub decode : Bytes → Result FrameError Frame
  decode buf =
      let len = get_or buf 2 0 in
      let total = frame_overhead + len in
      let flags = get_or buf 3 0 in
      let body_end = frame_hdr_len + len in
      let computed = crc.hash (take body_end buf) in
      let received =
        u32_of (get_or buf body_end 0) (get_or buf (body_end + 1) 0) (get_or buf (body_end + 2) 0)
          (get_or buf (body_end + 3) 0) in
      if ltb (length buf) frame_overhead
      then err (too_short (length buf))
      else within frame_hdr_len buf (
          if ltb max_payload len
          then err (payload_too_long len)
          else if ltb (length buf) total
          then err (truncated len (length buf))
          else if not (flags == 0)
          then err (bad_flags flags)
          else within (body_end + 4) buf (
              if not (computed == received)
              then err (bad_crc computed received)
              else ok (record {
                cmd = get_or buf 0 0;
                seq = get_or buf 1 0;
                payload = slice buf frame_hdr_len body_end;
              })))

-- A frame that the program can build: byte-sized fields and a payload within the limit.
pub record IsValid (f : Frame) : Type 0 where
  pub cmd_byte : IsByte f.cmd
  pub seq_byte : IsByte f.seq
  pub payload_bytes : All IsByte f.payload
  pub fits : length f.payload ≤ max_payload
