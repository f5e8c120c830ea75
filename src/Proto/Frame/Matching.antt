-- ===== src/Proto/Frame/Matching.antt =====
-- Which frames answer a request.
use open_boot.Base.{◌+◌, ◌<◌, ◌≡◌, true, false, arith, bit_or_top}
use open_boot.Proto.Frame.{Frame, is_frame_error, is_response_to}

-- To a request with an opcode below 0x7F, a matching response has that opcode with the top bit
-- set and the request's sequence number, and it is never a frame-error report.
pub is_response_to_lem :
    (f req : Frame)
    → req.cmd < 0x7f
    → is_response_to f req ≡ true
    → (f.cmd ≡ req.cmd + 128) × (f.seq ≡ req.seq) × (is_frame_error f ≡ false)
unfolding is_response_to is_frame_error
is_response_to_lem f req h e = ground (arith, bit_or_top req.cmd)
