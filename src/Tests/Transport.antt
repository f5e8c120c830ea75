-- ===== src/Tests/Transport.antt =====
-- The theorems of `xfer` and of the start-of-frame hunt on concrete inputs.
use open_boot.Base.{
  ℕ, suc, ◌+◌, ◌≤◌, ◌≡◌, ◌≢◌, refl, subst, false, [], ◌∷◌, ◌++◌, some, ok, fault, Bytes, length,
  arith,
}
use open_boot.Proto.Frame
use open_boot.Proto.Frame.{Frame}
use open_boot.Proto.Frame.RoundTrip.{wire}
use open_boot.Transport.{accept, recv_loop, xfer}
use open_boot.Transport.Xfer.{Discards, none_yet, discard, xfer_first}
use open_boot.Transport.Framing.{encode_sof, hunt, read_bytes, recv_sof_frame}
use open_boot.Transport.Framing.Ends.{recv_sof_frame-ne-fault}
use open_boot.Transport.Framing.Shape.{HasShape, IsContentError, recv_sof_frame-HasShape}
use open_boot.Transport.Framing.Delivery.{
  has_sof, Delivers, all_read, arrives, recv_sof_frame-Delivers,
}
use open_boot.Transport.Framing.RoundTrip.{recv-decode}
use open_boot.Tests.Instances.{sum_crc, Line, script, Wire, tape}
use open_boot.Tests.Proto.{request, response}

-- A corrupt frame, an old answer, then the answer.
abbrev stale : Bytes
stale = wire sum_crc (record response { seq = 6 })

abbrev noisy : Line
noisy = record { clock = 0; incoming = (1 ∷ 2 ∷ []) ∷ stale ∷ wire sum_crc response ∷ []; log = [] }

abbrev silent : Line
silent = record { clock = 0; incoming = stale ∷ []; log = [] }

answered : (xfer sum_crc script request 500 noisy).0 ≡ ok response
unfolding xfer recv_loop accept Frame.encode Frame.decode Frame.is_frame_error Frame.is_response_to
answered = refl

-- The first two frames of `noisy` are passed over.
abbrev after_noise : Line
after_noise = record {
  clock = 2;
  incoming = wire sum_crc response ∷ [];
  log = wire sum_crc request ∷ [];
}

noise_discarded :
    Discards sum_crc script request 500
      (script.send_frame (wire sum_crc request) noisy).1
      after_noise
unfolding accept Frame.decode Frame.is_frame_error Frame.is_response_to
noise_discarded = discard (1 ∷ 2 ∷ []) refl refl (discard stale refl refl none_yet)

response_accepted : accept sum_crc request (wire sum_crc response) ≡ some response
unfolding accept Frame.decode Frame.is_frame_error Frame.is_response_to
response_accepted = refl

xfer_first_example :
    xfer sum_crc script request 500 noisy
    ≡ (ok response, record { clock = 3; incoming = []; log = wire sum_crc request ∷ [] })
xfer_first_example =
    xfer_first sum_crc script request 500 noisy {s' = after_noise} (wire sum_crc response) response
      (omega arith) refl noise_discarded refl response_accepted

stale_discarded :
    Discards sum_crc script request 500
      (script.send_frame (wire sum_crc request) silent).1
      (record { clock = 1; incoming = []; log = wire sum_crc request ∷ [] })
unfolding accept Frame.decode Frame.is_frame_error Frame.is_response_to
stale_discarded = discard stale refl refl none_yet

-- The bytes of a frame behind some noise: a lone start byte and a byte that is none.
abbrev noise : Bytes
noise = 0xa5 ∷ 1 ∷ []

abbrev on_wire : Wire
on_wire = record { clock = 0; bytes = noise ++ encode_sof (wire sum_crc request) }

abbrev read_out : Wire
read_out = record { clock = length on_wire.bytes; bytes = [] }

noise_clean : has_sof false noise ≡ false
unfolding has_sof
noise_clean = refl

delivered :
    (n : ℕ) (bs : Bytes)
    → n + length bs ≤ 100
    → Delivers tape 100
        (record { clock = n; bytes = bs })
        bs
        (record { clock = n + length bs; bytes = [] })
delivered n [] h =
    let e : n ≡ n + 0 = omega arith in
    subst
      (λ k.
        Delivers tape 100 (record { clock = n; bytes = [] }) [] (record { clock = k; bytes = [] }))
      e all_read
delivered n (b ∷ bs) h =
    let e : n + 1 + length bs ≡ n + suc (length bs) = omega arith in
    arrives b (record { clock = n + 1; bytes = bs }) (omega arith) (λ w. refl)
      (subst
        (λ k.
          Delivers tape 100 (record { clock = n + 1; bytes = bs }) bs
            (record { clock = k; bytes = [] }))
        e (delivered (n + 1) bs (omega arith)))

all_delivered : Delivers tape 100 on_wire (noise ++ encode_sof (wire sum_crc request)) read_out
unfolding encode_sof
all_delivered = delivered 0 on_wire.bytes (omega arith)

recv-decode_example :
    (recv_sof_frame tape 100 on_wire ≡ (ok (some (wire sum_crc request)), read_out))
    × (Frame.decode sum_crc (wire sum_crc request) ≡ ok request)
recv-decode_example =
    recv-decode sum_crc tape 100 request noise {s = on_wire} {s' = read_out} (omega arith)
      noise_clean all_delivered

request-HasShape : HasShape (wire sum_crc request)
request-HasShape = record { whole = refl; fits = omega arith }

recv_sof_frame-Delivers_example :
    recv_sof_frame tape 100 on_wire ≡ (ok (some (wire sum_crc request)), read_out)
recv_sof_frame-Delivers_example =
    recv_sof_frame-Delivers tape 100 noise (wire sum_crc request) {s = on_wire} {s' = read_out}
      noise_clean request-HasShape all_delivered

recv_sof_frame-ne-fault_example : (recv_sof_frame tape 100 on_wire).0 ≢ fault
recv_sof_frame-ne-fault_example = recv_sof_frame-ne-fault tape 100 on_wire

arrived : (recv_sof_frame tape 100 on_wire).0 ≡ ok (some (wire sum_crc request))
unfolding recv_sof_frame hunt encode_sof read_bytes
arrived = refl

recv_sof_frame-HasShape_example :
    HasShape (wire sum_crc request) × IsContentError (Frame.decode sum_crc (wire sum_crc request))
recv_sof_frame-HasShape_example =
    recv_sof_frame-HasShape tape 100 sum_crc on_wire (wire sum_crc request) arrived
