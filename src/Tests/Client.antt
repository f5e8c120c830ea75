-- ===== src/Tests/Client.antt =====
-- The theorems of the client on concrete sessions.
use open_boot.Base.{
  ℕ, ◌+◌, ◌≤◌, ◌≡◌, refl, ap, List, [], ◌∷◌, ◌++◌, Option, none, some, Result, ok, err, Bytes,
  length, arith,
}
use open_boot.Proto.Consts.{proto_major, cmd_crc, cmd_boot, cmd_hello, cmd_frame_err}
use open_boot.Proto.Consts
use open_boot.Proto.Frame
use open_boot.Proto.Frame.{Frame}
use open_boot.Proto.Frame.RoundTrip.{wire}
use open_boot.Proto.Status.{first, from_payload}
use open_boot.Proto.DeviceInfo
use open_boot.Proto.DeviceInfo.{DeviceInfo, IsUsable}
use open_boot.Proto.DeviceInfo.Layout.{hello_payload}
use open_boot.Proto.Requests.{hello_req_payload, boot_req_payload}
use open_boot.Transport.{TransportError, accept, xfer}
use open_boot.Client
use open_boot.Client.{
  Client, Command, ClientError, exhausted, device, RetryPolicy, RetryReason, timed_out, frame_error,
  Attempt, BootMode, attempt, attempts, classify, settle, run, boot, boot_wire, hello,
}
use open_boot.Client.Attempts.{request}
use open_boot.Client.Retry.{burst, Retries, no_more, once_more, run_accepted, run-sent, boot-sent}
use open_boot.Client.Endings.{Refuses, device_refused, exhaustion, run_refused, run_gives_up}
use open_boot.Client.Outcome.{greet, hello-IsUsable}
use open_boot.Tests.Instances.{sum_crc, script}
use open_boot.Tests.Proto.{two_slots}

abbrev answer : ℕ → Bytes → Bytes
answer seq payload = wire sum_crc (record { cmd = cmd_crc + 0x80; seq = seq; payload = payload })

abbrev complaint : Bytes
complaint = wire sum_crc (record { cmd = cmd_frame_err; seq = 0; payload = 1 ∷ [] })

abbrev session : ℕ → List Bytes → List Bytes → ℕ → Client script
session clock incoming log seq = record {
  transport = record { clock = clock; incoming = incoming; log = log };
  seq = seq;
}

abbrev sent_at : ℕ → Bytes
sent_at seq = wire sum_crc (request cmd_crc seq (9 ∷ []))

abbrev twice : RetryPolicy
twice = RetryPolicy.retry 2

twice-attempts : attempts twice ≡ 2
unfolding attempts
twice-attempts = refl

-- The device complains of the first frame, and then answers.
complained :
    (last : Bytes)
    → Retries sum_crc script Command.crc cmd_crc
        (9 ∷ [])
        500
        twice
        1
        none
        (session 0 (complaint ∷ last ∷ []) [] 0)
        (some (frame_error 1 none))
        (session 1 (last ∷ []) (sent_at 0 ∷ []) 1)
unfolding attempt Frame.new xfer accept Frame.encode Frame.decode Frame.is_frame_error
    Frame.is_response_to classify settle
complained last = once_more (frame_error 1 none) refl no_more

done :
    (attempt sum_crc script Command.crc cmd_crc
      (9 ∷ [])
      500
      (session 1 (answer 1 (0 ∷ 3 ∷ []) ∷ []) (sent_at 0 ∷ []) 1))
    ≡ (ok (Attempt.done (0 ∷ 3 ∷ [])), session 2 [] (sent_at 0 ∷ sent_at 1 ∷ []) 2)
unfolding attempt Frame.new xfer accept Frame.encode Frame.decode Frame.is_frame_error
    Frame.is_response_to classify settle from_payload
done = refl

run_accepted_example :
    run sum_crc script Command.crc cmd_crc
      (9 ∷ [])
      500
      twice
      (session 0 (complaint ∷ answer 1 (0 ∷ 3 ∷ []) ∷ []) [] 0)
    ≡ (
      ok (0 ∷ 3 ∷ []),
      (attempt sum_crc script Command.crc cmd_crc
          (9 ∷ [])
          500
          (session 1 (answer 1 (0 ∷ 3 ∷ []) ∷ []) (sent_at 0 ∷ []) 1)).1,
    )
run_accepted_example =
    run_accepted sum_crc script Command.crc cmd_crc (9 ∷ []) 500 twice 1 (0 ∷ 3 ∷ [])
      (omega (arith, twice-attempts)) (complained (answer 1 (0 ∷ 3 ∷ []))) (ap (λ r. r.0) done)

abbrev behind_complaint : Client script
behind_complaint = session 1 (answer 1 (5 ∷ 3 ∷ []) ∷ []) (sent_at 0 ∷ []) 1

abbrev exchanged : Result TransportError Frame × script.State
exchanged =
    xfer sum_crc script (request cmd_crc 1 (9 ∷ [])) 500
      (record { clock = 1; incoming = answer 1 (5 ∷ 3 ∷ []) ∷ []; log = sent_at 0 ∷ [] })

refused :
    Refuses Command.crc exchanged.0 (device Command.crc (record { status = 5; detail = some 3 }))
unfolding xfer accept Frame.encode Frame.decode Frame.is_frame_error Frame.is_response_to
refused =
    device_refused (record { cmd = cmd_crc + 0x80; seq = 1; payload = 5 ∷ 3 ∷ [] }) 5 (3 ∷ []) refl
      refl (λ e. cc)

run_refused_example :
    run sum_crc script Command.crc cmd_crc
      (9 ∷ [])
      500
      twice
      (session 0 (complaint ∷ answer 1 (5 ∷ 3 ∷ []) ∷ []) [] 0)
    ≡ (
      err (device Command.crc (record { status = 5; detail = some 3 })),
      record { transport = exchanged.1; seq = 2 },
    )
run_refused_example =
    run_refused sum_crc script Command.crc cmd_crc (9 ∷ []) 500 twice 1
      (device Command.crc (record { status = 5; detail = some 3 })) (omega arith)
      (omega (arith, twice-attempts)) (complained (answer 1 (5 ∷ 3 ∷ []))) refused

-- Nothing comes back.
timed_out_twice :
    Retries sum_crc script Command.crc cmd_crc
      (9 ∷ [])
      500
      twice
      (attempts twice)
      none
      (session 0 [] [] 0)
      (some timed_out)
      (session 1000 [] (sent_at 0 ∷ sent_at 1 ∷ []) 2)
unfolding attempts attempt Frame.new xfer Frame.encode classify
timed_out_twice = once_more timed_out refl (once_more timed_out refl no_more)

run_gives_up_example :
    (reason : RetryReason) × ((let last : Option RetryReason = some timed_out in last)
      ≡ some reason)
    × (run sum_crc script Command.crc cmd_crc (9 ∷ []) 500 twice (session 0 [] [] 0) ≡ (
      err (exhaustion Command.crc twice reason),
      session 1000 [] (sent_at 0 ∷ sent_at 1 ∷ []) 2,
    ))
run_gives_up_example =
    run_gives_up sum_crc script Command.crc cmd_crc (9 ∷ []) 500 twice
      (omega (arith, twice-attempts)) timed_out_twice

run-sent_example :
    (k : ℕ) × (1 ≤ k)
    × (k ≤ attempts twice)
    × (script.sent
          (run sum_crc script Command.crc cmd_crc
            (9 ∷ [])
            500
            twice
            (session 0 (complaint ∷ []) [] 255)).1.transport
        ≡ [] ++ burst sum_crc cmd_crc (9 ∷ []) k 255)
run-sent_example =
    run-sent sum_crc script Command.crc cmd_crc (9 ∷ []) 500 twice (omega arith)
      (session 0 (complaint ∷ []) [] 255) (omega (arith, twice-attempts))

boot-sent_example :
    script.sent (boot sum_crc script BootMode.stay (session 0 (complaint ∷ []) [] 4)).1.transport
    ≡ [] ++ (wire sum_crc (request cmd_boot 4 (boot_req_payload (boot_wire BootMode.stay))) ∷ [])
boot-sent_example = boot-sent sum_crc script BootMode.stay (session 0 (complaint ∷ []) [] 4)

accepted :
    (run sum_crc script Command.crc cmd_crc
      (9 ∷ [])
      500
      twice
      (session 0 (complaint ∷ answer 1 (0 ∷ 3 ∷ []) ∷ []) [] 0)).0
    ≡ ok (0 ∷ 3 ∷ [])
accepted =
    ap (λ r. r.0)
      (run_accepted sum_crc script Command.crc cmd_crc (9 ∷ []) 500 twice 1 (0 ∷ 3 ∷ [])
        (omega (arith, twice-attempts)) (complained (answer 1 (0 ∷ 3 ∷ []))) (ap (λ r. r.0) done))

-- A device that answers HELLO.
abbrev greeting : Client script
greeting =
    session 0
      (wire sum_crc
          (record { cmd = cmd_hello + 0x80; seq = 0; payload = hello_payload 0 0 two_slots })
        ∷ [])
      [] 0

greeted : (hello sum_crc script greeting).0 ≡ ok two_slots
unfolding hello run attempts attempt Frame.new xfer accept Frame.encode Frame.decode
    Frame.is_frame_error Frame.is_response_to classify settle from_payload DeviceInfo.parse
    DeviceInfo.read_fields hello_payload hello_req_payload Client.run_loop
greeted = refl

hello-IsUsable_example :
    (two_slots.proto_major ≡ proto_major)
    × IsUsable two_slots
    × ((resp : Bytes) × ((greet sum_crc script greeting).0 ≡ ok resp)
        × (first resp ≡ some Consts.ok)
        × (Consts.hello_resp_len ≤ length resp)
        × (two_slots ≡ DeviceInfo.read_fields resp))
hello-IsUsable_example = hello-IsUsable sum_crc script greeting two_slots greeted
