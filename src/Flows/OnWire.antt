-- ===== src/Flows/OnWire.antt =====
-- A flow over the client, down to the frames.
use open_boot.Base.{
  ℕ, ◌≤◌, ◌≡◌, refl, sym, ap, ◌∙◌, inl, inr, List, [], ◌∷◌, ◌++◌, append_assoc, append-nil, Bytes,
  length, arith,
}
use open_boot.Base.Actions.{Action, ◌>>=◌, >>=-cases}
use open_boot.Proto.Consts.{
  cmd_hello, cmd_erase, cmd_write, cmd_crc, cmd_commit, cmd_boot, max_payload, max_write_data,
  proto_major, proto_minor,
}
use open_boot.Proto.Crc32.{Crc32}
use open_boot.Proto.Requests.{
  hello_req_payload, erase_req_payload, write_req_payload, crc_req_payload, commit_req_payload,
  boot_req_payload,
}
use open_boot.Bundle.Source.{Source}
use open_boot.Transport.{Transport}
use open_boot.Client
use open_boot.Client.{
  Client, ClientError, Command, RetryPolicy, BootMode, run, boot_wire, max_attempts, attempts,
  finish_hello,
}
use open_boot.Client.Retry.{burst, run-sent, discard-state}
use open_boot.Flows.{FlashOpts, flash}
use open_boot.Flows.Commands.{Call}
use open_boot.Flows.OverClient.{over_client, logged}
use open_boot.Flows.Stepping.{flash-step}

-- The command, the payload and the number of attempts of a call.
abbrev pub command_of : Call → ℕ
command_of Call.hello = cmd_hello
command_of (Call.erase a l b) = cmd_erase
command_of (Call.write a bs) = cmd_write
command_of (Call.commit l c) = cmd_commit
command_of (Call.crc a l) = cmd_crc
command_of (Call.boot m) = cmd_boot

abbrev pub payload_of : Call → Bytes
payload_of Call.hello = hello_req_payload proto_major proto_minor
payload_of (Call.erase a l b) = erase_req_payload a l
payload_of (Call.write a bs) = write_req_payload a bs
payload_of (Call.commit l c) = commit_req_payload l c
payload_of (Call.crc a l) = crc_req_payload a l
payload_of (Call.boot m) = boot_req_payload (boot_wire m)

abbrev pub most_of : Call → ℕ
most_of Call.hello = max_attempts
most_of (Call.erase a l b) = max_attempts
most_of (Call.write a bs) = max_attempts
most_of (Call.commit l c) = max_attempts
most_of (Call.crc a l) = max_attempts
most_of (Call.boot m) = 1

module _ (crc : Crc32) where
  -- The frames of some calls, in order: for each call one to so many encodings of its request, with
  -- consecutive sequence numbers, and no others.
  pub data Carries : List Call → List Bytes → Type 0 where
    no_calls : Carries [] []
    carried :
        (calls : List Call) (frames : List Bytes) (call : Call) (k seq : ℕ)
        → Carries calls frames
        → 1 ≤ k
        → k ≤ most_of call
        → Carries
            (calls ++ (call ∷ []))
            (frames ++ burst crc (command_of call) (payload_of call) k seq)

  module _ (t : Transport) where
    -- Since the calls and the frames before, the frames handed over are those of the calls made.
    pub record OnWire (calls0 : List Call) (frames0 : List Bytes) (s : Client t × List Call)
        : Type 0 where
      pub calls : List Call
      pub frames : List Bytes
      pub log : s.1 ≡ calls0 ++ calls
      pub sent : t.sent s.0.transport ≡ frames0 ++ frames
      pub carries : Carries calls frames

    after-state :
        {A B : Type 0} (m : Action (Client t) ClientError A)
        (f : A → Action (Client t) ClientError B) (c : Client t)
        → ((a : A) (c' : Client t) → (f a c').1 ≡ c')
        → ((m >>= f) c).1 ≡ (m c).1
    after-state m f c h = elim (>>=-cases m f c) [
      | inl (a, gives_a, eq) ↦ ap (λ r. r.1) eq ∙ h a (m c).1
      | inr (same, failed) ↦ same
    ]

    module _ (calls0 : List Call) (frames0 : List Bytes) where
      -- A call that leaves the client in the state of its run.
      call-OnWire :
          {A : Type 0} (call : Call) (m : Action (Client t) ClientError A) (name : Command) (ms : ℕ)
          (policy : RetryPolicy) (s : Client t × List Call)
          → length (payload_of call) ≤ max_payload
          → 1 ≤ attempts policy
          → attempts policy ≤ most_of call
          → (m s.0).1 ≡ (run crc t name (command_of call) (payload_of call) ms policy s.0).1
          → OnWire calls0 frames0 s
          → OnWire calls0 frames0 (logged crc t call m s).1
      call-OnWire call m name ms policy s fits some_try few same w =
          let (k, least, most, sent) =
            run-sent crc t name (command_of call) (payload_of call) ms policy fits s.0 some_try in
          let shot = burst crc (command_of call) (payload_of call) k s.0.seq in
          record {
            calls = w.calls ++ (call ∷ []);
            frames = w.frames ++ shot;
            log = ap (λ l. l ++ (call ∷ [])) w.log ∙ append_assoc calls0 w.calls (call ∷ []);
            sent =
                ap (λ (c : Client t). t.sent c.transport) same
                ∙ sent
                ∙ ap (λ l. l ++ shot) w.sent
                ∙ append_assoc frames0 w.frames shot;
            carries = carried w.calls w.frames call k s.0.seq w.carries least (omega arith);
          }

      abbrev three : RetryPolicy
      three = RetryPolicy.retry max_attempts

      hello-OnWire :
          (s : Client t × List Call)
          → OnWire calls0 frames0 s
          → OnWire calls0 frames0 ((over_client crc t).hello s).1
      unfolding Client.hello attempts finish_hello
      hello-OnWire s w =
          let m =
            run crc t Command.hello cmd_hello (hello_req_payload proto_major proto_minor)
              Client.hello_timeout (RetryPolicy.retry max_attempts) in
          call-OnWire Call.hello (Client.hello crc t) Command.hello Client.hello_timeout
            (RetryPolicy.retry max_attempts) s (unfold hello_req_payload in omega arith)
            (omega arith) (omega arith)
            (after-state m (finish_hello crc t) s.0 (λ resp c. ground arith)) w

      erase-OnWire :
          (a l b : ℕ) (s : Client t × List Call)
          → OnWire calls0 frames0 s
          → OnWire calls0 frames0 ((over_client crc t).erase a l b s).1
      unfolding Client.erase attempts
      erase-OnWire a l b s w =
          call-OnWire (Call.erase a l b) (Client.erase crc t a l b) Command.erase
            (Client.erase_timeout b) three s (unfold erase_req_payload in omega arith) (omega arith)
            (omega arith)
            (discard-state crc t
              (run crc t Command.erase cmd_erase (erase_req_payload a l) (Client.erase_timeout b)
                three)
              s.0)
            w

      write-OnWire :
          (a : ℕ) (bs : Bytes) (s : Client t × List Call)
          → length bs ≤ max_write_data
          → OnWire calls0 frames0 s
          → OnWire calls0 frames0 ((over_client crc t).write a bs s).1
      unfolding Client.write attempts
      write-OnWire a bs s short w =
          call-OnWire (Call.write a bs) (Client.write crc t a bs) Command.write Client.write_timeout
            three s (unfold write_req_payload in omega arith) (omega arith) (omega arith)
            (discard-state crc t
              (run crc t Command.write cmd_write (write_req_payload a bs) Client.write_timeout
                three)
              s.0)
            w

      commit-OnWire :
          (l c : ℕ) (s : Client t × List Call)
          → OnWire calls0 frames0 s
          → OnWire calls0 frames0 ((over_client crc t).commit l c s).1
      unfolding Client.commit attempts
      commit-OnWire l c s w =
          call-OnWire (Call.commit l c) (Client.commit crc t l c) Command.commit
            Client.commit_timeout three s (unfold commit_req_payload in omega arith) (omega arith)
            (omega arith)
            (discard-state crc t
              (run crc t Command.commit cmd_commit (commit_req_payload l c) Client.commit_timeout
                three)
              s.0)
            w

      crc-OnWire :
          (a l : ℕ) (s : Client t × List Call)
          → OnWire calls0 frames0 s
          → OnWire calls0 frames0 ((over_client crc t).crc a l s).1
      unfolding Client.crc_of attempts
      crc-OnWire a l s w =
          let m = run crc t Command.crc cmd_crc (crc_req_payload a l) Client.crc_timeout three in
          call-OnWire (Call.crc a l) (Client.crc_of crc t a l) Command.crc Client.crc_timeout three
            s (unfold crc_req_payload erase_req_payload in omega arith) (omega arith) (omega arith)
            (after-state m _ s.0 (λ resp c. refl)) w

      boot-OnWire :
          (m : BootMode) (s : Client t × List Call)
          → OnWire calls0 frames0 s
          → OnWire calls0 frames0 ((over_client crc t).boot m s).1
      unfolding Client.boot attempts
      boot-OnWire m s w =
          call-OnWire (Call.boot m) (Client.boot crc t m) Command.boot Client.boot_timeout
            RetryPolicy.once s (unfold boot_req_payload in omega arith) (omega arith) (omega arith)
            (discard-state crc t
              (run crc t Command.boot cmd_boot (boot_req_payload (boot_wire m)) Client.boot_timeout
                RetryPolicy.once)
              s.0)
            w

    -- Whatever comes of `flash` over the client, the frames that it hands to the transport are those
    -- of the calls that it makes, call by call and in their order: for each call at least one encoding
    -- of its request and at most three, or one for BOOT, with consecutive sequence numbers, and no
    -- others.
    pub flash-OnWire :
        (source : Source) (opts : FlashOpts) (s : Client t × List Call)
        → OnWire s.1 (t.sent s.0.transport) (flash (over_client crc t) crc source opts s).1
    flash-OnWire source opts s =
        let calls0 = s.1 in
        let frames0 = t.sent s.0.transport in
        flash-step (over_client crc t) (OnWire calls0 frames0) (hello-OnWire calls0 frames0)
          (erase-OnWire calls0 frames0) (write-OnWire calls0 frames0) (commit-OnWire calls0 frames0)
          (crc-OnWire calls0 frames0) (boot-OnWire calls0 frames0) crc source opts s
          (record {
            calls = [];
            frames = [];
            log = sym (append-nil calls0);
            sent = sym (append-nil frames0);
            carries = no_calls;
          })
