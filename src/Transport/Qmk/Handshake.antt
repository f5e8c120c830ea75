-- ===== src/Transport/Qmk/Handshake.antt =====
-- tools/src/transport/qmk.rs: entering the bootloader through the keyboard, and leaving it.
use open_boot.Base.{
  ℕ, zero, suc, ◌+◌, ◌-◌, ◌%◌, ◌^◌, min, Bool, true, false, ◌||◌, [], ◌∷◌, ◌++◌, Option, none, some,
  Result, ok, err, fault, Bytes, ltb, leb, ◌==◌, if◌then◌else◌, u16_le, u32_le, map_err,
}
use open_boot.Base.Actions.{Action, raise, ◌>>=◌, ◌>>◌}
use open_boot.Proto.Consts.{cmd_boot, cmd_hello, proto_major, proto_minor, boot_app}
use open_boot.Proto.Crc32.{Crc32}
use open_boot.Proto.Frame
use open_boot.Proto.Frame.{Frame}
use open_boot.Proto.Requests.{hello_req_payload, boot_req_payload}
use open_boot.Transport
use open_boot.Transport.{IoError, TransportError, xfer}
use open_boot.Transport.Framing.{recv_sof_frame}
use open_boot.Transport.Qmk.{
  ReportLink, Qmk, QmkOpts, QmkError, EnterError, io, no_answer, never_acked, bootloader_silent,
  no_ack, other, BridgeStatus, op_enter, op_status, op_exit, enter_magic, enter_flag_force,
  st_settling, st_passthru, verdict, parse_status, anchor_from_elapsed,
}
use open_boot.Transport.Qmk.Pipe.{write_control, read_control, send_frame}
use open_boot.Transport.Qmk.Tunnel.{bytes, tunnel}

-- The `?` operator, with the conversion of the error.
abbrev pub with_error : {S E F A : Type 0} → (E → F) → Action S E A → Action S F A
with_error f m s = (map_err f (m s).0, (m s).1)

abbrev pub enter_io : IoError → EnterError
enter_io e = other (io e)

-- `enter(true, opts)` with the errors of a forced attempt.
abbrev pub forced_error : EnterError → QmkError
forced_error no_ack = never_acked
forced_error (other e) = e

-- `.and_then(parse_status).ok_or_else(..)`
abbrev pub status_of : Option Bytes → Option BridgeStatus
status_of none = none
status_of (some payload) = parse_status payload

module _ (link : ReportLink) where
  abbrev here : Qmk link.State → ℕ
  here s = link.now s.link

  -- One round of the loop of `enter`, up to the payload: a poll where it is due, and a read.
  unfoldable pub poll_round : Bool → ℕ → Action (Qmk link.State) EnterError (Option Bytes)
  unfolding write_control read_control
  poll_round true until s =
      (with_error enter_io (write_control link op_status [])
          >> with_error enter_io (read_control link until))
        s
  poll_round false until s = with_error enter_io (read_control link until) s

  -- The answer of `enter`, where the payload has one: the anchor is read off the clock.
  abbrev pub answered : Result EnterError ℕ → Action (Qmk link.State) EnterError ℕ
  answered (ok elapsed) s = (ok (anchor_from_elapsed (here s) elapsed), s)
  answered (err e) s = (err e, s)
  answered fault s = (fault, s)

  -- The loop of `enter`. The fuel bounds the polls and the payloads.
  unfoldable pub enter_loop : ℕ → ℕ → ℕ → ℕ → Action (Qmk link.State) EnterError ℕ
  unfolding poll_round verdict anchor_from_elapsed
  enter_loop zero poll_ms give_up next_poll s = (fault, s)
  enter_loop (suc n) poll_ms give_up next_poll s =
      let due = leb next_poll (here s) in
      let next = if due then here s + poll_ms else next_poll in
      let r = poll_round due (min next give_up) s in
      let again = enter_loop n poll_ms give_up next r.1 in
      elim (leb give_up (here s)) [
        | true ↦ (err no_ack, s)
        | false ↦ elim r.0 [
          | err e ↦ (err e, r.1)
          | fault ↦ (fault, r.1)
          | ok none ↦ again
          | ok (some payload) ↦ elim (verdict payload) [
            | none ↦ again
            | some answer ↦ answered answer r.1
          ]
        ]
      ]

  -- What follows the ENTER report.
  unfoldable pub await_ack : QmkOpts → Action (Qmk link.State) EnterError ℕ
  unfolding enter_loop
  await_ack opts s =
      let give_up = here s + opts.enter_ack_timeout in
      enter_loop (suc (opts.enter_ack_timeout + link.budget give_up s.link)) opts.status_poll
        give_up (here s) s

  unfoldable pub enter : Bool → QmkOpts → Action (Qmk link.State) EnterError ℕ
  unfolding await_ack write_control
  enter force opts = do
    with_error enter_io (
        write_control link op_enter (
          u32_le enter_magic
          ++ u16_le opts.settle_hint_ms
          ++ ((if force then enter_flag_force else 0) ∷ [])))
    await_ack opts

  abbrev pub or_force : QmkOpts → Result EnterError ℕ → Action (Qmk link.State) QmkError ℕ
  or_force opts (ok anchor) s = (ok anchor, s)
  or_force opts (err no_ack) s = with_error forced_error (enter true opts) s
  or_force opts (err (other e)) s = (err e, s)
  or_force opts fault s = (fault, s)

  -- The anchor, from the first status of the keyboard.
  unfoldable pub anchor_for : QmkOpts → BridgeStatus → Action (Qmk link.State) QmkError ℕ
  unfolding enter anchor_from_elapsed
  anchor_for opts initial s =
      let fresh = or_force opts (enter false opts s).0 (enter false opts s).1 in
      if (initial.state == st_passthru) || (initial.state == st_settling)
      then (ok (anchor_from_elapsed (here s) initial.elapsed_ms), s)
      else fresh

  abbrev pub expect_status : Option BridgeStatus → Action (Qmk link.State) QmkError BridgeStatus
  expect_status none s = (err no_answer, s)
  expect_status (some status) s = (ok status, s)

  unfoldable pub first_status : QmkOpts → Action (Qmk link.State) QmkError BridgeStatus
  unfolding write_control read_control parse_status
  first_status opts s =
      (with_error io (write_control link op_status [])
          >> with_error io (read_control link (here s + opts.enter_ack_timeout))
          >>= λ answer. expect_status (status_of answer))
        s

  abbrev pub open_passthrough : Action (Qmk link.State) QmkError (Unit {0})
  open_passthrough s = (ok tt, record s { passthrough = true })

  abbrev pub rest_for : ℕ → Qmk link.State → Qmk link.State
  rest_for ms s = record s { link = link.sleep ms s.link }

  abbrev pub settle : ℕ → Qmk link.State → Qmk link.State
  settle until s = if ltb (here s) until then rest_for (until - here s) s else s

  module _ (crc : Crc32) where
    abbrev pub probe_request : ℕ → Frame
    probe_request seq = record {
      cmd = cmd_hello;
      seq = seq;
      payload = hello_req_payload proto_major proto_minor;
    }

    -- One HELLO, behind `rx.clear()`.
    unfoldable pub probe : ℕ → ℕ → Action (Qmk link.State) TransportError Frame
    unfolding xfer
    probe seq timeout_ms s =
        let r = xfer crc (tunnel link) (probe_request seq) timeout_ms (record s { rx = [] }, []) in
        (r.0, r.1.0)

    -- The loop of `probe_until_alive`. The fuel bounds the probes.
    unfoldable pub probe_loop : ℕ → QmkOpts → ℕ → ℕ → Action (Qmk link.State) QmkError (Unit {0})
    unfolding probe
    probe_loop zero opts anchor seq s = (fault, s)
    probe_loop (suc n) opts anchor seq s =
        let r = probe seq opts.probe_timeout s in
        let again = probe_loop n opts anchor ((seq + 255) % 2 ^ 8) (rest_for opts.probe_gap r.1) in
        elim (leb (anchor + opts.enter_deadline) (here s)) [
          | true ↦ (err bootloader_silent, s)
          | false ↦ elim r.0 [
            | ok f ↦
                if Frame.is_frame_error f
                then again
                else (ok tt, record r.1 { settled = here r.1 - anchor; rx = []; entered = true })
            | err Transport.timeout ↦ again
            | err (Transport.io e) ↦ (err (io e), r.1)
            | fault ↦ (fault, r.1)
          ]
        ]

    unfoldable pub probe_until_alive : ℕ → QmkOpts → Action (Qmk link.State) QmkError (Unit {0})
    unfolding probe_loop
    probe_until_alive anchor opts s =
        let s1 = settle (anchor + opts.settle_min) s in
        probe_loop (suc (anchor + opts.enter_deadline - here s1)) opts anchor 255 s1

    unfoldable pub handshake : QmkOpts → Action (Qmk link.State) QmkError (Unit {0})
    unfolding first_status anchor_for probe_until_alive
    handshake opts = do
      initial ← first_status opts
      anchor ← anchor_for opts initial
      open_passthrough
      probe_until_alive anchor opts

    -- The BOOT frame of the teardown, and the wait for an answer. Their results are dropped.
    abbrev pub boot_request : Frame
    boot_request = record { cmd = cmd_boot; seq = 240; payload = boot_req_payload boot_app }

    unfoldable pub send_boot : Result QmkError Bytes → Action (Qmk link.State) QmkError (Unit {0})
    unfolding send_frame recv_sof_frame
    send_boot (ok frame) s =
        let s1 = (send_frame link frame s).1 in
        (ok tt, (recv_sof_frame (bytes link) (here s1 + 400) s1).1)
    send_boot (err e) s = (ok tt, s)
    send_boot fault s = (fault, s)

    unfoldable pub boot_app_once : Action (Qmk link.State) QmkError (Unit {0})
    unfolding send_boot
    boot_app_once s = elim s.entered [
      | true ↦ elim s.booted [
        | true ↦ (ok tt, s)
        | false ↦ send_boot (Frame.encode crc boot_request) s
      ]
      | false ↦ (ok tt, s)
    ]

    unfoldable pub leave : Action (Qmk link.State) QmkError (Unit {0})
    unfolding write_control read_control
    leave s =
        let s1 = (write_control link op_exit [] s).1 in
        (ok tt, (read_control link (here s1 + 200) s1).1)

    -- `impl Drop`
    unfoldable pub drop : Action (Qmk link.State) QmkError (Unit {0})
    unfolding boot_app_once leave
    drop s = elim s.passthrough [ false ↦ (ok tt, s) | true ↦ (boot_app_once >> leave) s ]

    abbrev pub fresh : link.State → Qmk link.State
    fresh s = record {
      link = s;
      rx = [];
      settled = 0;
      passthrough = false;
      entered = false;
      booted = false;
    }

    -- On an error the transport is dropped, and the error is what is returned.
    abbrev pub or_drop : Result QmkError (Unit {0}) → Action (Qmk link.State) QmkError (Unit {0})
    or_drop (ok _) s = (ok tt, s)
    or_drop (err e) s = ((drop >> raise e) s)
    or_drop fault s = (fault, s)

    unfoldable pub with_link : QmkOpts → link.State → Result QmkError (Unit {0}) × Qmk link.State
    unfolding handshake drop
    with_link opts s = let r = handshake opts (fresh s) in or_drop r.0 r.1
