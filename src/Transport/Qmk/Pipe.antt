-- ===== src/Transport/Qmk/Pipe.antt =====
-- tools/src/transport/qmk.rs: the reports that a tunnel writes and reads.
use open_boot.Base.{
  ℕ, zero, suc, ◌+◌, ◌-◌, ◌^◌, min, max, Bool, true, false, List, [], ◌∷◌, ◌++◌, Option, none, some,
  Result, ok, err, fault, Bytes, length, take, drop, ◌==◌, if◌then◌else◌,
}
use open_boot.Base.Actions.{Action, pure, ◌>>◌}
use open_boot.Proto.Consts.{cmd_boot}
use open_boot.Transport.{IoError}
use open_boot.Transport.Framing.{encode_sof}
use open_boot.Transport.Qmk.{
  ReportLink, Qmk, Rx, stream, control, ignored, report_of, parse_report, stream_max, tag_control,
  tag_stream,
}

-- `frame.first() == Some(&OB_CMD_BOOT)`
abbrev pub begins_boot : Bytes → Bool
begins_boot [] = false
begins_boot (b ∷ bs) = b == cmd_boot

-- `chunks(size)`, with fuel for the number of chunks.
unfoldable pub chunks : ℕ → ℕ → Bytes → List Bytes
chunks zero size bytes = []
chunks (suc n) size [] = []
chunks (suc n) size (b ∷ bs) = take size (b ∷ bs) ∷ chunks n size (drop size (b ∷ bs))

module _ (link : ReportLink) where
  unfoldable pub write_report : Bytes → Action (Qmk link.State) IoError (Unit {0})
  write_report report s = let r = link.write_report report s.link in (r.0, record s { link = r.1 })

  unfoldable pub write_control : ℕ → Bytes → Action (Qmk link.State) IoError (Unit {0})
  unfolding write_report report_of
  write_control op args = write_report (report_of tag_control (op ∷ args))

  -- What `pump` does with the tag and the payload of a report.
  unfoldable pub deliver : Option (ℕ × Bytes) → Action (Qmk link.State) IoError (Option Rx)
  deliver none s = (ok (some ignored), s)
  deliver (some (tag, payload)) s =
      if tag == tag_stream
      then (ok (some (stream (length payload))), record s { rx = s.rx ++ payload })
      else if tag == tag_control
      then (ok (some (control payload)), s)
      else (ok (some ignored), s)

  unfoldable pub pumped : Result IoError Bytes → Action (Qmk link.State) IoError (Option Rx)
  unfolding parse_report deliver
  pumped (ok buf) s = deliver (parse_report buf) s
  pumped (err e) s = (err e, s)
  pumped fault s = (fault, s)

  unfoldable pub pump : ℕ → Action (Qmk link.State) IoError (Option Rx)
  unfolding pumped
  pump until s =
      let left = until - link.now s.link in
      let r = link.read_report (max (min left (2 ^ 31 - 1)) 1) s.link in
      elim (left == 0) [ true ↦ (ok none, s) | false ↦ pumped r.0 (record s { link = r.1 }) ]

  -- The loop of `read_control`. The fuel bounds the reports.
  unfoldable pub control_loop : ℕ → ℕ → Action (Qmk link.State) IoError (Option Bytes)
  unfolding pump
  control_loop zero until s = (fault, s)
  control_loop (suc n) until s =
      let s' = (pump until s).1 in
      let more = control_loop n until s' in
      elim (pump until s).0 [
        | err e ↦ (err e, s')
        | fault ↦ (fault, s')
        | ok none ↦ (ok none, s')
        | ok (some ignored) ↦ more
        | ok (some (stream k)) ↦ more
        | ok (some (control [])) ↦ more
        | ok (some (control (b ∷ bs))) ↦ (ok (some (b ∷ bs)), s')
      ]

  unfoldable pub read_control : ℕ → Action (Qmk link.State) IoError (Option Bytes)
  unfolding control_loop
  read_control until s = control_loop (suc (link.budget until s.link)) until s

  -- `rx.pop_front()`, for these bytes in `rx`.
  abbrev pub pop_front : Bytes → Action (Qmk link.State) IoError (Option ℕ)
  pop_front [] s = (ok none, s)
  pop_front (b ∷ bs) s = (ok (some b), record s { rx = bs })

  -- The loop of `pump_byte`. The fuel bounds the reports.
  unfoldable pub byte_loop : ℕ → ℕ → Action (Qmk link.State) IoError (Option ℕ)
  unfolding pump
  byte_loop zero until s = (fault, s)
  byte_loop (suc n) until s =
      let s' = (pump until s).1 in
      let more = byte_loop n until s' in
      elim (pump until s).0 [
        | err e ↦ (err e, s')
        | fault ↦ (fault, s')
        | ok none ↦ (ok none, s')
        | ok (some ignored) ↦ more
        | ok (some (control payload)) ↦ more
        | ok (some (stream zero)) ↦ more
        | ok (some (stream (suc k))) ↦ pop_front s'.rx s'
      ]

  unfoldable pub pump_byte : ℕ → Action (Qmk link.State) IoError (Option ℕ)
  unfolding byte_loop
  pump_byte wait s =
      let until = link.now s.link + wait in
      let read = byte_loop (suc (link.budget until s.link)) until s in
      elim s.rx [ [] ↦ read | b ∷ bs ↦ pop_front s.rx s ]

  unfoldable pub write_stream : List Bytes → Action (Qmk link.State) IoError (Unit {0})
  unfolding write_report report_of
  write_stream [] = pure tt
  write_stream (chunk ∷ rest) = write_report (report_of tag_stream chunk) >> write_stream rest

  unfoldable pub send_frame : Bytes → Action (Qmk link.State) IoError (Unit {0})
  unfolding write_stream chunks encode_sof
  send_frame frame s =
      let out = encode_sof frame in
      write_stream (chunks (length out) stream_max out)
        (if begins_boot frame then record s { booted = true } else s)
