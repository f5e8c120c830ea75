-- ===== src/Transport/Qmk/Leaving.antt =====
-- What the end of a tunnel writes.
use open_boot.Base.{
  ℕ, ◌+◌, ◌≡◌, ◌⊎◌, inl, inr, refl, sym, ap, subst, ◌∙◌, Bool-cases, Bool, true, false, ◌&&◌, not,
  List, [], ◌∷◌, ◌++◌, append_assoc, append-nil, Result, ok, Bytes, if◌then◌else◌, arith,
}
use open_boot.Base.Actions.{and_then, ◌>>◌}
use open_boot.Proto.Crc32.{Crc32}
use open_boot.Proto.Frame
use open_boot.Proto.Frame.RoundTrip.{wire, encode_fits}
use open_boot.Proto.Requests.{boot_req_payload}
use open_boot.Transport.Framing.{recv_sof_frame}
use open_boot.Transport.Framing.Keeps.{recv_sof_frame-keeps}
use open_boot.Transport.Qmk.{ReportLink, Qmk, QmkError, op_exit, report_of, tag_control}
use open_boot.Transport.Qmk.Pipe.{write_control, send_frame}
use open_boot.Transport.Qmk.Reads.{Reads, Reads-refl, Reads-trans, read_control-Loops}
use open_boot.Transport.Qmk.ByteReads.{pump_byte-Loops}
use open_boot.Transport.Qmk.Sends.{send_frame-Writes, frame_reports, noted-link}
use open_boot.Transport.Qmk.Tunnel.{bytes}
use open_boot.Transport.Qmk.Handshake.{boot_request, send_boot, boot_app_once, leave, drop}

module _ (link : ReportLink) where
  pub recv_sof_frame-Reads :
      (d : ℕ) (s : Qmk link.State) → Reads link s (recv_sof_frame (bytes link) d s).1
  recv_sof_frame-Reads d s =
      let step : ((w : ℕ) (t : Qmk link.State)
          → Reads link s t
          → Reads link s ((bytes link).next_byte w t).1) =
        λ w t h.
          Reads-trans link s t ((bytes link).next_byte w t).1 h
            (pump_byte-Loops link w (link.now t.link + w) t (omega arith)).reads in
      recv_sof_frame-keeps (bytes link) d (λ t. Reads link s t) step s (Reads-refl link s)

  abbrev pub exit_report : Bytes
  exit_report = report_of tag_control (op_exit ∷ [])

  leave-log :
      (crc : Crc32) (s : Qmk link.State)
      → ((leave link crc s).0 ≡ ok tt)
        × (link.written (leave link crc s).1.link ≡ link.written s.link ++ (exit_report ∷ []))
  unfolding leave write_control
  leave-log crc s =
      let s1 = (write_control link op_exit [] s).1 in
      (
        refl,
        (read_control-Loops link (link.now s1.link + 200) (link.now s1.link + 200) s1
              (omega arith)).reads.log
            ∙ link.written-write exit_report s.link,
      )

  module _ (crc : Crc32) where
    abbrev pub boot_wire : Bytes
    boot_wire = wire crc (boot_request link crc)

    -- The reports of a teardown: a front of those of the BOOT frame, where one is due, and EXIT last.
    pub record Parks (s s' : Qmk link.State) : Type 0 where
      pub boots : List Bytes
      pub missing : List Bytes
      pub cut :
          boots ++ missing
          ≡ (if s.entered && not s.booted then frame_reports link boot_wire else [])
      pub whole : (send_frame link boot_wire s).0 ≡ ok tt → missing ≡ []
      pub log : link.written s'.link ≡ link.written s.link ++ (boots ++ (exit_report ∷ []))

    -- The reports before EXIT.
    record Boots (s : Qmk link.State) (due : Bool) (r : Result QmkError (Unit {0}) × Qmk link.State)
        : Type 0 where
      runs : r.0 ≡ ok tt
      boots : List Bytes
      missing : List Bytes
      cut : boots ++ missing ≡ (if due then frame_reports link boot_wire else [])
      whole : (send_frame link boot_wire s).0 ≡ ok tt → missing ≡ []
      log : link.written r.1.link ≡ link.written s.link ++ boots

    nothing_due : (s : Qmk link.State) → Boots s false (ok tt, s)
    nothing_due s = record {
      runs = refl;
      boots = [];
      missing = [];
      cut = refl;
      whole = λ e. refl;
      log = sym (append-nil (link.written s.link));
    }

    sent_boot : (s : Qmk link.State) → Boots s true (send_boot link crc (ok boot_wire) s)
    unfolding send_boot
    sent_boot s =
        let w = send_frame-Writes link boot_wire s in
        let s1 = (send_frame link boot_wire s).1 in
        record {
          runs = refl;
          boots = w.front;
          missing = w.back;
          cut = sym w.cut;
          whole = w.all;
          log =
              (recv_sof_frame-Reads (link.now s1.link + 400) s1).log
              ∙ w.log
              ∙ ap (λ l. link.written l ++ w.front) (noted-link link boot_wire s);
        }

    boot_app_once-Boots :
        (s : Qmk link.State) → Boots s (s.entered && not s.booted) (boot_app_once link crc s)
    unfolding boot_app_once
    boot_app_once-Boots s =
        let encoded : Frame.encode crc {E = QmkError} (boot_request link crc) ≡ ok boot_wire =
          encode_fits crc (boot_request link crc) (unfold boot_req_payload in omega arith) in
        let sent : Boots s true (send_boot link crc (Frame.encode crc (boot_request link crc)) s) =
          rw encoded (sent_boot s) in
        grind (arith, nothing_due s, sent)

    parked :
        (s : Qmk link.State)
        → (((boot_app_once link crc >> leave link crc) s).0 ≡ ok tt)
          × Parks s ((boot_app_once link crc >> leave link crc) s).1
    parked s =
        let b = boot_app_once-Boots s in
        let s1 = (boot_app_once link crc s).1 in
        let e : leave link crc s1 ≡ (boot_app_once link crc >> leave link crc) s =
          sym (ap (λ r. and_then (λ _. leave link crc) r s1) b.runs) in
        let l = leave-log crc s1 in
        subst (λ r. (r.0 ≡ ok tt) × Parks s r.1) e
          (
            l.0,
            record {
              boots = b.boots;
              missing = b.missing;
              cut = b.cut;
              whole = b.whole;
              log =
                  l.1
                  ∙ ap (λ t. t ++ (exit_report ∷ [])) b.log
                  ∙ append_assoc (link.written s.link) b.boots (exit_report ∷ []);
            },
          )

    -- A tunnel that never took the module off air is left as it is. Any other teardown ends without an
    -- error: it writes the EXIT report last, and before it the reports of a BOOT frame for the
    -- application exactly where the flag `entered` is set and `booted` is not, and all of them but where
    -- a write failed.
    pub drop-Parks :
        (s : Qmk link.State)
        → ((drop link crc s).0 ≡ ok tt)
          × (((s.passthrough ≡ false) × ((drop link crc s).1 ≡ s))
              ⊎ ((s.passthrough ≡ true) × Parks s (drop link crc s).1))
    unfolding drop
    drop-Parks s = elim (Bool-cases s.passthrough) [
      | inl on ↦
          let e : (boot_app_once link crc >> leave link crc) s ≡ drop link crc s = ground arith in
          subst
            (λ r.
              (r.0 ≡ ok tt)
              × (((s.passthrough ≡ false) × (r.1 ≡ s)) ⊎ ((s.passthrough ≡ true) × Parks s r.1)))
            e ((parked s).0, inr (on, (parked s).1))
      | inr off ↦
          let e : (ok tt, s) ≡ drop link crc s = ground arith in
          subst
            (λ r.
              (r.0 ≡ ok tt)
              × (((s.passthrough ≡ false) × (r.1 ≡ s)) ⊎ ((s.passthrough ≡ true) × Parks s r.1)))
            e (refl, inl (off, refl))
    ]
