-- ===== src/Transport/Qmk/Sends.antt =====
-- What `send_frame` writes: the start bytes and one frame, as reports.
use open_boot.Base.{
  ℕ, ◌≤◌, ◌≡◌, ◌≢◌, refl, sym, ◌∙◌, ap, true, ◌||◌, List, [], ◌∷◌, ◌++◌, map, append_assoc,
  append-nil, Result, ok, err, fault, Bytes, length, if◌then◌else◌, arith,
}
use open_boot.Base.Actions.{and_then}
use open_boot.Transport.{IoError}
use open_boot.Transport.Framing.{encode_sof}
use open_boot.Transport.Qmk.{ReportLink, Qmk, report_of, stream_max, tag_stream, tag_control}
use open_boot.Transport.Qmk.Pipe.{
  begins_boot, chunks, write_report, write_control, write_stream, send_frame,
}
use open_boot.Transport.Qmk.Chunks.{stream_report, bridged, bridged-append, bridged-chunks}

module _ (link : ReportLink) where
  -- Of these reports a front is handed over, and all of them where the action succeeds; no flag moves.
  pub record Writes (reports : List Bytes) (r : Result IoError (Unit {0}) × Qmk link.State)
      (s : Qmk link.State) : Type 0 where
    pub runs : r.0 ≢ fault
    pub front : List Bytes
    pub back : List Bytes
    pub cut : reports ≡ front ++ back
    pub log : link.written r.1.link ≡ link.written s.link ++ front
    pub all : r.0 ≡ ok tt → back ≡ []
    pub time : link.now s.link ≤ link.now r.1.link
    pub least : (d : ℕ) → link.budget d r.1.link ≤ link.budget d s.link
    pub rx : r.1.rx ≡ s.rx
    pub passthrough : r.1.passthrough ≡ s.passthrough
    pub entered : r.1.entered ≡ s.entered
    pub booted : r.1.booted ≡ s.booted

  -- One report is handed over whether the write succeeds or not.
  pub write_report-Writes :
      (report : Bytes) (s : Qmk link.State) → Writes (report ∷ []) (write_report link report s) s
  unfolding write_report
  write_report-Writes report s = record {
    runs = link.write-ne-fault report s.link;
    front = report ∷ [];
    back = [];
    cut = refl;
    log = link.written-write report s.link;
    all = λ e. refl;
    time = link.now-write report s.link;
    least = λ d. link.budget-write d report s.link;
    rx = refl;
    passthrough = refl;
    entered = refl;
    booted = refl;
  }

  pub write_control-Writes :
      (op : ℕ) (args : Bytes) (s : Qmk link.State)
      → Writes (report_of tag_control (op ∷ args) ∷ []) (write_control link op args s) s
  unfolding write_control
  write_control-Writes op args s = write_report-Writes (report_of tag_control (op ∷ args)) s

  write_stream-Writes :
      (pieces : List Bytes) (s : Qmk link.State)
      → Writes (map stream_report pieces) (write_stream link pieces s) s
  unfolding write_stream
  write_stream-Writes [] s = record {
    runs = λ e. cc;
    front = [];
    back = [];
    cut = refl;
    log = sym (append-nil (link.written s.link));
    all = λ e. refl;
    time = omega arith;
    least = λ d. omega arith;
    rx = refl;
    passthrough = refl;
    entered = refl;
    booted = refl;
  }
  write_stream-Writes (piece ∷ rest) s =
      join (write_stream-Writes rest (write_report link (report_of tag_stream piece) s).1)
        (write_report link (report_of tag_stream piece) s).0 refl
    where
      join :
          Writes
            (map stream_report rest)
            (write_stream link rest (write_report link (report_of tag_stream piece) s).1)
            (write_report link (report_of tag_stream piece) s).1
          → (r : Result IoError (Unit {0}))
          → (write_report link (report_of tag_stream piece) s).0 ≡ r
          → Writes
              (report_of tag_stream piece ∷ map stream_report rest)
              (and_then
                (λ _. write_stream link rest)
                r
                (write_report link (report_of tag_stream piece) s).1)
              s
      join v (ok u) e =
          let w = write_report-Writes (report_of tag_stream piece) s in
          record {
            runs = v.runs;
            front = report_of tag_stream piece ∷ v.front;
            back = v.back;
            cut = ap (λ l. report_of tag_stream piece ∷ l) v.cut;
            log =
                v.log
                ∙ ap (λ l. l ++ v.front) (link.written-write (report_of tag_stream piece) s.link)
                ∙ append_assoc (link.written s.link) (report_of tag_stream piece ∷ []) v.front;
            all = v.all;
            time = omega (arith, w.time, v.time);
            least = λ d. omega (arith, w.least d, v.least d);
            rx = v.rx ∙ w.rx;
            passthrough = v.passthrough ∙ w.passthrough;
            entered = v.entered ∙ w.entered;
            booted = v.booted ∙ w.booted;
          }
      join v (err x) e =
          let w = write_report-Writes (report_of tag_stream piece) s in
          record {
            runs = λ z. cc;
            front = report_of tag_stream piece ∷ [];
            back = map stream_report rest;
            cut = refl;
            log = link.written-write (report_of tag_stream piece) s.link;
            all = λ z. cc;
            time = w.time;
            least = w.least;
            rx = w.rx;
            passthrough = w.passthrough;
            entered = w.entered;
            booted = w.booted;
          }
      join v fault e = absurd ((write_report-Writes (report_of tag_stream piece) s).runs e)

  -- The state in which `send_frame` writes the first report.
  abbrev pub noted : Bytes → Qmk link.State → Qmk link.State
  noted frame s = if begins_boot frame then record s { booted = true } else s

  abbrev pub frame_reports : Bytes → List Bytes
  frame_reports frame =
      map stream_report (chunks (length (encode_sof frame)) stream_max (encode_sof frame))

  pub send_frame-Writes :
      (frame : Bytes) (s : Qmk link.State)
      → Writes (frame_reports frame) (send_frame link frame s) (noted frame s)
  unfolding send_frame
  send_frame-Writes frame s =
      write_stream-Writes (chunks (length (encode_sof frame)) stream_max (encode_sof frame))
        (noted frame s)

  pub noted-link : (frame : Bytes) (s : Qmk link.State) → (noted frame s).link ≡ s.link
  noted-link frame s = ground arith

  noted-booted :
      (frame : Bytes) (s : Qmk link.State)
      → (noted frame s).booted ≡ (s.booted || begins_boot frame)
  noted-booted frame s = ground arith

  bridged-front :
      (frame : Bytes) (front back : List Bytes)
      → frame_reports frame ≡ front ++ back
      → bridged front ++ bridged back ≡ encode_sof frame
  bridged-front frame front back e =
      let out = encode_sof frame in
      sym (bridged-append front back)
      ∙ ap bridged (sym e)
      ∙ bridged-chunks (length out) stream_max out (omega arith) (omega arith) (omega arith)

  -- `send_frame` ends with a result. What the keyboard passes on for the reports it has handed over is
  -- a front of the start bytes and the frame, and all of them where it succeeds. The tunnel then knows
  -- whether a BOOT frame was among those sent.
  pub send_frame-bridged :
      (frame : Bytes) (s : Qmk link.State)
      → ((send_frame link frame s).0 ≢ fault)
        × ((send_frame link frame s).1.booted ≡ (s.booted || begins_boot frame))
        × ((reports : List Bytes) × (rest : Bytes) × (link.written (send_frame link frame s).1.link
              ≡ link.written s.link ++ reports)
            × (bridged reports ++ rest ≡ encode_sof frame)
            × ((send_frame link frame s).0 ≡ ok tt → rest ≡ []))
  unfolding bridged
  send_frame-bridged frame s =
      let w = send_frame-Writes frame s in
      (
        w.runs,
        w.booted ∙ noted-booted frame s,
        (
          w.front,
          bridged w.back,
          w.log ∙ ap (λ l. link.written l ++ w.front) (noted-link frame s),
          bridged-front frame w.front w.back w.cut,
          λ e. ap bridged (w.all e),
        ),
      )
