-- ===== src/Transport/Qmk/Probing.antt =====
-- The probes of one opening have sequence numbers that a client does not begin with.
use open_boot.Base.{
  ℕ, zero, suc, ◌+◌, ◌-◌, ◌*◌, ◌%◌, ◌^◌, ◌≤◌, ◌<◌, ◌≡◌, refl, sym, ap, subst, ◌∙◌, true, List, [],
  ◌++◌, append_assoc, append-nil, Result, ok, err, fault, Bytes, leb, arith,
}
use native.Mathlib.Nat.{suc-mul}
use open_boot.Proto.Crc32.{Crc32}
use open_boot.Proto.Frame.RoundTrip.{wire}
use open_boot.Transport.Xfer.{xfer-keeps}
use open_boot.Transport.Qmk.{ReportLink, Qmk, QmkOpts, QmkError, bootloader_silent}
use open_boot.Transport.Qmk.Sends.{send_frame-Writes, frame_reports}
use open_boot.Transport.Qmk.Tunnel.{tunnel}
use open_boot.Transport.Qmk.Handshake.{
  probe_request, probe, probe_loop, probe_until_alive, settle, rest_for,
}
use open_boot.Transport.Qmk.Leaving.{recv_sof_frame-Reads}
use open_boot.Transport.Qmk.Opening.{probe-Keeps, hello_fits, settle-Keeps}

module _ (link : ReportLink) (crc : Crc32) where
  -- The reports of some probes, each with a sequence number above lo; of a probe whose write failed,
  -- a front of its reports.
  pub data Probed (lo : ℕ) : List Bytes → Type 0 where
    no_more : Probed lo []
    probed :
        (seq : ℕ) (front back rest : List Bytes)
        → lo < seq
        → seq ≤ 255
        → frame_reports link (wire crc (probe_request link crc seq)) ≡ front ++ back
        → Probed lo rest
        → Probed lo (front ++ rest)

  pub record Logs (lo : ℕ) (r : Result QmkError (Unit {0}) × Qmk link.State) (s : Qmk link.State)
      : Type 0 where
    pub reports : List Bytes
    pub log : link.written r.1.link ≡ link.written s.link ++ reports
    pub shape : Probed lo reports

  -- What one probe writes.
  record WritesProbe (seq : ℕ) (t s : Qmk link.State) : Type 0 where
    front : List Bytes
    back : List Bytes
    cut : frame_reports link (wire crc (probe_request link crc seq)) ≡ front ++ back
    log : link.written t.link ≡ link.written s.link ++ front

  probe_log : (seq ms : ℕ) (s : Qmk link.State) → WritesProbe seq (probe link crc seq ms s).1 s
  unfolding probe
  probe_log seq ms s =
      let t = tunnel link in
      let w =
        send_frame-Writes link (wire crc (probe_request link crc seq)) (record s { rx = [] }) in
      let step : ((d : ℕ) (u : Qmk link.State × List Bytes)
          → link.written u.0.link ≡ link.written s.link ++ w.front
          → link.written (t.recv_frame d u).1.0.link ≡ link.written s.link ++ w.front) =
        λ d u h. (recv_sof_frame-Reads link d u.0).log ∙ h in
      record {
        front = w.front;
        back = w.back;
        cut = w.cut;
        log =
            xfer-keeps crc t (λ u. link.written u.0.link ≡ link.written s.link ++ w.front)
              (probe_request link crc seq) ms (record s { rx = [] }, [])
              (omega (arith, hello_fits link crc seq)) step w.log;
      }

  Logs-none : (lo : ℕ) (x : Result QmkError (Unit {0})) (s : Qmk link.State) → Logs lo (x, s) s
  Logs-none lo x s = record {
    reports = [];
    log = sym (append-nil (link.written s.link));
    shape = no_more;
  }

  -- A probe, and what follows it.
  Logs-after :
      (lo seq : ℕ) (r : Result QmkError (Unit {0}) × Qmk link.State) (t u s : Qmk link.State)
      → lo < seq
      → seq ≤ 255
      → WritesProbe seq t s
      → link.written u.link ≡ link.written t.link
      → Logs lo r u
      → Logs lo r s
  Logs-after lo seq r t u s low high w same l = record {
    reports = w.front ++ l.reports;
    log =
        l.log
        ∙ ap (λ b. b ++ l.reports) (same ∙ w.log)
        ∙ append_assoc (link.written s.link) w.front l.reports;
    shape = probed seq w.front w.back l.reports low high w.cut l.shape;
  }

  Logs-end :
      (lo seq : ℕ) (x : Result QmkError (Unit {0})) (t u s : Qmk link.State)
      → lo < seq
      → seq ≤ 255
      → WritesProbe seq t s
      → link.written u.link ≡ link.written t.link
      → Logs lo (x, u) s
  Logs-end lo seq x t u s low high w same =
      Logs-after lo seq (x, u) t u s low high w same (Logs-none lo x u)

  probe_loop-Logs :
      (n : ℕ) (opts : QmkOpts) (anchor lo k : ℕ) (s : Qmk link.State)
      → lo + k ≤ 255
      → anchor + opts.enter_deadline - link.now s.link ≤ k * opts.probe_gap
      → Logs lo (probe_loop link crc n opts anchor (lo + k) s) s
  unfolding probe_loop
  probe_loop-Logs zero opts anchor lo k s high room = Logs-none lo fault s
  probe_loop-Logs (suc n) opts anchor lo zero s high room =
      let over : leb (anchor + opts.enter_deadline) (link.now s.link) ≡ true = ground arith in
      rw (probe_loop, over) (Logs-none lo (err bootloader_silent) s)
  probe_loop-Logs (suc n) opts anchor lo (suc k) s high room =
      let seq = lo + suc k in
      let r = probe link crc seq opts.probe_timeout s in
      let w = probe_log seq opts.probe_timeout s in
      let kept = probe-Keeps link crc seq opts.probe_timeout s in
      let next = rest_for link opts.probe_gap r.1 in
      let down : (seq + 255) % 2 ^ 8 ≡ lo + k = omega arith in
      let rested = link.now-sleep opts.probe_gap r.1.link in
      let left : anchor + opts.enter_deadline - link.now next.link ≤ k * opts.probe_gap =
        omega (arith, suc-mul k opts.probe_gap, kept.time, rested, room) in
      let again : Logs lo (probe_loop link crc n opts anchor ((seq + 255) % 2 ^ 8) next) s =
        Logs-after lo seq (probe_loop link crc n opts anchor ((seq + 255) % 2 ^ 8) next) r.1 next s
          (omega arith) high w (link.written-sleep opts.probe_gap r.1.link)
          (subst (λ q. Logs lo (probe_loop link crc n opts anchor q next) next) (sym down)
            (probe_loop-Logs n opts anchor lo k next (omega arith) left)) in
      let up : Logs lo
          (ok tt, record r.1 { settled = link.now r.1.link - anchor; rx = []; entered = true }) s =
        Logs-end lo seq (ok tt) r.1
          (record r.1 { settled = link.now r.1.link - anchor; rx = []; entered = true }) s
          (omega arith) high w refl in
      let broken : ((x : Result QmkError (Unit {0})) → Logs lo (x, r.1) s) =
        λ x. Logs-end lo seq x r.1 r.1 s (omega arith) high w refl in
      let late : Logs lo (err bootloader_silent, s) s = Logs-none lo (err bootloader_silent) s in
      grind (arith, again, up, broken, late)

  -- Let the anchor have passed, and let k gaps between probes, where k is at most 255, cover the time
  -- that an opening may take. Then the reports that the probes write are those of HELLO requests with
  -- sequence numbers above 255 - k, or fronts of these where a write failed.
  pub probe_until_alive-Logs :
      (anchor k : ℕ) (opts : QmkOpts) (s : Qmk link.State)
      → anchor ≤ link.now s.link
      → k ≤ 255
      → opts.enter_deadline ≤ k * opts.probe_gap
      → Logs (255 - k) (probe_until_alive link crc anchor opts s) s
  unfolding probe_until_alive
  probe_until_alive-Logs anchor k opts s past few cover =
      let s1 = settle link (anchor + opts.settle_min) s in
      let kept = settle-Keeps link crc (anchor + opts.settle_min) s in
      let n = suc (anchor + opts.enter_deadline - link.now s1.link) in
      let top : 255 - k + k ≡ 255 = omega arith in
      let l =
        probe_loop-Logs n opts anchor (255 - k) k s1 (omega arith) (omega (arith, kept.time)) in
      let quiet : link.written s1.link ≡ link.written s.link =
        grind (arith, link.written-sleep (anchor + opts.settle_min - link.now s.link) s.link) in
      let at255 : Logs (255 - k) (probe_loop link crc n opts anchor 255 s1) s1 =
        subst (λ q. Logs (255 - k) (probe_loop link crc n opts anchor q s1) s1) top l in
      record {
        reports = at255.reports;
        log = at255.log ∙ ap (λ b. b ++ at255.reports) quiet;
        shape = at255.shape;
      }
