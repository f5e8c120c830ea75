-- ===== src/Transport/Qmk/Opening.antt =====
-- The probes of an opening end.
use open_boot.Base.{
  ℕ, zero, suc, ◌+◌, ◌-◌, ◌%◌, ◌^◌, ◌≤◌, ◌<◌, ◌≡◌, ◌≢◌, refl, ◌∙◌, true, false, List, [], Result,
  ok, err, fault, Bytes, length, leb, arith,
}
use open_boot.Proto.Crc32.{Crc32}
use open_boot.Proto.Frame.RoundTrip.{wire}
use open_boot.Proto.Requests.{hello_req_payload}
use open_boot.Transport.Xfer.{xfer-ne-fault, xfer-keeps}
use open_boot.Transport.Qmk.{ReportLink, Qmk, QmkOpts, QmkError, bootloader_silent}
use open_boot.Transport.Qmk.Pipe.{send_frame}
use open_boot.Transport.Qmk.Sends.{send_frame-Writes}
use open_boot.Transport.Qmk.Tunnel.{tunnel}
use open_boot.Transport.Qmk.Handshake.{
  probe_request, probe, probe_loop, probe_until_alive, settle, rest_for,
}
use open_boot.Transport.Qmk.Entering.{Keeps, Keeps-refl, Keeps-trans, Reads-Keeps}
use open_boot.Transport.Qmk.Leaving.{recv_sof_frame-Reads}

module _ (link : ReportLink) (crc : Crc32) where
  hello-Keeps :
      (seq : ℕ) (s : Qmk link.State)
      → Keeps link s (send_frame link (wire crc (probe_request link crc seq)) s).1
  hello-Keeps seq s =
      let w = send_frame-Writes link (wire crc (probe_request link crc seq)) s in
      record { time = w.time; passthrough = w.passthrough; entered = w.entered; booted = w.booted }

  pub hello_fits : (seq : ℕ) → length ((probe_request link crc seq).payload) ≤ 56
  unfolding hello_req_payload
  hello_fits seq = omega arith

  -- A probe ends, and moves no flag.
  probe-ne-fault : (seq ms : ℕ) (s : Qmk link.State) → (probe link crc seq ms s).0 ≢ fault
  unfolding probe
  probe-ne-fault seq ms s =
      xfer-ne-fault crc (tunnel link) (probe_request link crc seq) ms (record s { rx = [] }, [])
        (omega (arith, hello_fits seq))

  pub probe-Keeps : (seq ms : ℕ) (s : Qmk link.State) → Keeps link s (probe link crc seq ms s).1
  unfolding probe
  probe-Keeps seq ms s =
      let s0 : Qmk link.State = record s { rx = [] } in
      let step : ((d : ℕ) (t : Qmk link.State × List Bytes)
          → Keeps link s t.0
          → Keeps link s ((tunnel link).recv_frame d t).1.0) =
        λ d t h.
          Keeps-trans link s t.0 ((tunnel link).recv_frame d t).1.0 h
            (Reads-Keeps link t.0 _ (recv_sof_frame-Reads link d t.0)) in
      let h = hello-Keeps seq s0 in
      xfer-keeps crc (tunnel link) (λ t. Keeps link s t.0) (probe_request link crc seq) ms (s0, [])
        (omega (arith, hello_fits seq)) step
        (record {
          time = h.time;
          passthrough = h.passthrough;
          entered = h.entered;
          booted = h.booted;
        })

  -- An opening ends; the flag of an answered HELLO moves where it succeeds, and no other flag.
  pub record Probes (r : Result QmkError (Unit {0}) × Qmk link.State) (s : Qmk link.State)
      : Type 0 where
    pub runs : r.0 ≢ fault
    pub passthrough : r.1.passthrough ≡ s.passthrough
    pub booted : r.1.booted ≡ s.booted
    pub entered : r.0 ≡ ok tt → r.1.entered ≡ true
    pub missed : (e : QmkError) → r.0 ≡ err e → r.1.entered ≡ s.entered
    pub rx : r.0 ≡ ok tt → r.1.rx ≡ []

  Probes-behind :
      (r : Result QmkError (Unit {0}) × Qmk link.State) (s t : Qmk link.State)
      → Keeps link s t
      → Probes r t
      → Probes r s
  Probes-behind r s t k p = record {
    runs = p.runs;
    passthrough = p.passthrough ∙ k.passthrough;
    booted = p.booted ∙ k.booted;
    entered = p.entered;
    missed = λ e x. p.missed e x ∙ k.entered;
    rx = p.rx;
  }

  failed : (e : QmkError) (s t : Qmk link.State) → Keeps link s t → Probes (err e, t) s
  failed e s t k = record {
    runs = λ z. cc;
    passthrough = k.passthrough;
    booted = k.booted;
    entered = λ z. cc;
    missed = λ x z. k.entered;
    rx = λ z. cc;
  }

  alive :
      (s t : Qmk link.State) (since : ℕ)
      → Keeps link s t
      → Probes (ok tt, record t { settled = since; rx = []; entered = true }) s
  alive s t since k = record {
    runs = λ z. cc;
    passthrough = k.passthrough;
    booted = k.booted;
    entered = λ z. refl;
    missed = λ x z. cc;
    rx = λ z. refl;
  }

  sleep-Keeps : (ms : ℕ) (s : Qmk link.State) → Keeps link s (rest_for link ms s)
  sleep-Keeps ms s = record {
    time = omega (arith, link.now-sleep ms s.link);
    passthrough = refl;
    entered = refl;
    booted = refl;
  }

  probe_loop-Probes :
      (n : ℕ) (opts : QmkOpts) (anchor seq : ℕ) (s : Qmk link.State)
      → 0 < opts.probe_gap
      → anchor + opts.enter_deadline - link.now s.link < n
      → Probes (probe_loop link crc n opts anchor seq s) s
  unfolding probe_loop
  probe_loop-Probes zero opts anchor seq s h k = absurd (omega arith)
  probe_loop-Probes (suc n) opts anchor seq s h k =
      let r = probe link crc seq opts.probe_timeout s in
      let kept = probe-Keeps seq opts.probe_timeout s in
      let next = rest_for link opts.probe_gap r.1 in
      let rested = link.now-sleep opts.probe_gap r.1.link in
      let over : Probes (err bootloader_silent, s) s =
        failed bootloader_silent s s (Keeps-refl link s) in
      let broken : ((e : QmkError) → Probes (err e, r.1) s) = λ e. failed e s r.1 kept in
      let up : Probes
          (ok tt, record r.1 { settled = link.now r.1.link - anchor; rx = []; entered = true }) s =
        alive s r.1 (link.now r.1.link - anchor) kept in
      let again : (leb (anchor + opts.enter_deadline) (link.now s.link) ≡ false
          → Probes (probe_loop link crc n opts anchor ((seq + 255) % 2 ^ 8) next) s) =
        λ early.
          Probes-behind (probe_loop link crc n opts anchor ((seq + 255) % 2 ^ 8) next) s next
            (Keeps-trans link s r.1 next kept (sleep-Keeps opts.probe_gap r.1))
            (probe_loop-Probes n opts anchor ((seq + 255) % 2 ^ 8) next h
              (ground (arith, kept.time, rested))) in
      grind (arith, over, broken, up, again, probe-ne-fault seq opts.probe_timeout s)

  pub settle-Keeps : (until : ℕ) (s : Qmk link.State) → Keeps link s (settle link until s)
  settle-Keeps until s = grind (arith, sleep-Keeps (until - link.now s.link) s, Keeps-refl link s)

  pub probe_until_alive-Probes :
      (anchor : ℕ) (opts : QmkOpts) (s : Qmk link.State)
      → 0 < opts.probe_gap
      → Probes (probe_until_alive link crc anchor opts s) s
  unfolding probe_until_alive
  probe_until_alive-Probes anchor opts s h =
      let s1 = settle link (anchor + opts.settle_min) s in
      Probes-behind (probe_until_alive link crc anchor opts s) s s1
        (settle-Keeps (anchor + opts.settle_min) s)
        (probe_loop-Probes (suc (anchor + opts.enter_deadline - link.now s1.link)) opts anchor 255
          s1 h (omega arith))
