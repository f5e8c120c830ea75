-- ===== src/Transport/Qmk/OffAir.antt =====
-- Whether a handshake took the module off air, and what it leaves.
use open_boot.Base.{
  ℕ, ◌+◌, ◌<◌, ◌≡◌, ◌≢◌, ◌⊎◌, inl, inr, refl, subst, ◌∙◌, true, [], Option, none, some, Result, ok,
  err, fault, Bytes, arith,
}
use open_boot.Base.Actions.{and_then, ◌>>=◌, ◌>>◌}
use open_boot.Proto.Crc32.{Crc32}
use open_boot.Transport.Qmk.{ReportLink, Qmk, QmkOpts, QmkError, io, BridgeStatus, op_status}
use open_boot.Transport.Qmk.Pipe.{write_control, read_control}
use open_boot.Transport.Qmk.Handshake.{
  probe_until_alive, handshake, open_passthrough, first_status, anchor_for, with_error,
  expect_status, status_of,
}
use open_boot.Transport.Qmk.Entering.{poll-Rounds, Keeps, Keeps-trans}
use open_boot.Transport.Qmk.Acknowledged.{anchor_for-Anchors}
use open_boot.Transport.Qmk.Opening.{probe_until_alive-Probes}

module _ (link : ReportLink) (crc : Crc32) where
  first_status-Keeps :
      (opts : QmkOpts) (s : Qmk link.State)
      → ((first_status link opts s).0 ≢ fault) × Keeps link s (first_status link opts s).1
  unfolding first_status
  first_status-Keeps opts s =
      let until = link.now s.link + opts.enter_ack_timeout in
      let m =
        with_error io (write_control link op_status [])
        >> with_error io (read_control link until) in
      let p = poll-Rounds link io until until s (omega arith) in step (m s).0 (m s).1 p.runs p.keeps
    where
      step :
          (r : Result QmkError (Option Bytes)) (t : Qmk link.State)
          → r ≢ fault
          → Keeps link s t
          → ((and_then (λ answer. expect_status link (status_of answer)) r t).0 ≢ fault)
            × Keeps link s (and_then (λ answer. expect_status link (status_of answer)) r t).1
      step (err e) t h k = (λ z. cc, k)
      step fault t h k = absurd (h refl)
      step (ok answer) t h k = expected (status_of answer)
        where
          expected :
              (o : Option BridgeStatus)
              → ((expect_status link o t).0 ≢ fault) × Keeps link s (expect_status link o t).1
          expected none = (λ z. cc, k)
          expected (some status) = (λ z. cc, k)

  -- The module was taken off air: the keyboard answered the first STATUS, and it then was bridging
  -- already or acknowledged an ENTER.
  pub OffAir : QmkOpts → Qmk link.State → Type 0
  OffAir opts s =
      (initial : BridgeStatus) × (anchor : ℕ) × ((first_status link opts s).0 ≡ ok initial)
      × ((anchor_for link opts initial (first_status link opts s).1).0 ≡ ok anchor)

  -- What a handshake leaves.
  pub record Shakes (opts : QmkOpts) (r : Result QmkError (Unit {0}) × Qmk link.State)
      (s : Qmk link.State) : Type 0 where
    pub runs : r.0 ≢ fault
    pub booted : r.1.booted ≡ s.booted
    pub opened : r.0 ≡ ok tt → (r.1.passthrough ≡ true) × (r.1.entered ≡ true) × (r.1.rx ≡ [])
    pub missed : (e : QmkError) → r.0 ≡ err e → r.1.entered ≡ s.entered
    pub air :
        (OffAir opts s × (r.1.passthrough ≡ true))
        ⊎ ((OffAir opts s → ⊥) × (r.1.passthrough ≡ s.passthrough))

  unshaken :
      (opts : QmkOpts) (e : QmkError) (s t : Qmk link.State)
      → (OffAir opts s → ⊥)
      → Keeps link s t
      → Shakes opts (err e, t) s
  unshaken opts e s t on_air k = record {
    runs = λ z. cc;
    booted = k.booted;
    opened = λ z. cc;
    missed = λ x z. k.entered;
    air = inr (on_air, k.passthrough);
  }

  pub handshake-Shakes :
      (opts : QmkOpts) (s : Qmk link.State)
      → 0 < opts.status_poll
      → 0 < opts.probe_gap
      → Shakes opts (handshake link crc opts s) s
  unfolding handshake OffAir
  handshake-Shakes opts s h k =
      let (runs, kept) = first_status-Keeps opts s in
      met (first_status link opts s).0 refl runs kept
    where
      taken :
          (anchor : ℕ) (t : Qmk link.State)
          → OffAir opts s
          → Keeps link s t
          → Shakes opts ((open_passthrough link >> probe_until_alive link crc anchor opts) t) s
      taken anchor t off kept =
          let t1 : Qmk link.State = record t { passthrough = true } in
          let p = probe_until_alive-Probes link crc anchor opts t1 k in
          record {
            runs = p.runs;
            booted = p.booted ∙ kept.booted;
            opened = λ e. (p.passthrough, p.entered e, p.rx e);
            missed = λ e x. p.missed e x ∙ kept.entered;
            air = inl (off, p.passthrough);
          }

      anchored :
          (initial : BridgeStatus)
          → (first_status link opts s).0 ≡ ok initial
          → (r : Result QmkError ℕ) (t : Qmk link.State)
          → (anchor_for link opts initial (first_status link opts s).1).0 ≡ r
          → r ≢ fault
          → Keeps link s t
          → Shakes opts
              (and_then
                (λ anchor. open_passthrough link >> probe_until_alive link crc anchor opts)
                r
                t)
              s
      anchored initial first (ok anchor) t e runs kept =
          taken anchor t (initial, anchor, first, e) kept
      anchored initial first (err x) t e runs kept =
          unshaken opts x s t
            (λ (i, a, answered, acked).
              let same : i ≡ initial = cc (first, answered) in
              let other : (anchor_for link opts initial (first_status link opts s).1).0 ≡ ok a =
                subst (λ j. (anchor_for link opts j (first_status link opts s).1).0 ≡ ok a) same
                  acked in
              cc (e, other))
            kept
      anchored initial first fault t e runs kept = absurd (runs refl)

      met :
          (r : Result QmkError BridgeStatus)
          → (first_status link opts s).0 ≡ r
          → r ≢ fault
          → Keeps link s (first_status link opts s).1
          → Shakes opts
              (and_then
                (λ initial. anchor_for link opts initial >>= λ anchor.
                  open_passthrough link >> probe_until_alive link crc anchor opts)
                r
                (first_status link opts s).1)
              s
      met (ok initial) first runs kept =
          let t = (first_status link opts s).1 in
          let a = anchor_for-Anchors link opts initial t h in
          anchored initial first (anchor_for link opts initial t).0
            (anchor_for link opts initial t).1 refl a.runs
            (Keeps-trans link s t (anchor_for link opts initial t).1 kept a.keeps)
      met (err e) first runs kept =
          unshaken opts e s (first_status link opts s).1
            (λ (i, a, answered, acked). cc (first, answered)) kept
      met fault first runs kept = absurd (runs refl)
