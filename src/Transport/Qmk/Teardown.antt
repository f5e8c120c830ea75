-- ===== src/Transport/Qmk/Teardown.antt =====
-- The end of a tunnel's life, behind whatever was sent and received over it.
use open_boot.Base.{
  ℕ, ◌<◌, ◌≡◌, ◌⊎◌, inl, inr, refl, ap, subst, ◌∙◌, Bool-cases, Bool, true, false, ◌||◌, ◌&&◌, not,
  List, [], ◌∷◌, ◌++◌, Among, ok, Bytes, if◌then◌else◌, arith,
}
use open_boot.Proto.Consts.{cmd_boot, boot_app}
use open_boot.Proto.Crc32.{Crc32}
use open_boot.Proto.Frame.{Frame}
use open_boot.Proto.Frame.RoundTrip.{wire}
use open_boot.Proto.Requests.{boot_req_payload}
use open_boot.Transport.Framing.{recv_sof_frame}
use open_boot.Transport.Qmk.{ReportLink, Qmk, QmkOpts}
use open_boot.Transport.Qmk.Pipe.{begins_boot, send_frame}
use open_boot.Transport.Qmk.Sends.{send_frame-Writes, noted, frame_reports}
use open_boot.Transport.Qmk.Tunnel.{bytes}
use open_boot.Transport.Qmk.Handshake.{drop, with_link}
use open_boot.Transport.Qmk.Leaving.{recv_sof_frame-Reads, Parks, drop-Parks, exit_report}
use open_boot.Transport.Qmk.WithLink.{with_link-ends, none_before}

-- A frame that asks the bootloader to boot.
abbrev pub IsBoot : Bytes → Type 0
IsBoot frame = (rest : Bytes) × (frame ≡ cmd_boot ∷ rest)

module _ (link : ReportLink) where
  -- From s to s', these frames are sent over the tunnel, in this order, and others are received at any
  -- point between. A send or a receive may fail.
  pub data Session : Qmk link.State → List Bytes → Qmk link.State → Type 0 where
    idle : {s : Qmk link.State} → Session s [] s
    send :
        {s s' : Qmk link.State} {frames : List Bytes} (frame : Bytes)
        → Session (send_frame link frame s).1 frames s'
        → Session s (frame ∷ frames) s'
    receive :
        {s s' : Qmk link.State} {frames : List Bytes} (deadline : ℕ)
        → Session (recv_sof_frame (bytes link) deadline s).1 frames s'
        → Session s frames s'

  begins_boot-cases :
      (frame : Bytes)
      → ((begins_boot frame ≡ true) × IsBoot frame)
        ⊎ ((begins_boot frame ≡ false) × (IsBoot frame → ⊥))
  begins_boot-cases [] = inr (refl, λ (rest, e). cc)
  begins_boot-cases (b ∷ bs) = elim (Bool-cases (begins_boot (b ∷ bs))) [
    | inl yes_boot ↦
        let cmd : b ≡ cmd_boot = ground arith in inl (yes_boot, (bs, ap (λ c. c ∷ bs) cmd))
    | inr no_boot ↦ inr (no_boot, λ (rest, e). ground arith)
  ]

  Flags : Qmk link.State → Qmk link.State → Type 0
  Flags s t = (t.passthrough ≡ s.passthrough) × (t.entered ≡ s.entered)

  noted_flags :
      (s : Qmk link.State) (b : Bool)
      → let t : Qmk link.State = if b then record s { booted = true } else s in
        (t.booted ≡ (s.booted || b)) × (t.passthrough ≡ s.passthrough) × (t.entered ≡ s.entered)
  noted_flags s true = (ground arith, refl, refl)
  noted_flags s false = (ground arith, refl, refl)

  sent-booted :
      (frame : Bytes) (s : Qmk link.State)
      → ((send_frame link frame s).1.booted ≡ (s.booted || begins_boot frame))
        × Flags s (send_frame link frame s).1
  unfolding Flags
  sent-booted frame s =
      let w = send_frame-Writes link frame s in
      let n : ((noted link frame s).booted ≡ (s.booted || begins_boot frame))
          × ((noted link frame s).passthrough ≡ s.passthrough)
          × ((noted link frame s).entered ≡ s.entered) =
        noted_flags s (begins_boot frame) in
      (w.booted ∙ n.0, (w.passthrough ∙ n.1, w.entered ∙ n.2))

  -- The flag is set, since it was set before or a BOOT frame was among those sent; or it is not, as
  -- before, and none was.
  abbrev Told : Bool → Bool → List Bytes → Type 0
  Told before after frames =
      ((after ≡ true) × ((before ≡ true) ⊎ ((frame : Bytes) × Among frame frames × IsBoot frame)))
      ⊎ ((after ≡ false)
          × (before ≡ false)
          × ((frame : Bytes) → Among frame frames → IsBoot frame → ⊥))

  Told-send :
      (b b1 b' : Bool) (frame : Bytes) (frames : List Bytes)
      → b1 ≡ (b || begins_boot frame)
      → Told b1 b' frames
      → Told b b' (frame ∷ frames)
  Told-send b b1 b' frame frames step (inl (on, inl set)) = elim (begins_boot-cases frame) [
    | inl (starts, boots) ↦ inl (on, inr (frame, inl refl, boots))
    | inr (starts, other) ↦ inl (on, inl (ground arith))
  ]
  Told-send b b1 b' frame frames step (inl (on, inr (f, m, boots))) =
      inl (on, inr (f, inr m, boots))
  Told-send b b1 b' frame frames step (inr (off, unset, none_boots)) =
      let before : b ≡ false = ground arith in
      elim (begins_boot-cases frame) [
        | inl (starts, boots) ↦ absurd (let clash : ⊥ = ground arith in clash)
        | inr (starts, other) ↦ inr (
          off,
          before,
          λ f m boots. elim m [
            | inl e ↦ other (subst IsBoot e boots)
            | inr r ↦ none_boots f r boots
          ],
        )
      ]

  Told-idle : (b : Bool) → Told b b []
  Told-idle true = inl (refl, inl refl)
  Told-idle false = inr (refl, refl, λ f m boots. m)

  Session-Told :
      {s s' : Qmk link.State} {frames : List Bytes}
      → Session s frames s'
      → Flags s s' × Told s.booted s'.booted frames
  unfolding Flags
  Session-Told {s} idle = ((refl, refl), Told-idle s.booted)
  Session-Told {s} {s'} (send {frames = frames} frame rest) =
      let (noted_boot, (on, entered)) = sent-booted frame s in
      let ((on', entered'), told) = Session-Told rest in
      (
        (on' ∙ on, entered' ∙ entered),
        Told-send s.booted (send_frame link frame s).1.booted s'.booted frame frames noted_boot
            told,
      )
  Session-Told {s} {s'} {frames} (receive deadline rest) =
      let r = recv_sof_frame-Reads link deadline s in
      let ((on', entered'), told) = Session-Told rest in
      (
        (on' ∙ r.passthrough, entered' ∙ r.entered),
        subst (λ b. Told b s'.booted frames) r.booted told,
      )

  module _ (crc : Crc32) where
    -- The BOOT frame of the teardown.
    abbrev pub boot_app_frame : Frame
    boot_app_frame = record { cmd = cmd_boot; seq = 240; payload = boot_app ∷ [] }

    -- What the teardown writes: EXIT alone behind a BOOT, and otherwise the reports of that frame, all
    -- of them unless the stack fails, and then EXIT.
    pub Leaves : Qmk link.State → List Bytes → Type 0
    Leaves s frames =
        (((frame : Bytes) × Among frame frames × IsBoot frame)
          × (link.written (drop link crc s).1.link
              ≡ link.written s.link ++ (exit_report link ∷ [])))
        ⊎ (((frame : Bytes) → Among frame frames → IsBoot frame → ⊥)
            × ((boots : List Bytes) × (missing : List Bytes) × (boots ++ missing
                  ≡ frame_reports link (wire crc boot_app_frame))
                × ((send_frame link (wire crc boot_app_frame) s).0 ≡ ok tt → missing ≡ [])
                × (link.written (drop link crc s).1.link
                    ≡ link.written s.link ++ (boots ++ (exit_report link ∷ [])))))

    -- With a poll and a gap between probes above 0: let a tunnel be opened, and frames be sent and
    -- received over it in any order, whether that succeeds or not. Its teardown then ends without an
    -- error. Where a frame that was sent begins with the command BOOT, it writes the EXIT report and
    -- nothing else. Where none does, it writes the reports of the frame BOOT for the application,
    -- all of them unless the stack fails, and then EXIT.
    pub drop-Leaves :
        (opts : QmkOpts) (l : link.State) {s : Qmk link.State} {frames : List Bytes}
        → 0 < opts.status_poll
        → 0 < opts.probe_gap
        → (with_link link crc opts l).0 ≡ ok tt
        → Session (with_link link crc opts l).1 frames s
        → ((drop link crc s).0 ≡ ok tt) × Leaves s frames
    unfolding Flags Leaves boot_req_payload
    drop-Leaves opts l {s} {frames} h k opened session =
        let up = (with_link-ends link crc opts l h k).1 opened in
        let ((on, entered), told) = Session-Told session in
        let (runs, ends) = drop-Parks link crc s in
        (runs, parked s frames (entered ∙ up.entered) (on ∙ up.passthrough) up.booted told ends)
      where
        parked :
            (s : Qmk link.State) (frames : List Bytes) {b : Bool}
            → s.entered ≡ true
            → s.passthrough ≡ true
            → b ≡ false
            → Told b s.booted frames
            → ((s.passthrough ≡ false) × ((drop link crc s).1 ≡ s))
              ⊎ ((s.passthrough ≡ true) × Parks link crc s (drop link crc s).1)
            → Leaves s frames
        parked s frames entered on fresh told (inl (off, same)) = absurd (cc (on, off))
        parked s frames entered on fresh (inl (booted, inl before)) (inr (up, parks)) =
            absurd (cc (before, fresh))
        parked s frames entered on fresh (inl (booted, inr sent)) (inr (up, parks)) =
            let nothing : parks.boots ++ parks.missing ≡ [] = ground (arith, parks.cut) in
            let no_boots = none_before link crc parks.boots parks.missing nothing in
            inl (
              sent,
              parks.log ∙ ap (λ b. link.written s.link ++ (b ++ (exit_report link ∷ []))) no_boots,
            )
        parked s frames entered on fresh (inr (unset, before, none_boots)) (inr (up, parks)) =
            let due : (s.entered && not s.booted) ≡ true = ground arith in
            let cut = rw due at parks.cut in
            inr (none_boots, (parks.boots, parks.missing, cut, parks.whole, parks.log))
