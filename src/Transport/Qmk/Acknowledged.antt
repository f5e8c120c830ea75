-- ===== src/Transport/Qmk/Acknowledged.antt =====
-- `enter` ends, with an anchor that has passed, and leaves the flags of the tunnel alone.
use open_boot.Base.{
  ℕ, zero, suc, ◌+◌, ◌-◌, ◌≤◌, ◌<◌, ◌≡◌, ◌≢◌, refl, min, Bool, true, false, [], ◌∷◌, ◌++◌, Option,
  none, some, Result, ok, err, fault, Bytes, leb, if◌then◌else◌, u16_le, u32_le, map_err, arith,
}
use open_boot.Base.Actions.{Action, and_then, ◌>>◌}
use open_boot.Transport.{IoError}
use open_boot.Transport.Qmk.{
  ReportLink, Qmk, QmkOpts, QmkError, EnterError, no_ack, other, BridgeStatus, op_enter,
  enter_magic, enter_flag_force, verdict, anchor_from_elapsed, parse_status,
}
use open_boot.Transport.Qmk.Pipe.{write_control}
use open_boot.Transport.Qmk.Sends.{write_control-Writes}
use open_boot.Transport.Qmk.Handshake.{
  with_error, enter_io, poll_round, answered, enter_loop, await_ack, enter, or_force, forced_error,
  anchor_for,
}
use open_boot.Transport.Qmk.Entering.{
  Keeps, Keeps-trans, Keeps-refl, control-Keeps, poll_round-Rounds,
}

module _ (link : ReportLink) where
  -- An action that ends, and moves no flag; an anchor that it gives has passed.
  pub record Anchors {E : Type 0} (r : Result E ℕ × Qmk link.State) (s : Qmk link.State)
      : Type 0 where
    pub runs : r.0 ≢ fault
    pub keeps : Keeps link s r.1
    pub past : (anchor : ℕ) → r.0 ≡ ok anchor → anchor ≤ link.now r.1.link

  verdict-ne-fault : (payload : Bytes) → verdict payload ≢ some fault
  unfolding verdict parse_status
  verdict-ne-fault payload e = ground arith

  answered-Anchors :
      (answer : Result EnterError ℕ) (s : Qmk link.State)
      → answer ≢ fault
      → Anchors (answered link answer s) s
  unfolding anchor_from_elapsed
  answered-Anchors (ok elapsed) s h = record {
    runs = λ e. cc;
    keeps = Keeps-refl link s;
    past = λ a e. ground arith;
  }
  answered-Anchors (err x) s h = record {
    runs = λ e. cc;
    keeps = Keeps-refl link s;
    past = λ a e. cc;
  }
  answered-Anchors fault s h = absurd (h refl)

  -- The round before keeps the flags, so what follows it decides.
  behind :
      {E : Type 0} (r : Result E ℕ × Qmk link.State) (s t : Qmk link.State)
      → Keeps link s t
      → Anchors r t
      → Anchors r s
  behind r s t k a = record {
    runs = a.runs;
    keeps = Keeps-trans link s t r.1 k a.keeps;
    past = a.past;
  }

  -- A round without a payload has waited for the next poll, or for the end.
  round_silent :
      (n poll_ms give_up next_poll : ℕ) (s t : Qmk link.State)
      → min
          (if leb next_poll (link.now s.link) then link.now s.link + poll_ms else next_poll)
          give_up
        ≤ link.now t.link
      → link.budget give_up t.link ≤ link.budget give_up s.link
      → 0 < poll_ms
      → leb give_up (link.now s.link) ≡ false
      → give_up - link.now s.link + link.budget give_up s.link < suc n
      → give_up - link.now t.link + link.budget give_up t.link < n
  round_silent n poll_ms give_up next_poll s t passed least h early k = ground arith

  enter_round :
      (over : Bool) (got : Result EnterError (Option Bytes)) (t : Qmk link.State)
      (again : Result EnterError ℕ × Qmk link.State) (s : Qmk link.State)
      → got ≢ fault
      → Keeps link s t
      → (over ≡ false → got ≡ ok none → Anchors again s)
      → ((payload : Bytes) → got ≡ ok (some payload) → Anchors again s)
      → Anchors {E = EnterError}
          (elim over [
            | true ↦ (err no_ack, s)
            | false ↦ elim got [
              | err e ↦ (err e, t)
              | fault ↦ (fault, t)
              | ok none ↦ again
              | ok (some payload) ↦ elim (verdict payload) [
                | none ↦ again
                | some answer ↦ answered link answer t
              ]
            ]
          ])
          s
  enter_round true got t again s runs keeps silent heard = record {
    runs = λ e. cc;
    keeps = Keeps-refl link s;
    past = λ a e. cc;
  }
  enter_round false (err x) t again s runs keeps silent heard = record {
    runs = λ e. cc;
    keeps = keeps;
    past = λ a e. cc;
  }
  enter_round false fault t again s runs keeps silent heard = absurd (runs refl)
  enter_round false (ok none) t again s runs keeps silent heard = silent refl refl
  enter_round false (ok (some payload)) t again s runs keeps silent heard =
      let more = heard payload refl in
      let said : ((answer : Result EnterError ℕ)
          → answer ≢ fault
          → Anchors (answered link answer t) s) =
        λ answer x. behind (answered link answer t) s t keeps (answered-Anchors answer t x) in
      grind (arith, more, said, verdict-ne-fault payload)

  enter_loop-Anchors :
      (n poll_ms give_up next_poll : ℕ) (s : Qmk link.State)
      → 0 < poll_ms
      → give_up - link.now s.link + link.budget give_up s.link < n
      → Anchors (enter_loop link n poll_ms give_up next_poll s) s
  unfolding enter_loop
  enter_loop-Anchors zero poll_ms give_up next_poll s h k = absurd (omega arith)
  enter_loop-Anchors (suc n) poll_ms give_up next_poll s h k =
      let due = leb next_poll (link.now s.link) in
      let next = if due then link.now s.link + poll_ms else next_poll in
      let r = poll_round link due (min next give_up) s in
      let p = poll_round-Rounds link due (min next give_up) give_up s (omega arith) in
      let later : (give_up - link.now r.1.link + link.budget give_up r.1.link < n
          → Anchors (enter_loop link n poll_ms give_up next r.1) s) =
        λ lt.
          behind (enter_loop link n poll_ms give_up next r.1) s r.1 p.keeps
            (enter_loop-Anchors n poll_ms give_up next r.1 h lt) in
      let silent : (leb give_up (link.now s.link) ≡ false
          → r.0 ≡ ok none
          → Anchors (enter_loop link n poll_ms give_up next r.1) s) =
        λ early e.
          later (round_silent n poll_ms give_up next_poll s r.1 (p.passed e) p.least h early k) in
      let heard : ((payload : Bytes)
          → r.0 ≡ ok (some payload)
          → Anchors (enter_loop link n poll_ms give_up next r.1) s) =
        λ payload e. later (omega (arith, p.spends payload e, p.keeps.time)) in
      enter_round (leb give_up (link.now s.link)) r.0 r.1
        (enter_loop link n poll_ms give_up next r.1) s p.runs p.keeps silent heard

  await_ack-Anchors :
      (opts : QmkOpts) (s : Qmk link.State)
      → 0 < opts.status_poll
      → Anchors (await_ack link opts s) s
  unfolding await_ack
  await_ack-Anchors opts s h =
      let give_up = link.now s.link + opts.enter_ack_timeout in
      enter_loop-Anchors (suc (opts.enter_ack_timeout + link.budget give_up s.link))
        opts.status_poll give_up (link.now s.link) s h (omega arith)

  -- A control report goes out first; then what follows decides.
  control-then :
      {E A : Type 0} (f : IoError → E) (op : ℕ) (args : Bytes) (k : Action (Qmk link.State) E A)
      (s : Qmk link.State) (P : Result E A × Qmk link.State → Type 0)
      → P (k (write_control link op args s).1)
      → ((x : E) → P (err x, (write_control link op args s).1))
      → P ((with_error f (write_control link op args) >> k) s)
  control-then {E} {A} f op args k s P done failed = join (write_control link op args s).0 refl
    where
      join :
          (r : Result IoError (Unit {0}))
          → (write_control link op args s).0 ≡ r
          → P (and_then (λ _. k) (map_err f r) (write_control link op args s).1)
      join (ok u) e = done
      join (err x) e = failed (f x)
      join fault e = absurd ((write_control-Writes link op args s).runs e)

  pub enter-Anchors :
      (force : Bool) (opts : QmkOpts) (s : Qmk link.State)
      → 0 < opts.status_poll
      → Anchors (enter link force opts s) s
  unfolding enter
  enter-Anchors force opts s h =
      let args =
        u32_le enter_magic
        ++ u16_le opts.settle_hint_ms
        ++ ((if force then enter_flag_force else 0) ∷ []) in
      let s1 = (write_control link op_enter args s).1 in
      control-then enter_io op_enter args (await_ack link opts) s (λ r. Anchors r s)
        (behind (await_ack link opts s1) s s1 (control-Keeps link op_enter args s)
          (await_ack-Anchors opts s1 h))
        (λ x. record {
          runs = λ e. cc;
          keeps = control-Keeps link op_enter args s;
          past = λ a e. cc;
        })

  or_force-Anchors :
      (opts : QmkOpts) (r : Result EnterError ℕ × Qmk link.State) (s : Qmk link.State)
      → 0 < opts.status_poll
      → Anchors r s
      → Anchors (or_force link opts r.0 r.1) s
  or_force-Anchors opts (ok anchor, t) s h a = record {
    runs = λ e. cc;
    keeps = a.keeps;
    past = λ x e. a.past x (grind arith);
  }
  or_force-Anchors opts (err no_ack, t) s h a =
      let b = enter-Anchors true opts t h in
      behind (with_error forced_error (enter link true opts) t) s t a.keeps (record {
        runs = λ e. ground (arith, b.runs);
        keeps = b.keeps;
        past = λ x e. b.past x (ground arith);
      })
  or_force-Anchors opts (err (other x), t) s h a = record {
    runs = λ e. cc;
    keeps = a.keeps;
    past = λ x e. cc;
  }
  or_force-Anchors opts (fault, t) s h a = absurd (a.runs refl)

  pub anchor_for-Anchors :
      (opts : QmkOpts) (initial : BridgeStatus) (s : Qmk link.State)
      → 0 < opts.status_poll
      → Anchors (anchor_for link opts initial s) s
  unfolding anchor_for anchor_from_elapsed
  anchor_for-Anchors opts initial s h =
      let fresh =
        or_force-Anchors opts (enter link false opts s) s h (enter-Anchors false opts s h) in
      let adopted : Anchors {E = QmkError}
          (ok (anchor_from_elapsed (link.now s.link) initial.elapsed_ms), s) s =
        record { runs = λ e. cc; keeps = Keeps-refl link s; past = λ a e. ground arith } in
      grind (arith, fresh, adopted)
