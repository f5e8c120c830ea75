-- ===== src/Transport/Qmk/Entering.antt =====
-- A round of `enter` ends, and leaves the flags of the tunnel alone.
use open_boot.Base.{
  ℕ, ◌≤◌, ◌<◌, ◌≡◌, ◌≢◌, refl, ◌∙◌, Bool, true, false, [], Option, none, some, Result, ok, err,
  fault, Bytes, map_err, arith,
}
use open_boot.Base.Actions.{and_then, ◌>>◌}
use open_boot.Transport.{IoError}
use open_boot.Transport.Qmk.{ReportLink, Qmk, op_status}
use open_boot.Transport.Qmk.Pipe.{write_control, read_control}
use open_boot.Transport.Qmk.Reads.{
  Reads, read_control-Loops, read_control-passed, read_control-spends,
}
use open_boot.Transport.Qmk.Sends.{write_control-Writes}
use open_boot.Transport.Qmk.Handshake.{with_error, enter_io, poll_round}

module _ (link : ReportLink) where
  -- Time does not run back, and no flag moves.
  pub record Keeps (s s' : Qmk link.State) : Type 0 where
    pub time : link.now s.link ≤ link.now s'.link
    pub passthrough : s'.passthrough ≡ s.passthrough
    pub entered : s'.entered ≡ s.entered
    pub booted : s'.booted ≡ s.booted

  pub Keeps-trans : (s t u : Qmk link.State) → Keeps s t → Keeps t u → Keeps s u
  Keeps-trans s t u a b = record {
    time = omega (arith, a.time, b.time);
    passthrough = b.passthrough ∙ a.passthrough;
    entered = b.entered ∙ a.entered;
    booted = b.booted ∙ a.booted;
  }

  pub Keeps-refl : (s : Qmk link.State) → Keeps s s
  Keeps-refl s = record { time = omega arith; passthrough = refl; entered = refl; booted = refl }

  pub Reads-Keeps : (s s' : Qmk link.State) → Reads link s s' → Keeps s s'
  Reads-Keeps s s' h = record {
    time = h.time;
    passthrough = h.passthrough;
    entered = h.entered;
    booted = h.booted;
  }

  pub control-Keeps :
      (op : ℕ) (args : Bytes) (s : Qmk link.State) → Keeps s (write_control link op args s).1
  control-Keeps op args s =
      let w = write_control-Writes link op args s in
      record { time = w.time; passthrough = w.passthrough; entered = w.entered; booted = w.booted }

  -- What a round leaves, up to a time that is not behind the deadline.
  pub record Rounds {E : Type 0} (until d : ℕ) (r : Result E (Option Bytes) × Qmk link.State)
      (s : Qmk link.State) : Type 0 where
    pub runs : r.0 ≢ fault
    pub keeps : Keeps s r.1
    pub least : link.budget d r.1.link ≤ link.budget d s.link
    pub spends :
        (payload : Bytes) → r.0 ≡ ok (some payload) → link.budget d r.1.link < link.budget d s.link
    pub passed : r.0 ≡ ok none → until ≤ link.now r.1.link

  read-Rounds :
      {E : Type 0} (f : IoError → E) (until d : ℕ) (s : Qmk link.State)
      → until ≤ d
      → Rounds until d (with_error f (read_control link until) s) s
  read-Rounds {E} f until d s h =
      let l = read_control-Loops link until d s h in
      let r = (read_control link until s).0 in
      record {
        runs = λ e. ground (arith, l.runs);
        keeps = Reads-Keeps s (read_control link until s).1 l.reads;
        least = l.least;
        spends = λ payload e. read_control-spends link until d s payload h (ground arith);
        passed = λ e. read_control-passed link until s (ground arith);
      }

  pub poll-Rounds :
      {E : Type 0} (f : IoError → E) (until d : ℕ) (s : Qmk link.State)
      → until ≤ d
      → Rounds until d
          ((with_error f (write_control link op_status [])
              >> with_error f (read_control link until))
            s)
          s
  poll-Rounds {E} f until d s h = join (write_control link op_status [] s).0 refl
    where
      join :
          (r : Result IoError (Unit {0}))
          → (write_control link op_status [] s).0 ≡ r
          → Rounds until d
              (and_then
                (λ _. with_error f (read_control link until))
                (map_err f r)
                (write_control link op_status [] s).1)
              s
      join (ok u) e =
          let w = write_control-Writes link op_status [] s in
          let s1 = (write_control link op_status [] s).1 in
          let v = read-Rounds f until d s1 h in
          record {
            runs = v.runs;
            keeps = Keeps-trans s s1 _ (control-Keeps op_status [] s) v.keeps;
            least = omega (arith, w.least d, v.least);
            spends = λ p x. omega (arith, w.least d, v.spends p x);
            passed = v.passed;
          }
      join (err x) e = record {
        runs = λ z. cc;
        keeps = control-Keeps op_status [] s;
        least = (write_control-Writes link op_status [] s).least d;
        spends = λ p z. cc;
        passed = λ z. cc;
      }
      join fault e = absurd ((write_control-Writes link op_status [] s).runs e)

  pub poll_round-Rounds :
      (due : Bool) (until d : ℕ) (s : Qmk link.State)
      → until ≤ d
      → Rounds until d (poll_round link due until s) s
  unfolding poll_round
  poll_round-Rounds true until d s h = poll-Rounds enter_io until d s h
  poll_round-Rounds false until d s h = read-Rounds enter_io until d s h
