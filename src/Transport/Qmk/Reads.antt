-- ===== src/Transport/Qmk/Reads.antt =====
-- What the reads of a tunnel change: nothing is written, no flag moves, and no read goes on for ever.
use open_boot.Base.{
  ℕ, zero, suc, ◌+◌, ◌-◌, ◌*◌, ◌^◌, ◌≤◌, ◌<◌, ◌≡◌, ◌≢◌, refl, ◌∙◌, min, max, ◌++◌, Option, none,
  some, Result, ok, err, fault, Bytes, length, drop, get_or, ◌==◌, length-take, length-append,
  Bool-cases, inl, inr, arith,
}
use open_boot.Transport.{IoError}
use open_boot.Transport.Qmk.{ReportLink, Qmk, Rx, parse_report, stream_max}
use open_boot.Transport.Qmk.Pipe.{deliver, pumped, pump, control_loop, read_control}

pub parse_report-fits :
    (buf : Bytes) (tag : ℕ) (payload : Bytes)
    → parse_report buf ≡ some (tag, payload)
    → length payload ≤ stream_max
unfolding parse_report
parse_report-fits buf tag payload e = ground (arith, length-take (get_or buf 1 0) (drop 2 buf))

module _ (link : ReportLink) where
  -- Only the bytes in hand and the state of the link have changed.
  pub record Reads (s s' : Qmk link.State) : Type 0 where
    pub time : link.now s.link ≤ link.now s'.link
    pub log : link.written s'.link ≡ link.written s.link
    pub passthrough : s'.passthrough ≡ s.passthrough
    pub entered : s'.entered ≡ s.entered
    pub booted : s'.booted ≡ s.booted

  pub Reads-refl : (s : Qmk link.State) → Reads s s
  Reads-refl s = record {
    time = omega arith;
    log = refl;
    passthrough = refl;
    entered = refl;
    booted = refl;
  }

  pub Reads-trans : (s t u : Qmk link.State) → Reads s t → Reads t u → Reads s u
  Reads-trans s t u a b = record {
    time = omega (arith, a.time, b.time);
    log = b.log ∙ a.log;
    passthrough = b.passthrough ∙ a.passthrough;
    entered = b.entered ∙ a.entered;
    booted = b.booted ∙ a.booted;
  }

  deliver-Reads : (o : Option (ℕ × Bytes)) (s : Qmk link.State) → Reads s (deliver link o s).1
  unfolding deliver
  deliver-Reads none s = Reads-refl s
  deliver-Reads (some (tag, payload)) s =
      grind (arith, Reads-refl s, Reads-refl (record s { rx = s.rx ++ payload }))

  -- The bytes in hand and those that can still arrive.
  abbrev pub measure : ℕ → Qmk link.State → ℕ
  measure d s = length s.rx + stream_max * link.budget d s.link

  -- What `deliver` leaves for a payload that fits.
  record Delivers (r : Result IoError (Option Rx) × Qmk link.State) (s : Qmk link.State)
      : Type 0 where
    same_link : r.1.link ≡ s.link
    room : length r.1.rx ≤ length s.rx + stream_max
    runs : r.0 ≢ fault
    some_report : r.0 ≢ ok none

  parsed-Delivers :
      (buf : Bytes) (s : Qmk link.State) → Delivers (deliver link (parse_report buf) s) s
  unfolding deliver
  parsed-Delivers buf s = split (parse_report buf) refl
    where
      split : (o : Option (ℕ × Bytes)) → parse_report buf ≡ o → Delivers (deliver link o s) s
      split none e = record {
        same_link = refl;
        room = omega arith;
        runs = λ z. cc;
        some_report = λ z. cc;
      }
      split (some (tag, payload)) e =
          let fits = parse_report-fits buf tag payload e in
          record {
            same_link = ground arith;
            room = ground (arith, length-append s.rx payload);
            runs = λ z. ground arith;
            some_report = λ z. ground arith;
          }

  -- What `pump` leaves, for a deadline that does not end before the wait.
  pub record Pumps (until d : ℕ) (r : Result IoError (Option Rx) × Qmk link.State)
      (s : Qmk link.State) : Type 0 where
    pub reads : Reads s r.1
    pub runs : r.0 ≢ fault
    pub passed : r.0 ≡ ok none → until ≤ link.now r.1.link
    pub spends : (x : Rx) → r.0 ≡ ok (some x) → link.budget d r.1.link < link.budget d s.link
    pub least : link.budget d r.1.link ≤ link.budget d s.link
    pub bytes : measure d r.1 ≤ measure d s

  pumped-Pumps :
      (until d : ℕ) (r : Result IoError Bytes) (t : link.State) (s : Qmk link.State)
      → link.now s.link ≤ link.now t
      → link.written t ≡ link.written s.link
      → r ≢ fault
      → link.budget d t < link.budget d s.link
      → Pumps until d (pumped link r (record s { link = t })) s
  unfolding pumped
  pumped-Pumps until d (ok buf) t s time log runs spend =
      let s1 : Qmk link.State = record s { link = t } in
      let r = deliver link (parse_report buf) s1 in
      let p = parsed-Delivers buf s1 in
      let b = deliver-Reads (parse_report buf) s1 in
      record {
        reads =
            Reads-trans s s1 r.1
              (record { time = time; log = log; passthrough = refl; entered = refl; booted = refl })
              b;
        runs = p.runs;
        passed = λ e. absurd (p.some_report e);
        spends = λ x e. rw p.same_link spend;
        least = rw p.same_link (omega arith);
        bytes = rw p.same_link (omega (arith, p.room));
      }
  pumped-Pumps until d (err x) t s time log runs spend = record {
    reads = record { time = time; log = log; passthrough = refl; entered = refl; booted = refl };
    runs = λ e. cc;
    passed = λ e. cc;
    spends = λ y e. cc;
    least = omega arith;
    bytes = omega arith;
  }
  pumped-Pumps until d fault t s time log runs spend = absurd (runs refl)

  pub pump-Pumps :
      (until d : ℕ) (s : Qmk link.State) → until ≤ d → Pumps until d (pump link until s) s
  unfolding pump
  pump-Pumps until d s h = elim (Bool-cases (until - link.now s.link == 0)) [
    | inl over ↦
        rw (pump, over)
          (record {
            reads = Reads-refl s;
            runs = λ e. cc;
            passed = λ e. ground arith;
            spends = λ y e. cc;
            least = omega arith;
            bytes = omega arith;
          })
    | inr early ↦
        let wait = max (min (until - link.now s.link) (2 ^ 31 - 1)) 1 in
        let r = link.read_report wait s.link in
        let before : link.now s.link < d = ground arith in
        rw (pump, early)
          (pumped-Pumps until d r.0 r.1 s (link.now-read wait s.link)
            (link.written-read wait s.link) (link.read-ne-fault wait s.link)
            (link.budget-read d wait s.link before))
  ]

  -- What a loop of reads leaves.
  pub record Loops {A : Type 0} (d : ℕ) (r : Result IoError A × Qmk link.State) (s : Qmk link.State)
      : Type 0 where
    pub reads : Reads s r.1
    pub runs : r.0 ≢ fault
    pub least : link.budget d r.1.link ≤ link.budget d s.link
    pub bytes : measure d r.1 ≤ measure d s

  -- A loop ends behind a `pump`, or goes on behind one that has read a report.
  pub ends_loop :
      {A : Type 0} (until d : ℕ) (s : Qmk link.State) (x : Result IoError A)
      → Pumps until d (pump link until s) s
      → x ≢ fault
      → Loops d (x, (pump link until s).1) s
  ends_loop until d s x p h = record { reads = p.reads; runs = h; least = p.least; bytes = p.bytes }

  pub goes_on :
      {A : Type 0} (until d : ℕ) (s : Qmk link.State) (r : Result IoError A × Qmk link.State)
      → Pumps until d (pump link until s) s
      → Loops d r (pump link until s).1
      → Loops d r s
  goes_on until d s r p l = record {
    reads = Reads-trans s (pump link until s).1 r.1 p.reads l.reads;
    runs = l.runs;
    least = omega (arith, p.least, l.least);
    bytes = omega (arith, p.bytes, l.bytes);
  }

  control_loop-Loops :
      (n until d : ℕ) (s : Qmk link.State)
      → until ≤ d
      → link.budget until s.link < n
      → Loops d (control_loop link n until s) s
  unfolding control_loop
  control_loop-Loops zero until d s h k = absurd (omega arith)
  control_loop-Loops (suc n) until d s h k =
      let p = pump-Pumps until d s h in
      let q = pump-Pumps until until s (omega arith) in
      let s' = (pump link until s).1 in
      let more : ((x : Rx)
          → (pump link until s).0 ≡ ok (some x)
          → Loops d (control_loop link n until s') s) =
        λ x e.
          goes_on until d s (control_loop link n until s') p
            (control_loop-Loops n until d s' h (omega (arith, q.spends x e))) in
      let stop : ((x : Result IoError (Option Bytes)) → x ≢ fault → Loops d (x, s') s) =
        λ x e. ends_loop until d s x p e in
      grind (arith, more, stop, p.runs)

  -- `read_control` ends; at `none` the time has passed, and a payload has cost a read.
  pub read_control-Loops :
      (until d : ℕ) (s : Qmk link.State) → until ≤ d → Loops d (read_control link until s) s
  unfolding read_control
  read_control-Loops until d s h =
      control_loop-Loops (suc (link.budget until s.link)) until d s h (omega arith)

  control_loop-passed :
      (n until : ℕ) (s : Qmk link.State)
      → (control_loop link n until s).0 ≡ ok none
      → until ≤ link.now (control_loop link n until s).1.link
  unfolding control_loop
  control_loop-passed zero until s e = cc
  control_loop-passed (suc n) until s e =
      let p = pump-Pumps until until s (omega arith) in
      grind (arith, p.passed, control_loop-passed n until (pump link until s).1)

  pub read_control-passed :
      (until : ℕ) (s : Qmk link.State)
      → (read_control link until s).0 ≡ ok none
      → until ≤ link.now (read_control link until s).1.link
  unfolding read_control
  read_control-passed until s e = control_loop-passed (suc (link.budget until s.link)) until s e

  control_loop-spends :
      (n until d : ℕ) (s : Qmk link.State) (payload : Bytes)
      → until ≤ d
      → (control_loop link n until s).0 ≡ ok (some payload)
      → link.budget d (control_loop link n until s).1.link < link.budget d s.link
  unfolding control_loop
  control_loop-spends zero until d s payload h e = cc
  control_loop-spends (suc n) until d s payload h e =
      let p = pump-Pumps until d s h in
      grind
        (arith, p.spends, p.least, control_loop-spends n until d (pump link until s).1 payload h)

  pub read_control-spends :
      (until d : ℕ) (s : Qmk link.State) (payload : Bytes)
      → until ≤ d
      → (read_control link until s).0 ≡ ok (some payload)
      → link.budget d (read_control link until s).1.link < link.budget d s.link
  unfolding read_control
  read_control-spends until d s payload h e =
      control_loop-spends (suc (link.budget until s.link)) until d s payload h e
