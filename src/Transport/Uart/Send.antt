-- ===== src/Transport/Uart/Send.antt =====
-- What `send_frame` hands to the port.
use open_boot.Base.{
  ℕ, ◌+◌, ◌-◌, ◌≤◌, ◌≡◌, ◌≢◌, refl, sym, subst, ap, ◌∙◌, Bool, true, false, List, [], ◌∷◌, ◌++◌,
  append-nil, append_assoc, Option, Result, ok, err, fault, Bytes, length, drop, slice, length-drop,
  take-append-drop, drop-drop, le→ltb, arith,
}
use open_boot.Base.Actions.{Action, and_then, ◌>>◌}
use open_boot.Text.{Text}
use open_boot.Transport.{IoError}
use open_boot.Transport.Framing.{encode_sof}
use open_boot.Transport.Uart.{
  SerialPort, parse_chunk, write_plan, rest_after, write_chunks, send_frame, chunk_drain,
  write_timeout,
}
use open_boot.Transport.Uart.Plan.{IsPlan, write_plan-IsPlan, parse_chunk-ne-zero}

drop_all : (n : ℕ) (xs : Bytes) → length xs ≤ n → drop n xs ≡ []
drop_all n xs h = empty (drop n xs) (omega (arith, length-drop n xs))
  where
    empty : (ys : Bytes) → length ys ≡ 0 → ys ≡ []
    empty [] e = refl
    empty (y ∷ ys) e = absurd (omega arith)

module _ (port : SerialPort) where
  -- The action ends with a result, and writes a front of the bytes: all of them where it succeeds.
  record Writes (out : Bytes) (r : Result IoError (Unit {0}) × port.State) (s : port.State)
      : Type 0 where
    runs : r.0 ≢ fault
    front : Bytes
    back : Bytes
    cut : out ≡ front ++ back
    log : port.written r.1 ≡ port.written s ++ front
    all : r.0 ≡ ok tt → back ≡ []

  Writes-then :
      (xs ys : Bytes) (m k : Action port.State IoError (Unit {0})) (s : port.State)
      → Writes xs (m s) s
      → Writes ys (k (m s).1) (m s).1
      → Writes (xs ++ ys) ((m >> k) s) s
  Writes-then xs ys m k s w v = join (m s).0 refl
    where
      join :
          (r : Result IoError (Unit {0}))
          → (m s).0 ≡ r
          → Writes (xs ++ ys) (and_then (λ _. k) r (m s).1) s
      join (ok u) e =
          let whole : w.front ≡ xs =
            sym (append-nil w.front) ∙ ap (λ b. w.front ++ b) (sym (w.all e)) ∙ sym w.cut in
          record {
            runs = v.runs;
            front = xs ++ v.front;
            back = v.back;
            cut = ap (λ b. xs ++ b) v.cut ∙ sym (append_assoc xs v.front v.back);
            log = v.log ∙ ap (λ b. b ++ v.front) w.log ∙ rw (whole, append_assoc) refl;
            all = v.all;
          }
      join (err x) e = record {
        runs = λ z. cc;
        front = w.front;
        back = w.back ++ ys;
        cut = ap (λ b. b ++ ys) w.cut ∙ append_assoc w.front w.back ys;
        log = w.log;
        all = λ z. cc;
      }
      join fault e = absurd (w.runs e)

  quiet :
      (r : Result IoError (Unit {0}) × port.State) (s : port.State)
      → r.0 ≢ fault
      → port.written r.1 ≡ port.written s
      → Writes [] r s
  quiet r s runs same = record {
    runs = runs;
    front = [];
    back = [];
    cut = refl;
    log = same ∙ sym (append-nil (port.written s));
    all = λ e. refl;
  }

  write_all-Writes : (bytes : Bytes) (s : port.State) → Writes bytes (port.write_all bytes s) s
  write_all-Writes bytes s = split (port.write_all bytes s).0 refl
    where
      split :
          (r : Result IoError (Unit {0}))
          → (port.write_all bytes s).0 ≡ r
          → Writes bytes (port.write_all bytes s) s
      split (ok u) e = record {
        runs = port.write_all-ne-fault bytes s;
        front = bytes;
        back = [];
        cut = sym (append-nil bytes);
        log = port.written-write_all bytes s e;
        all = λ z. refl;
      }
      split (err x) e =
          let (front, back, cut, log) = port.written-write_all_front bytes s in
          record {
            runs = port.write_all-ne-fault bytes s;
            front = front;
            back = back;
            cut = cut;
            log = log;
            all = λ z. cc;
          }
      split fault e = absurd (port.write_all-ne-fault bytes s e)

  rest_after-Writes :
      (pause : Bool) (len : ℕ) (s : port.State) → Writes [] (rest_after port pause len s) s
  unfolding rest_after
  rest_after-Writes true len s = quiet _ s (λ e. cc) (port.written-sleep (chunk_drain len) s)
  rest_after-Writes false len s = quiet _ s (λ e. cc) refl

  one_write :
      (bytes : Bytes) (pause : Bool) (len : ℕ) (s : port.State)
      → Writes bytes ((port.write_all bytes >> port.flush >> rest_after port pause len) s) s
  one_write bytes pause len s =
      let m = port.write_all bytes in
      let s1 = (m s).1 in
      let flushed =
        Writes-then bytes [] m port.flush s (write_all-Writes bytes s)
          (quiet (port.flush s1) s1 (port.flush-ne-fault s1) (port.written-flush s1)) in
      let s2 = ((m >> port.flush) s).1 in
      let rested =
        Writes-then (bytes ++ []) [] (m >> port.flush) (rest_after port pause len) s flushed
          (rest_after-Writes pause len s2) in
      let none_more : bytes ++ [] ++ [] ≡ bytes = append-nil (bytes ++ []) ∙ append-nil bytes in
      subst (λ b. Writes b ((port.write_all bytes >> port.flush >> rest_after port pause len) s) s)
        none_more rested

  write_chunks_step :
      (len : ℕ) (pause : Bool) (plan : List (ℕ × Bool)) (sent : ℕ) (out : Bytes) (s : port.State)
      → sent + len ≤ length out
      → write_chunks port ((len, pause) ∷ plan) sent out s
        ≡ (port.write_all (slice out sent (sent + len))
              >> port.flush
              >> rest_after port pause len
              >> write_chunks port plan (sent + len) out)
            s
  unfolding write_chunks
  write_chunks_step len pause plan sent out s h =
      rw (write_chunks, le→ltb (length out) (sent + len) h) refl

  write_chunks-Writes :
      (plan : List (ℕ × Bool)) (sent : ℕ) (out : Bytes) (s : port.State)
      → sent ≤ length out
      → IsPlan (length out - sent) plan
      → Writes (drop sent out) (write_chunks port plan sent out s) s
  write_chunks-Writes [] sent out s h e =
      let none_left : drop sent out ≡ [] = drop_all sent out (omega arith) in
      unfold write_chunks in rw none_left (quiet (ok tt, s) s (λ z. cc) refl)
  write_chunks-Writes ((len, pause) ∷ plan) sent out s h (some_bytes, fits, paused, rest) =
      let left : length out - sent - len ≡ length out - (sent + len) = omega arith in
      let m =
        port.write_all (slice out sent (sent + len)) >> port.flush >> rest_after port pause len in
      let more =
        write_chunks-Writes plan (sent + len) out (m s).1 (omega arith)
          (subst (λ k. IsPlan k plan) left rest) in
      let cut : slice out sent (sent + len) ++ drop (sent + len) out ≡ drop sent out =
        let size : sent + len - sent ≡ len = omega arith in
        rw (size, ← drop-drop sent len out) (take-append-drop len (drop sent out)) in
      rw (write_chunks_step len pause plan sent out s (omega arith)) (
        subst (λ b. Writes b ((m >> write_chunks port plan (sent + len) out) s) s) cut
          (Writes-then (slice out sent (sent + len)) (drop (sent + len) out) m
            (write_chunks port plan (sent + len) out) s
            (one_write (slice out sent (sent + len)) pause len s) more))

  -- Whatever the setting of the chunks, `send_frame` ends with a result; it hands the port a front of
  -- the start bytes and the frame, and all of them where it succeeds.
  pub send_frame-written :
      (chunk : Option Text) (frame : Bytes) (s : port.State)
      → ((send_frame port chunk frame s).0 ≢ fault)
        × ((front : Bytes) × (back : Bytes) × (encode_sof frame ≡ front ++ back)
            × (port.written (send_frame port chunk frame s).1 ≡ port.written s ++ front)
            × ((send_frame port chunk frame s).0 ≡ ok tt → back ≡ []))
  send_frame-written chunk frame s =
      let out = encode_sof frame in
      let set = port.set_timeout write_timeout in
      let s1 = (set s).1 in
      let plan = write_plan (length out) (parse_chunk chunk) in
      let start =
        quiet (set s) s (port.set_timeout-ne-fault write_timeout s)
          (port.written-set_timeout write_timeout s) in
      let shape =
        write_plan-IsPlan (length out) (parse_chunk chunk) (unfold encode_sof in omega arith)
          (parse_chunk-ne-zero chunk) in
      let whole : length out - 0 ≡ length out = omega arith in
      let body =
        write_chunks-Writes plan 0 out s1 (omega arith)
          (subst (λ k. IsPlan k plan) (sym whole) shape) in
      let w = Writes-then [] out set (write_chunks port plan 0 out) s start body in
      unfold send_frame in (w.runs, (w.front, w.back, w.cut, w.log, w.all))
