-- ===== src/Transport/Framing/Delivery.antt =====
-- A frame whose bytes arrive in time is received, whatever stands before it on the wire.
use open_boot.Base.{
  ℕ, zero, suc, ◌+◌, ◌-◌, ◌*◌, ◌≤◌, ◌<◌, ◌≡◌, refl, ap, ◌∙◌, min, Bool, true, false, ◌&&◌, ◌||◌, [],
  ◌∷◌, ◌++◌, append_assoc, append-nil, Option, some, ok, Bytes, length, length-append, Bool-cases,
  inl, inr, le→ltb, arith, if◌then◌else◌, ltb, ◌==◌,
}
use open_boot.Base.Actions.{Action}
use open_boot.Proto.Consts.{frame_crc_len, max_payload, uart_interbyte_ms, uart_sof1, uart_sof2}
use open_boot.Transport.{IoError}
use open_boot.Transport.Framing.{
  ByteSource, locked, encode_sof, hunt, next_frame_byte, read_bytes, after_hunt, resync,
  recv_sof_frame,
}
use open_boot.Transport.Framing.Shape.{HasShape}

-- Whether the two start bytes follow one another somewhere; `armed` is whether the first of them
-- was the last byte before these.
unfoldable pub has_sof : Bool → Bytes → Bool
has_sof armed [] = false
has_sof armed (b ∷ bs) = (armed && b == uart_sof2) || has_sof (b == uart_sof1) bs

has_sof_step :
    (armed : Bool) (b : ℕ) (bs : Bytes)
    → has_sof armed (b ∷ bs) ≡ false
    → ((b == uart_sof2 && armed) ≡ false) × (has_sof (b == uart_sof1) bs ≡ false)
unfolding has_sof
has_sof_step armed b bs h = ground arith

module _ (src : ByteSource) (d : ℕ) where
  -- From s the source yields these bytes before the deadline, with no gap, and stands at s'.
  pub data Delivers : src.State → Bytes → src.State → Type 0 where
    all_read : {s : src.State} → Delivers s [] s
    arrives :
        {s s' : src.State} {bs : Bytes} (b : ℕ) (s1 : src.State)
        → src.now s < d
        → ((wait : ℕ) → src.next_byte wait s ≡ (ok (some b), s1))
        → Delivers s1 bs s'
        → Delivers s (b ∷ bs) s'

  Delivers-append :
      (xs : Bytes) {ys : Bytes} {s s' : src.State}
      → Delivers s (xs ++ ys) s'
      → (m : src.State) × Delivers s xs m × Delivers m ys s'
  Delivers-append [] {s = s} h = (s, all_read, h)
  Delivers-append (x ∷ xs) (arrives b s1 early next h) =
      let (m, front, back) = Delivers-append xs h in (m, arrives b s1 early next front, back)

  Delivers-budget :
      {bs : Bytes} {s s' : src.State}
      → Delivers s bs s'
      → length bs + src.budget d s' ≤ src.budget d s
  Delivers-budget all_read = omega arith
  Delivers-budget (arrives {s = s} b s1 early next h) =
      let took = src.next-budget d 0 s b early (omega arith) (ap (λ r. r.0) (next 0)) in
      omega (arith, Delivers-budget h, rw (next 0) at took)

  read_bytes-Delivers :
      {bs : Bytes} (frame : Bytes) {s s' : src.State}
      → Delivers s bs s'
      → read_bytes src (length bs) d frame s ≡ (ok (some (frame ++ bs)), s')
  unfolding read_bytes next_frame_byte
  read_bytes-Delivers frame {s = s} all_read = rw append-nil
  read_bytes-Delivers frame (arrives {s = s} {bs = bs} b s1 early next h) = ground (
    arith,
    next (min 50 (d - src.now s)),
    read_bytes-Delivers (frame ++ (b ∷ [])) h,
    append_assoc frame (b ∷ []) bs,
  )

  -- One round of the hunt on a byte that arrives.
  hunt_byte :
      (n : ℕ) (armed : Bool) (b : ℕ) (s s1 : src.State)
      → src.now s < d
      → ((wait : ℕ) → src.next_byte wait s ≡ (ok (some b), s1))
      → hunt src (suc n) armed d s ≡ (
          if b == uart_sof1
          then hunt src n true d s1
          else if b == uart_sof2 && armed
          then (ok locked, s1)
          else hunt src n false d s1)
  unfolding hunt
  hunt_byte n armed b s s1 early next =
      ground (arith, next (if armed then min uart_interbyte_ms (d - src.now s) else d - src.now s))

  hunt-Delivers :
      (n : ℕ) (armed : Bool) (bs : Bytes) {s s' : src.State}
      → length bs + 2 ≤ n
      → has_sof armed bs ≡ false
      → Delivers s (bs ++ (uart_sof1 ∷ uart_sof2 ∷ [])) s'
      → hunt src n armed d s ≡ (ok locked, s')
  unfolding has_sof
  hunt-Delivers (suc (suc n)) armed [] room clean
        (arrives {s = s} b s1 early next (arrives c s2 early' next' all_read)) =
      hunt_byte (suc n) armed b s s1 early next ∙ hunt_byte n true c s1 s2 early' next'
  hunt-Delivers (suc n) armed (x ∷ bs) room clean (arrives {s = s} b s1 early next h) =
      let (unlocked, clean') = has_sof_step armed x bs clean in
      hunt_byte n armed b s s1 early next ∙ elim (Bool-cases (b == uart_sof1)) [
        | inl e ↦ rw e (hunt-Delivers n true bs (omega arith) (rw e at clean') h)
        | inr e ↦ rw (e, unlocked) (hunt-Delivers n false bs (omega arith) (rw e at clean') h)
      ]
  hunt-Delivers zero armed bs room clean h = absurd (omega arith)
  hunt-Delivers (suc zero) armed [] room clean h = absurd (omega arith)

  locked-Delivers :
      (again : Action src.State IoError (Option Bytes)) (a b l fl : ℕ) (t : Bytes)
      {s s' : src.State}
      → l ≤ max_payload
      → length t ≡ l + frame_crc_len
      → Delivers s (a ∷ b ∷ l ∷ fl ∷ t) s'
      → after_hunt src again d (ok locked) s ≡ (ok (some (a ∷ b ∷ l ∷ fl ∷ t)), s')
  unfolding after_hunt
  locked-Delivers again a b l fl t {s} fits whole h =
      let header = a ∷ b ∷ l ∷ fl ∷ [] in
      let (m, front, back) = Delivers-append header h in
      let first = read_bytes-Delivers [] front in
      let rest = rw whole at (read_bytes-Delivers header back) in
      let small : ltb max_payload l ≡ false = le→ltb max_payload l fits in
      rw (first, small, rest) refl

  shape-Delivers :
      (again : Action src.State IoError (Option Bytes)) (frame : Bytes) {s s' : src.State}
      → HasShape frame
      → Delivers s frame s'
      → after_hunt src again d (ok locked) s ≡ (ok (some frame), s')
  shape-Delivers again (a ∷ b ∷ l ∷ fl ∷ t) sh h =
      locked-Delivers again a b l fl t sh.fits (omega arith) h
  shape-Delivers again [] sh h = absurd (omega arith)
  shape-Delivers again (a ∷ []) sh h = absurd (omega arith)
  shape-Delivers again (a ∷ b ∷ []) sh h = absurd (omega arith)
  shape-Delivers again (a ∷ b ∷ l ∷ []) sh h = absurd (omega arith)

  resync-Delivers :
      (n : ℕ) (noise frame : Bytes) {s m s' : src.State}
      → has_sof false noise ≡ false
      → HasShape frame
      → Delivers s (noise ++ (uart_sof1 ∷ uart_sof2 ∷ [])) m
      → Delivers m frame s'
      → resync src (suc n) d s ≡ (ok (some frame), s')
  unfolding resync
  resync-Delivers n noise frame {s} clean shape front back =
      let fuel = 2 * src.budget d s + 2 in
      let room : length noise + 2 ≤ fuel =
        omega (arith, Delivers-budget front, length-append noise (uart_sof1 ∷ uart_sof2 ∷ [])) in
      rw (hunt-Delivers fuel false noise room clean front)
        (shape-Delivers (resync src n d) frame shape back)

  -- On the wire stand bytes with no start pair among them, the start pair, and a string of bytes
  -- with the shape of a frame. Where they arrive before the deadline and without a gap, that string
  -- is received, and the source is left just behind it.
  pub recv_sof_frame-Delivers :
      (noise frame : Bytes) {s s' : src.State}
      → has_sof false noise ≡ false
      → HasShape frame
      → Delivers s (noise ++ encode_sof frame) s'
      → recv_sof_frame src d s ≡ (ok (some frame), s')
  unfolding recv_sof_frame encode_sof
  recv_sof_frame-Delivers noise frame {s} {s'} clean shape h =
      let pair = uart_sof1 ∷ uart_sof2 ∷ [] in
      let wire : Delivers s ((noise ++ pair) ++ frame) s' = rw append_assoc h in
      let (m, front, back) = Delivers-append (noise ++ pair) wire in
      resync-Delivers (src.budget d s) noise frame clean shape front back
