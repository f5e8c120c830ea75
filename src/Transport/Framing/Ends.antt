-- ===== src/Transport/Framing/Ends.antt =====
-- `recv_sof_frame` ends on every source, and what it returns has the shape of a frame.
use open_boot.Base.{
  ℕ, zero, suc, ◌+◌, ◌-◌, ◌*◌, ◌≤◌, ◌<◌, ◌≡◌, ◌≢◌, refl, min, Bool, true, false, [], ◌∷◌, ◌++◌,
  Option, none, some, Result, ok, err, fault, Bytes, get_or, arith, if◌then◌else◌,
}
use open_boot.Base.Actions.{Action}
use open_boot.Proto.Consts.{frame_hdr_len, frame_crc_len, uart_interbyte_ms}
use open_boot.Transport.{IoError}
use open_boot.Transport.Framing.{
  ByteSource, Hunt, locked, gave_up, hunt, next_frame_byte, read_bytes, after_header, after_hunt,
  resync, recv_sof_frame,
}

abbrev pub byte_of : Result IoError (Option ℕ) → ℕ
byte_of (ok (some b)) = b
byte_of _ = 0

module _ (src : ByteSource) (d : ℕ) where
  -- What is left of the budget, with one more round while the hunt is armed.
  abbrev rounds : Bool → src.State → ℕ
  rounds armed s = 2 * src.budget d s + (if armed then 1 else 0)

  abbrev wait_of : Bool → src.State → ℕ
  wait_of armed s = if armed then min uart_interbyte_ms (d - src.now s) else d - src.now s

  -- The hunt does not run out of fuel, and a lock has taken a byte at least.
  pub hunt_ends :
      (n : ℕ) (armed : Bool) (s : src.State)
      → rounds armed s < n
      → ((hunt src n armed d s).0 ≢ fault)
        × (src.budget d (hunt src n armed d s).1 ≤ src.budget d s)
        × ((hunt src n armed d s).0 ≡ ok locked
            → src.budget d (hunt src n armed d s).1 < src.budget d s)
  unfolding hunt
  hunt_ends zero armed s h = absurd (omega arith)
  hunt_ends (suc n) true s h =
      let w = wait_of true s in
      let s' = (src.next_byte w s).1 in
      ground (
        arith,
        src.next-ne-fault w s,
        src.next-budget_le d w s,
        src.next-budget d w s (byte_of (src.next_byte w s).0),
        hunt_ends n true s',
        hunt_ends n false s',
      )
  hunt_ends (suc n) false s h =
      let w = wait_of false s in
      let s' = (src.next_byte w s).1 in
      ground (
        arith,
        src.next-ne-fault w s,
        src.next-budget_le d w s,
        src.next-budget d w s (byte_of (src.next_byte w s).0),
        hunt_ends n true s',
        hunt_ends n false s',
      )

  next_frame_byte_ends :
      (s : src.State)
      → ((next_frame_byte src d s).0 ≢ fault)
        × (src.budget d (next_frame_byte src d s).1 ≤ src.budget d s)
  unfolding next_frame_byte
  next_frame_byte_ends s =
      let w = min uart_interbyte_ms (d - src.now s) in
      ground (
        arith,
        src.next-ne-fault w s,
        src.next-budget_le d w s,
        src.next-budget d w s (byte_of (src.next_byte w s).0),
      )

  -- The `for` loops end, and what they return has the length asked for.
  pub read_bytes_ends :
      (k : ℕ) (frame : Bytes) (s : src.State)
      → ((read_bytes src k d frame s).0 ≢ fault)
        × (src.budget d (read_bytes src k d frame s).1 ≤ src.budget d s)
  unfolding read_bytes
  read_bytes_ends zero frame s = ((λ e. cc), omega arith)
  read_bytes_ends (suc k) frame s =
      let b = byte_of (next_frame_byte src d s).0 in
      let s' = (next_frame_byte src d s).1 in
      ground (arith, next_frame_byte_ends s, read_bytes_ends k (frame ++ (b ∷ [])) s')

  after_header_ends :
      (again : Action src.State IoError (Option Bytes)) (bound : ℕ)
      → ((s : src.State) → src.budget d s < bound → (again s).0 ≢ fault)
      → (got : Result IoError (Option Bytes)) (s : src.State) → got ≢ fault
      → src.budget d s < bound
      → (after_header src again d got s).0 ≢ fault
  unfolding after_header
  after_header_ends again bound ends (ok none) s h le = ends s le
  after_header_ends again bound ends (ok (some frame)) s h le =
      let k = get_or frame 2 0 + frame_crc_len in
      let s' = (read_bytes src k d frame s).1 in
      λ e. ground (arith, read_bytes_ends k frame s, ends s le, ends s')
  after_header_ends again bound ends (err x) s h le = λ e. cc
  after_header_ends again bound ends fault s h le = absurd (h refl)

  after_hunt_ends :
      (again : Action src.State IoError (Option Bytes)) (bound : ℕ)
      → ((s : src.State) → src.budget d s < bound → (again s).0 ≢ fault)
      → (end : Result IoError Hunt) (s : src.State) → end ≢ fault
      → (end ≡ ok locked → src.budget d s < bound)
      → (after_hunt src again d end s).0 ≢ fault
  unfolding after_hunt
  after_hunt_ends again bound ends (ok locked) s h le =
      let (got, room) = read_bytes_ends frame_hdr_len [] s in
      after_header_ends again bound ends (read_bytes src frame_hdr_len d [] s).0
        (read_bytes src frame_hdr_len d [] s).1 got (omega (arith, le refl))
  after_hunt_ends again bound ends (ok gave_up) s h le = λ e. cc
  after_hunt_ends again bound ends (err x) s h le = λ e. cc
  after_hunt_ends again bound ends fault s h le = absurd (h refl)

  resync_ends : (n : ℕ) (s : src.State) → src.budget d s < n → (resync src n d s).0 ≢ fault
  unfolding resync
  resync_ends zero s h = absurd (omega arith)
  resync_ends (suc n) s h =
      let fuel = 2 * src.budget d s + 2 in
      let (sound, room, taken) = hunt_ends fuel false s (omega arith) in
      after_hunt_ends (resync src n d) n (λ s' lt. resync_ends n s' lt) (hunt src fuel false d s).0
        (hunt src fuel false d s).1 sound (λ e. omega (arith, taken e))

  -- Whatever the source does before the deadline, `recv_sof_frame` returns: with a frame, with
  -- nothing, or with the error of the source.
  pub recv_sof_frame-ne-fault : (s : src.State) → (recv_sof_frame src d s).0 ≢ fault
  unfolding recv_sof_frame
  recv_sof_frame-ne-fault s = resync_ends (suc (src.budget d s)) s (omega arith)
