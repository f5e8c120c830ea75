-- ===== src/Transport/Framing.antt =====
-- tools/src/transport/framing.rs: the start-of-frame hunt over any byte source. `deadline` and the
-- clock are in milliseconds, and `deadline - now` stops at 0 as `saturating_duration_since` does.
pub mod Ends
pub mod Keeps
pub mod Bridge
pub mod Shape
pub mod Delivery
pub mod RoundTrip
use open_boot.Base.{
  ℕ, zero, suc, ◌+◌, ◌-◌, ◌*◌, ◌≤◌, ◌<◌, ◌≡◌, ◌≢◌, min, Bool, true, false, ◌&&◌, List, [], ◌∷◌,
  ◌++◌, Option, none, some, Result, ok, err, fault, Bytes, get_or, ltb, ◌==◌, if◌then◌else◌,
}
use open_boot.Base.Actions.{Action}
use open_boot.Proto.Consts.{
  uart_sof1, uart_sof2, uart_interbyte_ms, frame_hdr_len, frame_crc_len, max_payload,
}
use open_boot.Transport.{IoError}

-- The trait `ByteSource`. `now` is the clock that `Instant::now` reads. `budget` is no part of the
-- trait: it bounds the bytes that can still arrive by a deadline.
pub record ByteSource : Type 1 where
  pub State : Type 0
  pub now : State → ℕ
  pub next_byte : ℕ → Action State IoError (Option ℕ)
  pub budget : ℕ → State → ℕ
  pub next-ne-fault : (wait : ℕ) (s : State) → (next_byte wait s).0 ≢ fault
  pub next-budget :
      (deadline wait : ℕ) (s : State) (b : ℕ)
      → now s < deadline
      → now s + wait ≤ deadline
      → (next_byte wait s).0 ≡ ok (some b)
      → budget deadline (next_byte wait s).1 < budget deadline s
  pub next-budget_le :
      (deadline wait : ℕ) (s : State)
      → now s < deadline
      → now s + wait ≤ deadline
      → budget deadline (next_byte wait s).1 ≤ budget deadline s

unfoldable pub encode_sof : Bytes → Bytes
encode_sof frame = uart_sof1 ∷ uart_sof2 ∷ frame

-- How the hunt ends: on the two bytes, or with nothing more to come.
pub data Hunt : Type 0 where
  locked gave_up : Hunt

module _ (src : ByteSource) where
  -- The inner loop. `armed` is `sof1_seen`; the fuel bounds the bytes and gaps.
  unfoldable pub hunt : ℕ → Bool → ℕ → Action src.State IoError Hunt
  hunt zero armed deadline s = (fault, s)
  hunt (suc n) armed deadline s =
      let remaining = deadline - src.now s in
      let wait = if armed then min uart_interbyte_ms remaining else remaining in
      let s' = (src.next_byte wait s).1 in
      let arm = hunt n true deadline s' in
      let disarm = hunt n false deadline s' in
      elim (remaining == 0) [
        | true ↦ (ok gave_up, s)
        | false ↦ elim (src.next_byte wait s).0 [
          | ok (some b) ↦ elim (b == uart_sof1) [
            | true ↦ arm
            | false ↦ elim (b == uart_sof2 && armed) [ true ↦ (ok locked, s') | false ↦ disarm ]
          ]
          | ok none ↦ elim armed [ true ↦ disarm | false ↦ (ok gave_up, s') ]
          | err e ↦ (err e, s')
          | fault ↦ (fault, s')
        ]
      ]

  unfoldable pub next_frame_byte : ℕ → Action src.State IoError (Option ℕ)
  next_frame_byte deadline s =
      let remaining = deadline - src.now s in
      if remaining == 0 then (ok none, s) else src.next_byte (min uart_interbyte_ms remaining) s

  -- The two `for` loops: so many more bytes behind `frame`, or `none` for `continue 'resync`.
  unfoldable pub read_bytes : ℕ → ℕ → Bytes → Action src.State IoError (Option Bytes)
  unfolding next_frame_byte
  read_bytes zero deadline frame s = (ok (some frame), s)
  read_bytes (suc k) deadline frame s =
      let s' = (next_frame_byte deadline s).1 in
      elim (next_frame_byte deadline s).0 [
        | ok (some b) ↦ read_bytes k deadline (frame ++ (b ∷ [])) s'
        | ok none ↦ (ok none, s')
        | err e ↦ (err e, s')
        | fault ↦ (fault, s')
      ]

  -- The parts of the outer loop; `again` is its next round.
  module _ (again : Action src.State IoError (Option Bytes)) where
    unfoldable pub after_body :
        Result IoError (Option Bytes) → Action src.State IoError (Option Bytes)
    after_body (ok (some frame)) s = (ok (some frame), s)
    after_body (ok none) s = again s
    after_body (err e) s = (err e, s)
    after_body fault s = (fault, s)

    unfoldable pub after_header :
        ℕ → Result IoError (Option Bytes) → Action src.State IoError (Option Bytes)
    unfolding after_body
    after_header deadline (ok (some frame)) s =
        let len = get_or frame 2 0 in
        let (got, s') = read_bytes (len + frame_crc_len) deadline frame s in
        if ltb max_payload len then again s else after_body got s'
    after_header deadline (ok none) s = again s
    after_header deadline (err e) s = (err e, s)
    after_header deadline fault s = (fault, s)

    unfoldable pub after_hunt : ℕ → Result IoError Hunt → Action src.State IoError (Option Bytes)
    unfolding after_header
    after_hunt deadline (ok locked) s =
        let (got, s') = read_bytes frame_hdr_len deadline [] s in after_header deadline got s'
    after_hunt deadline (ok gave_up) s = (ok none, s)
    after_hunt deadline (err e) s = (err e, s)
    after_hunt deadline fault s = (fault, s)

  -- The outer loop: each round takes a byte from the source, or returns.
  unfoldable pub resync : ℕ → ℕ → Action src.State IoError (Option Bytes)
  unfolding after_hunt
  resync zero deadline s = (fault, s)
  resync (suc n) deadline s =
      let (end, s') = hunt (2 * src.budget deadline s + 2) false deadline s in
      after_hunt (resync n deadline) deadline end s'

  unfoldable pub recv_sof_frame : ℕ → Action src.State IoError (Option Bytes)
  unfolding resync
  recv_sof_frame deadline s = resync (suc (src.budget deadline s)) deadline s
