-- ===== src/Transport/Framing/Bridge.antt =====
-- A byte source and a way to send make a transport: `framing::recv_sof_frame` behind `recv_frame`, as
-- the transports over a byte stream have it.
use open_boot.Base.{
  ℕ, zero, suc, ◌+◌, ◌*◌, ◌≤◌, ◌<◌, ◌≡◌, ◌≢◌, refl, Bool, false, List, [], ◌∷◌, ◌++◌, Option, none,
  some, Result, ok, err, fault, Bytes, get_or, arith,
}
use open_boot.Base.Actions.{Action}
use open_boot.Proto.Consts.{frame_hdr_len, frame_crc_len}
use open_boot.Transport.{Transport, IoError}
use open_boot.Transport.Framing.{
  ByteSource, Hunt, locked, gave_up, hunt, read_bytes, after_header, after_hunt, resync,
  recv_sof_frame,
}
use open_boot.Transport.Framing.Ends.{hunt_ends, read_bytes_ends, recv_sof_frame-ne-fault}

module _ (src : ByteSource) (d : ℕ) where
  -- The result is no frame, or the budget has fallen below the bound.
  abbrev Spends : ℕ → Result IoError (Option Bytes) × src.State → Type 0
  Spends bound r = (raw : Bytes) → r.0 ≡ ok (some raw) → src.budget d r.1 < bound

  after_header-Spends :
      (again : Action src.State IoError (Option Bytes)) (bound : ℕ)
      → ((s : src.State) → src.budget d s < bound → Spends bound (again s))
      → (got : Result IoError (Option Bytes)) (s : src.State) → src.budget d s < bound
      → Spends bound (after_header src again d got s)
  unfolding after_header
  after_header-Spends again bound more (ok none) s h raw e = more s h raw e
  after_header-Spends again bound more (ok (some frame)) s h raw e =
      let k = get_or frame 2 0 + frame_crc_len in
      let s' = (read_bytes src k d frame s).1 in
      let later : src.budget d s' < bound
          → (again s').0 ≡ ok (some raw)
          → src.budget d (again s').1 < bound =
        λ lt. more s' lt raw in
      ground (arith, read_bytes_ends src d k frame s, more s h raw, later)
  after_header-Spends again bound more (err x) s h raw e = cc
  after_header-Spends again bound more fault s h raw e = cc

  after_hunt-Spends :
      (again : Action src.State IoError (Option Bytes)) (bound : ℕ)
      → ((s : src.State) → src.budget d s < bound → Spends bound (again s))
      → (end : Result IoError Hunt) (s : src.State) → (end ≡ ok locked → src.budget d s < bound)
      → Spends bound (after_hunt src again d end s)
  unfolding after_hunt
  after_hunt-Spends again bound more (ok locked) s h =
      let room = (read_bytes_ends src d frame_hdr_len [] s).1 in
      after_header-Spends again bound more (read_bytes src frame_hdr_len d [] s).0
        (read_bytes src frame_hdr_len d [] s).1 (omega (arith, h refl))
  after_hunt-Spends again bound more (ok gave_up) s h = λ raw e. cc
  after_hunt-Spends again bound more (err x) s h = λ raw e. cc
  after_hunt-Spends again bound more fault s h = λ raw e. cc

  resync-Spends :
      (n : ℕ) (s : src.State) (bound : ℕ) → src.budget d s ≤ bound → Spends bound (resync src n d s)
  unfolding resync
  resync-Spends zero s bound h = λ raw e. cc
  resync-Spends (suc n) s bound h =
      let fuel = 2 * src.budget d s + 2 in
      let taken = (hunt_ends src d fuel false s (omega arith)).2 in
      after_hunt-Spends (resync src n d) bound (λ s' lt. resync-Spends n s' bound (omega arith))
        (hunt src fuel false d s).0 (hunt src fuel false d s).1 (λ e. omega (arith, taken e))

  -- A frame that is received has cost at least one byte of what can arrive by the deadline.
  pub recv_sof_frame-budget :
      (s : src.State) (raw : Bytes)
      → (recv_sof_frame src d s).0 ≡ ok (some raw)
      → src.budget d (recv_sof_frame src d s).1 < src.budget d s
  unfolding recv_sof_frame
  recv_sof_frame-budget s raw e =
      resync-Spends (suc (src.budget d s)) s (src.budget d s) (omega arith) raw e

module _ (src : ByteSource) (send : Bytes → Action src.State IoError (Unit {0}))
    (send-ne-fault : (bytes : Bytes) (s : src.State) → (send bytes s).0 ≢ fault)
    (holds : Bool) where
  -- Beside the state stand the frames handed over so far.
  abbrev pub framed : Transport
  framed = record {
    State = src.State × List Bytes;
    now = λ s. src.now s.0;
    send_frame = λ bytes s. ((send bytes s.0).0, ((send bytes s.0).1, s.1 ++ (bytes ∷ [])));
    recv_frame = λ d s. ((recv_sof_frame src d s.0).0, ((recv_sof_frame src d s.0).1, s.1));
    holds_in_bootloader = λ s. holds;
    sent = λ s. s.1;
    budget = λ d s. src.budget d s.0;
    sent-send = λ bytes s. refl;
    sent-recv = λ d s. refl;
    send-ne-fault = λ bytes s short. send-ne-fault bytes s.0;
    recv-ne-fault = λ d s. recv_sof_frame-ne-fault src d s.0;
    recv-budget = λ d s raw. recv_sof_frame-budget src d s.0 raw;
  }
