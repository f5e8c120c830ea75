-- ===== src/Transport.antt =====
-- tools/src/transport/mod.rs: the `Transport` trait and its matcher `xfer`.
-- A transport is an interface, which Uart, Hid and Qmk below fill. Times are in milliseconds.
pub mod Xfer
pub mod Framing
pub mod Uart
pub mod Qmk
pub mod Hid
use open_boot.Base.{
  ℕ, suc, zero, ◌+◌, ◌<◌, ◌≤◌, length, ◌≡◌, ◌≢◌, Bool, List, [], ◌∷◌, ◌++◌, Option, none, some,
  Result, ok, err, fault, Bytes, if◌then◌else◌,
}
use open_boot.Base.Actions.{Action}
use open_boot.Proto.Consts.{max_frame}
use open_boot.Proto.Crc32.{Crc32}
use open_boot.Proto.Frame
use open_boot.Proto.Frame.{Frame}

-- An error of the HID or serial stack, told apart by a number only.
pub data IoError : Type 0 where
  io_error : ℕ → IoError

-- `now` is the clock. `sent` and `budget` are no part of the trait: they are what a proof sees of
-- the frames handed over so far, and a bound on the frames that can still arrive by a deadline.
pub record Transport : Type 1 where
  pub State : Type 0
  pub now : State → ℕ
  pub send_frame : Bytes → Action State IoError (Unit {0})
  pub recv_frame : ℕ → Action State IoError (Option Bytes)
  pub holds_in_bootloader : State → Bool
  pub sent : State → List Bytes
  pub budget : ℕ → State → ℕ
  pub sent-send : (bytes : Bytes) (s : State) → sent (send_frame bytes s).1 ≡ sent s ++ (bytes ∷ [])
  pub sent-recv : (deadline : ℕ) (s : State) → sent (recv_frame deadline s).1 ≡ sent s
  pub send-ne-fault :
      (bytes : Bytes) (s : State) → length bytes ≤ max_frame → (send_frame bytes s).0 ≢ fault
  pub recv-ne-fault : (deadline : ℕ) (s : State) → (recv_frame deadline s).0 ≢ fault
  pub recv-budget :
      (deadline : ℕ) (s : State) (raw : Bytes)
      → (recv_frame deadline s).0 ≡ ok (some raw)
      → budget deadline (recv_frame deadline s).1 < budget deadline s

pub data TransportError : Type 0 where
  timeout : TransportError
  io : IoError → TransportError

module _ (crc : Crc32) where
  -- What the loop of `xfer` does with one candidate frame that is decoded without a panic: `none`
  -- is to go on listening.
  unfoldable pub accept : Frame → Bytes → Option Frame
  accept req raw = elim (Frame.decode crc raw) [
    | ok f ↦
        if Frame.is_frame_error f
        then some f
        else if Frame.is_response_to f req
        then some f
        else none
    | err corrupt ↦ none
    | fault ↦ none
  ]

  module _ (t : Transport) where
    -- The `while let` loop. The fuel bounds the candidates; at 0 the model gives up.
    unfoldable pub recv_loop : ℕ → Frame → ℕ → Action t.State TransportError Frame
    recv_loop zero req deadline s = (fault, s)
    recv_loop (suc n) req deadline s =
        let s' = (t.recv_frame deadline s).1 in
        let more = recv_loop n req deadline s' in
        elim (t.recv_frame deadline s).0 [
          | err e ↦ (err (io e), s')
          | fault ↦ (fault, s')
          | ok none ↦ (err timeout, s')
          | ok (some raw) ↦ elim (Frame.decode crc raw) [
            | fault ↦ (fault, s')
            | err corrupt ↦ more
            | ok answer ↦ elim (accept req raw) [ some f ↦ (ok f, s') | none ↦ more ]
          ]
        ]

    -- What follows the send.
    unfoldable pub await :
        Frame → ℕ → Result IoError (Unit {0}) → Action t.State TransportError Frame
    unfolding recv_loop
    await req deadline (ok _) s = recv_loop (suc (t.budget deadline s)) req deadline s
    await req deadline (err e) s = (err (io e), s)
    await req deadline fault s = (fault, s)

    unfoldable pub transmit :
        Frame → ℕ → Result TransportError Bytes → Action t.State TransportError Frame
    unfolding await
    transmit req deadline (ok bytes) s =
        await req deadline (t.send_frame bytes s).0 (t.send_frame bytes s).1
    transmit req deadline (err e) s = (err e, s)
    transmit req deadline fault s = (fault, s)

    unfoldable pub xfer : Frame → ℕ → Action t.State TransportError Frame
    unfolding transmit
    xfer req timeout_ms s = transmit req (t.now s + timeout_ms) (Frame.encode crc req) s
