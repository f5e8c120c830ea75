-- ===== src/Transport/Uart.antt =====
-- tools/src/transport/uart.rs: the serial port as a byte source and a transport. The port is an
-- interface, and the value of OPENBOOT_UART_CHUNK an argument. Pauses are in microseconds.
pub mod Plan
pub mod Send
pub mod Source
pub mod Exchange
use open_boot.Base.{
  ℕ, zero, suc, ◌+◌, ◌-◌, ◌*◌, ◌/◌, ◌^◌, ◌≤◌, ◌<◌, ◌≡◌, ◌≢◌, max, Bool, true, false, List, [], ◌∷◌,
  ◌++◌, Option, none, some, Result, ok, err, fault, Bytes, length, take, slice, div_ceil, ltb, ◌==◌,
  if◌then◌else◌, refl, arith,
}
use open_boot.Base.Actions.{Action, pure, ◌>>=◌, ◌>>◌}
use open_boot.Text.{Text, trim, from_str_radix}
use open_boot.Proto.Consts.{uart_baud}
use open_boot.Transport.{IoError}
use open_boot.Transport.Framing.{ByteSource, encode_sof, recv_sof_frame}

-- The errors of a read: the kind `TimedOut`, and the others.
pub data ReadError : Type 0 where
  timed_out : ReadError
  broken : IoError → ReadError

-- `serialport::SerialPort` and the clock. `read_one` reads into a buffer of one byte: `none` is
-- `Ok(0)`. `written` is no part of the port: it is every byte that a write has handed over, where a
-- write that fails may have handed over a front of its bytes. `budget` bounds the bytes that can
-- still be read before a deadline.
pub record SerialPort : Type 1 where
  pub State : Type 0
  pub now : State → ℕ
  pub set_timeout : ℕ → Action State IoError (Unit {0})
  pub read_one : Action State ReadError (Option ℕ)
  pub write_all : Bytes → Action State IoError (Unit {0})
  pub flush : Action State IoError (Unit {0})
  pub sleep : ℕ → State → State
  pub written : State → Bytes
  pub budget : ℕ → State → ℕ
  pub set_timeout-ne-fault : (wait : ℕ) (s : State) → (set_timeout wait s).0 ≢ fault
  pub read_one-ne-fault : (s : State) → (read_one s).0 ≢ fault
  pub write_all-ne-fault : (bytes : Bytes) (s : State) → (write_all bytes s).0 ≢ fault
  pub flush-ne-fault : (s : State) → (flush s).0 ≢ fault
  pub written-set_timeout : (wait : ℕ) (s : State) → written (set_timeout wait s).1 ≡ written s
  pub written-flush : (s : State) → written (flush s).1 ≡ written s
  pub written-sleep : (micros : ℕ) (s : State) → written (sleep micros s) ≡ written s
  pub written-read_one : (s : State) → written (read_one s).1 ≡ written s
  pub written-write_all :
      (bytes : Bytes) (s : State)
      → (write_all bytes s).0 ≡ ok tt
      → written (write_all bytes s).1 ≡ written s ++ bytes
  pub written-write_all_front :
      (bytes : Bytes) (s : State)
      → (front : Bytes) × (back : Bytes) × (bytes ≡ front ++ back)
        × (written (write_all bytes s).1 ≡ written s ++ front)
  pub now-set_timeout : (wait : ℕ) (s : State) → now (set_timeout wait s).1 ≡ now s
  pub budget-set_timeout :
      (deadline wait : ℕ) (s : State) → budget deadline (set_timeout wait s).1 ≡ budget deadline s
  pub read_one-budget :
      (deadline : ℕ) (s : State) (b : ℕ)
      → now s < deadline
      → (read_one s).0 ≡ ok (some b)
      → budget deadline (read_one s).1 < budget deadline s
  pub read_one-budget_le :
      (deadline : ℕ) (s : State)
      → now s < deadline
      → budget deadline (read_one s).1 ≤ budget deadline s

abbrev pub uart_write_chunk : ℕ
uart_write_chunk = 16

-- `Ok(0)`, `Ok(n)` and `Err(_)` of the parsed number.
abbrev pub chunk_of : Option ℕ → Option ℕ
chunk_of none = some uart_write_chunk
chunk_of (some zero) = none
chunk_of (some (suc n)) = some (suc n)

unfoldable pub parse_chunk : Option Text → Option ℕ
unfolding trim from_str_radix
parse_chunk none = some uart_write_chunk
parse_chunk (some s) = chunk_of (from_str_radix (2 ^ 64) 10 (trim s))

-- `(0..n).map(..)`, from i on with so many left.
unfoldable pub plan_rows : ℕ → ℕ → ℕ → ℕ → ℕ → List (ℕ × Bool)
plan_rows zero i n total c = []
plan_rows (suc k) i n total c =
    (if i + 1 == n then total - i * c else c, ltb (i + 1) n) ∷ plan_rows k (i + 1) n total c

unfoldable pub write_plan : ℕ → Option ℕ → List (ℕ × Bool)
unfolding plan_rows
write_plan total none = (total, false) ∷ []
write_plan total (some c) = let n = div_ceil total c in plan_rows n 0 n total c

-- In microseconds; the numbers are far below the range of u64.
unfoldable pub chunk_drain : ℕ → ℕ
chunk_drain n = let micros = n * 10 * 1000000 / uart_baud in micros + micros / 2 + 200

abbrev pub write_timeout : ℕ
write_timeout = 2000

-- What `read_byte` makes of the outcome of the read.
abbrev pub received : Result ReadError (Option ℕ) → Result IoError (Option ℕ)
received (ok o) = ok o
received (err timed_out) = ok none
received (err (broken e)) = err e
received fault = fault

module _ (port : SerialPort) where
  unfoldable pub read_byte : ℕ → Action port.State IoError (Option ℕ)
  read_byte wait = do
    port.set_timeout (max wait 1)
    (λ s. (received (port.read_one s).0, (port.read_one s).1))

  -- `if pause { sleep(chunk_drain(len)) }`
  unfoldable pub rest_after : Bool → ℕ → Action port.State IoError (Unit {0})
  unfolding chunk_drain
  rest_after pause len s = (ok tt, if pause then port.sleep (chunk_drain len) s else s)

  -- The loop over the plan; a slice out of range is a panic.
  unfoldable pub write_chunks : List (ℕ × Bool) → ℕ → Bytes → Action port.State IoError (Unit {0})
  unfolding rest_after
  write_chunks [] sent out s = (ok tt, s)
  write_chunks ((len, pause) ∷ plan) sent out s = elim (ltb (length out) (sent + len)) [
    | true ↦ (fault, s)
    | false ↦
        (port.write_all (slice out sent (sent + len))
            >> port.flush
            >> rest_after pause len
            >> write_chunks plan (sent + len) out)
          s
  ]

  unfoldable pub send_frame : Option Text → Bytes → Action port.State IoError (Unit {0})
  unfolding write_chunks write_plan parse_chunk encode_sof
  send_frame chunk frame = do
    port.set_timeout write_timeout
    write_chunks (write_plan (length (encode_sof frame)) (parse_chunk chunk)) 0 (encode_sof frame)
