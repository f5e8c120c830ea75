-- ===== src/Tests/Instances.antt =====
-- Concrete parameters: a checksum, a transport that plays a script, a source that plays bytes.
use open_boot.Base.{
  ℕ, ◌+◌, ◌*◌, ◌%◌, ◌^◌, ◌≤◌, ◌<◌, ◌≡◌, ◌≢◌, refl, true, List, [], ◌∷◌, ◌++◌, Option, none, some,
  Result, ok, fault, Bytes, IsU32, length, arith,
}
use open_boot.Base.Actions.{Action}
use open_boot.Proto.Crc32.{Crc32}
use open_boot.Transport.{Transport, IoError}
use open_boot.Transport.Framing.{ByteSource}

-- A sum that depends on the order of the bytes, in place of the CRC.
abbrev pub rolling : ℕ → Bytes → ℕ
rolling acc [] = acc
rolling acc (b ∷ bs) = rolling ((acc * 31 + b + 1) % 2 ^ 32) bs

pub rolling-IsU32 : (acc : ℕ) (bs : Bytes) → IsU32 acc → IsU32 (rolling acc bs)
rolling-IsU32 acc [] h = h
rolling-IsU32 acc (b ∷ bs) h = rolling-IsU32 ((acc * 31 + b + 1) % 2 ^ 32) bs (omega arith)

abbrev pub sum_crc : Crc32
sum_crc = record { hash = rolling 7; hash-IsU32 = λ bs. rolling-IsU32 7 bs (omega arith) }

-- The clock, the frames that will arrive, and the frames that were sent.
pub record Line : Type 0 where
  pub clock : ℕ
  pub incoming : List Bytes
  pub log : List Bytes

abbrev pub line_send : Bytes → Action Line IoError (Unit {0})
line_send bytes s = (ok tt, record s { log = s.log ++ (bytes ∷ []) })

pub line_send-ne-fault : (bytes : Bytes) (s : Line) → (line_send bytes s).0 ≢ fault
line_send-ne-fault bytes s e = cc

abbrev pub line_next : ℕ → ℕ → List Bytes → List Bytes → Result IoError (Option Bytes) × Line
line_next deadline clock [] log = (ok none, record { clock = deadline; incoming = []; log = log })
line_next deadline clock (raw ∷ rest) log =
    (ok (some raw), record { clock = clock + 1; incoming = rest; log = log })

abbrev pub line_recv : ℕ → Action Line IoError (Option Bytes)
line_recv deadline s = line_next deadline s.clock s.incoming s.log

pub line_next-log : (d c : ℕ) (q l : List Bytes) → (line_next d c q l).1.log ≡ l
line_next-log d c [] l = refl
line_next-log d c (raw ∷ q) l = refl

pub line_next-ne-fault : (d c : ℕ) (q l : List Bytes) → (line_next d c q l).0 ≢ fault
line_next-ne-fault d c [] l e = cc
line_next-ne-fault d c (raw ∷ q) l e = cc

pub line_next-budget :
    (d c : ℕ) (q l : List Bytes) (raw : Bytes)
    → (line_next d c q l).0 ≡ ok (some raw)
    → length (line_next d c q l).1.incoming < length q
line_next-budget d c [] l raw e = cc
line_next-budget d c (x ∷ q) l raw e = omega arith

abbrev pub script : Transport
script = record {
  State = Line;
  now = λ s. s.clock;
  send_frame = line_send;
  recv_frame = line_recv;
  holds_in_bootloader = λ s. true;
  sent = λ s. s.log;
  budget = λ d s. length s.incoming;
  sent-send = λ bytes s. refl;
  sent-recv = λ d s. line_next-log d s.clock s.incoming s.log;
  send-ne-fault = λ bytes s short. line_send-ne-fault bytes s;
  recv-ne-fault = λ d s. line_next-ne-fault d s.clock s.incoming s.log;
  recv-budget = λ d s raw e. line_next-budget d s.clock s.incoming s.log raw e;
}

-- The clock and the bytes that will arrive, one in each millisecond.
pub record Wire : Type 0 where
  pub clock : ℕ
  pub bytes : Bytes

abbrev pub wire_next : ℕ → ℕ → Bytes → Result IoError (Option ℕ) × Wire
wire_next wait clock [] = (ok none, record { clock = clock + wait; bytes = [] })
wire_next wait clock (b ∷ bs) = (ok (some b), record { clock = clock + 1; bytes = bs })

pub wire_next-ne-fault : (w c : ℕ) (q : Bytes) → (wire_next w c q).0 ≢ fault
wire_next-ne-fault w c [] e = cc
wire_next-ne-fault w c (b ∷ q) e = cc

pub wire_next-budget :
    (w c : ℕ) (q : Bytes) (b : ℕ)
    → (wire_next w c q).0 ≡ ok (some b)
    → length (wire_next w c q).1.bytes < length q
wire_next-budget w c [] b e = cc
wire_next-budget w c (x ∷ q) b e = omega arith

pub wire_next-budget_le : (w c : ℕ) (q : Bytes) → length (wire_next w c q).1.bytes ≤ length q
wire_next-budget_le w c [] = omega arith
wire_next-budget_le w c (x ∷ q) = omega arith

abbrev pub tape : ByteSource
tape = record {
  State = Wire;
  now = λ s. s.clock;
  next_byte = λ w s. wire_next w s.clock s.bytes;
  budget = λ d s. length s.bytes;
  next-ne-fault = λ w s. wire_next-ne-fault w s.clock s.bytes;
  next-budget = λ d w s b before early e. wire_next-budget w s.clock s.bytes b e;
  next-budget_le = λ d w s before early. wire_next-budget_le w s.clock s.bytes;
}
